-- ===== src/Estim/Session/Handling.antt =====
-- internal/estim/session.go: the service's messages keep the bounds of a `Session`.
use masseuse_camlink.Prelude.{
  ℕ, ◌+◌, ◌-◌, ◌≡◌, ap, ◌∙◌, Bool, true, false, ◌&&◌, ◌||◌, not, Option, none, some, List, [], ◌∷◌,
  ltb, if◌then◌else◌, if_keeps, option_keeps, arith, same_text, is_empty,
}
use masseuse_camlink.Estim.Caps.{Settings}
use masseuse_camlink.Estim.Runtime.State.{Io, Descriptor, reset_settings}
use masseuse_camlink.Estim.Runtime.Actuation.{extend_arm}
use masseuse_camlink.Estim.Runtime.Telemetry.{Ring, Sampled}
use masseuse_camlink.Estim.Session.Trimmed.{trim_bounds}
use masseuse_camlink.Estim.Session.State.{
  Session, Task, runs, applies, CommandId, Parsed, queue, queue_runtime_state, queue_settings,
  ack_stale, device_message, is_mine,
}
use masseuse_camlink.Estim.Session.Handle.{
  Selection, Control, companion_attached, device_settings, device_command, device_select, Inbound,
  heartbeat_ack, ignored, control, detach_for, handle, tick, telemetry_tick, device_changed, select,
  is_other, attach_control, renew_arm, attach, take_command, take_settings, handle_control,
  send_telemetry, queue_some, is_release,
}
use masseuse_camlink.Estim.Session.Orderly.{
  bit, is_command, is_arming, count, count-append, IsOrderlyBut, queue-IsOrderly,
  queue_some-IsOrderly, queue_runtime_state-IsOrderly, auto_arm-IsOrderly, detach-IsOrderly,
}

module _ (n m : ℕ) where
  renew_arm-IsOrderly :
      (io : Io) (s : Session) → IsOrderlyBut n m s → IsOrderlyBut n m (renew_arm io s)
  unfolding renew_arm
  renew_arm-IsOrderly io s h =
      if_keeps (IsOrderlyBut n m) (extend_arm io s.runtime).1 (λ _. h)
        (λ _. auto_arm-IsOrderly n m io.now s h)

  pub tick-IsOrderly : (io : Io) (s : Session) → IsOrderlyBut n m s → IsOrderlyBut n m (tick io s)
  unfolding tick queue
  tick-IsOrderly io s h =
      if_keeps (IsOrderlyBut n m) (not s.attached) (λ _. h)
        (λ _.
          if_keeps (IsOrderlyBut n m) (ltb ack_stale (io.now - s.last_ack))
            (λ _. detach-IsOrderly n m io _ true s h) (λ _. (trim_bounds _, h.1, h.2)))

  send_telemetry-IsOrderly :
      (d : Ring Sampled × List Sampled) (s : Session)
      → IsOrderlyBut n m s
      → IsOrderlyBut n m (send_telemetry d s)
  unfolding queue
  send_telemetry-IsOrderly (ring, []) s h = h
  send_telemetry-IsOrderly (ring, f ∷ fs) s h = (trim_bounds _, h.1, h.2)

  pub telemetry_tick-IsOrderly :
      (s : Session) → IsOrderlyBut n m s → IsOrderlyBut n m (telemetry_tick s)
  unfolding telemetry_tick
  telemetry_tick-IsOrderly s h =
      if_keeps (IsOrderlyBut n m) s.attached (λ _. send_telemetry-IsOrderly _ s h) (λ _. h)

  pub device_changed-IsOrderly :
      (now : ℕ) (d : Descriptor) (connected : Bool) (units : Option (List (List ℕ))) (s : Session)
      → IsOrderlyBut n m s
      → IsOrderlyBut n m (device_changed now d connected units s)
  unfolding device_changed
  device_changed-IsOrderly now d connected units s h =
      let t : Session = queue_some (device_message d connected units) s in
      let u : Session = queue_runtime_state now s.session_id t in
      let k : IsOrderlyBut n m t =
        queue_some-IsOrderly n m (device_message d connected units) s h in
      let j : IsOrderlyBut n m u = queue_runtime_state-IsOrderly n m now s.session_id t k in
      if_keeps (IsOrderlyBut n m) (not s.attached) (λ _. k)
        (λ _. if_keeps (IsOrderlyBut n m) connected (λ _. auto_arm-IsOrderly n m now u j) (λ _. j))

  attach-IsOrderly :
      (now : ℕ) (sid : List ℕ) (s : Session)
      → IsOrderlyBut n m s
      → IsOrderlyBut n m (attach now sid s)
  unfolding attach queue
  attach-IsOrderly now sid s h =
      let t : Session = record s {
        session_id = sid;
        attached = true;
        last_ack = now;
        runtime =
            if not s.attached || not (same_text s.session_id sid)
            then reset_settings s.runtime
            else s.runtime;
      } in
      auto_arm-IsOrderly n m now (queue_settings sid (queue_runtime_state now sid t))
        (trim_bounds _, h.1, h.2)

  take_command-IsOrderly :
      (envelope sid : List ℕ) (cid : CommandId) (p : Parsed) (s : Session)
      → IsOrderlyBut n m s
      → IsOrderlyBut n m (take_command envelope sid cid p s)
  unfolding take_command
  take_command-IsOrderly envelope sid cid p s h =
      let t : Task = runs s.session_id cid p in
      if_keeps (IsOrderlyBut n m) (is_other envelope sid s && not (is_release p))
        (λ _. queue-IsOrderly n m s.session_id false _ s h)
        (λ _.
          if_keeps (IsOrderlyBut n m) (is_release p)
            (λ e. (
              h.0,
              ground (arith, count-append is_command s.tasks t),
              omega (arith, count-append is_arming s.tasks t, h.2),
            ))
            (λ e.
              if_keeps (IsOrderlyBut n m) s.busy (λ _. queue-IsOrderly n m s.session_id false _ s h)
                (λ b.
                  let k : count is_command s.tasks + n ≡ 0 = h.1 ∙ ap bit b in
                  (
                    h.0,
                    ground (arith, count-append is_command s.tasks t),
                    omega (arith, count-append is_arming s.tasks t, h.2),
                  ))))

  take_settings-IsOrderly :
      (envelope sid : List ℕ) (settings : Option Settings) (s : Session)
      → IsOrderlyBut n m s
      → IsOrderlyBut n m (take_settings envelope sid settings s)
  unfolding take_settings
  take_settings-IsOrderly envelope sid settings s h =
      if_keeps (IsOrderlyBut n m) (is_other envelope sid s) (λ _. h)
        (λ _.
          option_keeps (IsOrderlyBut n m) settings
            (λ _. queue-IsOrderly n m s.session_id false _ s h)
            (λ st _.
              let t : Task = applies s.session_id st in
              (
                h.0,
                omega (arith, count-append is_command s.tasks t, h.1),
                omega (arith, count-append is_arming s.tasks t, h.2),
              )))

  select-IsOrderly :
      (choose : Option Selection) (id : List ℕ) (s : Session)
      → IsOrderlyBut n m s
      → IsOrderlyBut n m (select choose id s)
  select-IsOrderly none id s h = h
  select-IsOrderly (some c) id s h = if_keeps (IsOrderlyBut n m) (is_empty id) (λ _. h) (λ _. h)

  attach_control-IsOrderly :
      (now : ℕ) (envelope sid : List ℕ) (s : Session)
      → IsOrderlyBut n m s
      → IsOrderlyBut n m (attach_control now envelope sid s)
  attach_control-IsOrderly now envelope sid s h =
      let id = if is_empty sid then envelope else sid in
      if_keeps (IsOrderlyBut n m)
        (is_empty id || (not (is_empty envelope) && not (same_text id envelope))) (λ _. h)
        (λ _. attach-IsOrderly now id s h)

  handle_control-IsOrderly :
      (now : ℕ) (choose : Option Selection) (envelope : List ℕ) (c : Control) (s : Session)
      → IsOrderlyBut n m s
      → IsOrderlyBut n m (handle_control now choose envelope c s)
  unfolding handle_control
  handle_control-IsOrderly now choose envelope (companion_attached sid) s h =
      attach_control-IsOrderly now envelope sid s h
  handle_control-IsOrderly now choose envelope (device_settings sid settings) s h =
      if_keeps (IsOrderlyBut n m) s.attached
        (λ _. take_settings-IsOrderly envelope sid settings s h) (λ _. h)
  handle_control-IsOrderly now choose envelope (device_command sid cid p) s h =
      if_keeps (IsOrderlyBut n m) s.attached (λ _. take_command-IsOrderly envelope sid cid p s h)
        (λ _. queue-IsOrderly n m envelope false _ s h)
  handle_control-IsOrderly now choose envelope (device_select id) s h =
      select-IsOrderly choose id s h

  pub handle-IsOrderly :
      (io : Io) (choose : Option Selection) (sid : List ℕ) (x : Inbound) (s : Session)
      → IsOrderlyBut n m s
      → IsOrderlyBut n m (handle io choose sid x s)
  unfolding handle
  handle-IsOrderly io choose sid heartbeat_ack s h =
      if_keeps (IsOrderlyBut n m) (is_mine sid s)
        (λ _. renew_arm-IsOrderly io (record s { last_ack = io.now }) h) (λ _. h)
  handle-IsOrderly io choose sid (control c) s h = handle_control-IsOrderly io.now choose sid c s h
  handle-IsOrderly io choose sid (detach_for reason) s h =
      if_keeps (IsOrderlyBut n m) (is_mine sid s) (λ _. detach-IsOrderly n m io _ false s h)
        (λ _. h)
  handle-IsOrderly io choose sid ignored s h = h
