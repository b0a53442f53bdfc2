-- ===== src/Estim/Mastago/Readings.antt =====
-- internal/estim/mastago: `Status` and `Telemetry` of device.go, and `Connect` and the label of driver.go.
use masseuse_camlink.Prelude.{
  ℕ, ◌-◌, ◌/◌, ◌^◌, Bool, true, false, Option, none, some, List, ◌++◌, if◌then◌else◌, is_empty,
  codes, drop, has_prefix, trim_space, ℤ, pos, max_ℤ,
}
use masseuse_camlink.Estim.Caps.{neg}
use masseuse_camlink.Estim.Runtime.State.{Status, disconnected_status}
use masseuse_camlink.Estim.Mastago.Device.{Device, State, lost}
use masseuse_camlink.Estim.Mastago.Exchange.{Action, raise, pure, ◌>>=◌}
use masseuse_camlink.Estim.Mastago.Commands.{mode, level, outputting, timer, battery, load}
use masseuse_camlink.Estim.Mastago.Driver.{add_int}

-- `LabelFor`: the name without the vendor's prefix.
abbrev vendor : List ℕ
vendor = codes "MASTOGO"

without_vendor : List ℕ → List ℕ
unfolding has_prefix
without_vendor s = if has_prefix s vendor then drop 7 s else s

unfoldable pub label_for : List ℕ → List ℕ
unfolding without_vendor trim_space
label_for name =
    let suffix = trim_space (without_vendor (trim_space name)) in
    if is_empty suffix then codes "Mastago TENS" else codes "Mastago TENS " ++ suffix

-- A compact sample: its times and what the unit has not are left out.
pub record Sample : Type 0 where
  pub level_a : ℤ
  pub outputting : Bool
  pub load_detected : Option Bool
  pub mode : Option ℤ
  pub timer_remaining_s : Option ℤ

-- The countdown, counted down by the clock since it was read. Instants are nanoseconds.
unfoldable pub counted_down : ℕ → Option ℕ → ℤ → ℤ
unfolding add_int
counted_down now none s = s
counted_down now (some t) s = max_ℤ (pos 0) (add_int s (neg ((now - t) / 10 ^ 9)))

abbrev timer_now : ℕ → State → Option ℤ
timer_now now st = elim st.timer_remaining_s [
  | none ↦ none
  | some s ↦ some (counted_down now st.timer_read_at s)
]

abbrev gets {ℓ} : {A : Type ℓ} → (Device → A) → Action A
gets f d = pure (f d) d

module _ (parse_volts : List ℕ → Option ℕ) (battery_percent : ℕ → ℤ) where
  -- `Device.Status`, given the unit's identifier.
  unfoldable pub status : List ℕ → Action Status
  unfolding outputting timer battery load
  status id = do
    m ← mode parse_volts
    n ← level parse_volts
    on ← outputting parse_volts
    s ← timer parse_volts
    v ← battery parse_volts
    l ← load parse_volts
    pure (record disconnected_status {
      connected = true;
      port = some id;
      mode = some m;
      level_a = some n;
      level_b = some (pos 0);
      power = some (codes "normal");
      battery_percent = some (battery_percent v);
      adc_override = some false;
      ma_pot_override = some false;
      outputting = some on;
      load_detected = some l;
      timer_remaining_s = some s;
    })

  -- `Driver.Status`: a link that has ended is its error.
  unfoldable pub driver_status : List ℕ → Action Status
  unfolding status
  driver_status id d =
      let read = status id d in elim d.link_err [ none ↦ read | some e ↦ raise (lost e) d ]

  -- `Telemetry`.
  unfoldable pub telemetry : Action Sample
  unfolding outputting counted_down
  telemetry = do
    n ← level parse_volts
    on ← outputting parse_volts
    gets (λ d. record {
      level_a = n;
      outputting = on;
      load_detected = d.st.load_detected;
      mode = d.st.mode;
      timer_remaining_s = timer_now d.now d.st;
    })

  -- `Connect`, once the unit's replies are subscribed to: whether it answers as a unit. The label, or
  -- the error after which the link is closed.
  unfoldable pub connect : List ℕ → Action (List ℕ)
  unfolding label_for
  connect name = do m ← mode parse_volts; pure (label_for name)
