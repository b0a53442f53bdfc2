-- ===== src/Tests/Gates.antt =====
-- internal/serve: a video track of one-byte H.264 packets.
use masseuse_camlink.Prelude.{
  ℕ, ◌+◌, ◌≡◌, refl, Bool, true, false, Option, none, some, ◌++◌, List, [], ◌∷◌, arith,
}
use masseuse_camlink.Serve.Gate.{Packet, Episode, h264, Track, new_track, admit}
use masseuse_camlink.Serve.Gate.Kind.{h264_kind}
use masseuse_camlink.Serve.Gate.Dropping.{Input, IsGated, admit_all, admit_all-IsGated}
use masseuse_camlink.Serve.Gate.Counting.{held, reported, dropped, admit_all_accounts}
use masseuse_camlink.Serve.Timed.{
  Call, new_writer, flush, write_all, given, packets, IsHeld, write_all_new,
}

-- An IDR slice, a slice of another frame, and one of the next frame after those.
abbrev idr : Packet
idr = record { timestamp = 90; ssrc = 7; sequence_number = 65535; payload = 101 ∷ [] }

abbrev slice : Packet
slice = record { timestamp = 3090; ssrc = 7; sequence_number = 0; payload = 65 ∷ [] }

abbrev idr_again : Packet
idr_again = record { timestamp = 6090; ssrc = 7; sequence_number = 1; payload = 101 ∷ [] }

abbrev at_time : Packet → Bool → ℕ → Input
at_time p congested now = record { pkt = p; congested = congested; backlog = 10; now = now }

abbrev inputs : List Input
inputs = at_time idr false 1 ∷ at_time slice true 2 ∷ at_time idr_again false 3 ∷ []

abbrev fates : List (Input × Bool × Option Episode) → List Bool
fates [] = []
fates ((i, sent, ended) ∷ rest) = sent ∷ fates rest

-- The congested frame is dropped, and the next keyframe resumes.
fates-inputs : fates (admit_all (new_track 90000 h264) inputs).1 ≡ true ∷ false ∷ true ∷ []
unfolding admit_all admit new_track h264_kind
fates-inputs = refl

admit_all-IsGated_example : IsGated h264 none true (admit_all (new_track 90000 h264) inputs).1
admit_all-IsGated_example = admit_all-IsGated 90000 h264 inputs

admit_all_accounts_example :
    held (admit_all (new_track 90000 h264) inputs).0
      + reported (admit_all (new_track 90000 h264) inputs).1
    ≡ dropped (admit_all (new_track 90000 h264) inputs).1
admit_all_accounts_example = admit_all_accounts 90000 h264 inputs (omega arith)

abbrev track : Track
unfolding new_track
track = new_track 90000 h264

track_open : (track.dropping ≡ false) × (track.undecided ≡ false)
unfolding track
track_open = (refl, refl)

-- Two packets without a time, and one with it: all three leave then, in order.
abbrev timed_call : ℕ → Option ℕ → Call ℕ
timed_call p t = record { media = 0; packet = p; now = 1000; time_of = λ q. t; fails = λ q. none }

abbrev timed_calls : List (Call ℕ)
timed_calls = timed_call 1 none ∷ timed_call 2 none ∷ timed_call 3 (some 7) ∷ []

timed_written :
    (write_all 0 new_writer timed_calls).1
    ≡ record { packet = 1; time = some 7 }
      ∷ record { packet = 2; time = some 7 }
      ∷ record { packet = 3; time = some 7 }
      ∷ []
unfolding write_all flush
timed_written = refl

write_all_new_example :
    (packets (write_all 0 new_writer timed_calls).1
        ++ ((write_all 0 new_writer timed_calls).0 0).held
      ≡ given 0 timed_calls)
    × IsHeld ((write_all 0 new_writer timed_calls).0 0)
write_all_new_example = write_all_new 0 timed_calls
