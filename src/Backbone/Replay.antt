-- ===== src/Backbone/Replay.antt =====
-- src/backbone.c: the window of the last 64 sequence numbers.
pub mod Once
use meshcore_repeater.Common.{ℕ, ◌+◌, ◌-◌, Bool, true, false, if◌then◌else◌, ltb, leb, ◌==◌}
use meshcore_repeater.Common.Bits.{bit_at, set_bit, shift_left}

-- `bb_replay_t`.
pub record Window : Type 0 where
  pub top : ℕ
  pub bits : ℕ

abbrev pub fresh_window : Window
fresh_window = record { top = 0; bits = 0 }

-- Whether `seq` is accepted, and the window that then holds.
unfoldable pub bb_replay_check : Window → ℕ → Window × Bool
bb_replay_check w seq =
    let shift = seq - w.top in
    let back = w.top - seq in
    if seq == 0
    then (w, false)
    else if ltb w.top seq
    then (
      record { top = seq; bits = set_bit (if leb 64 shift then 0 else shift_left w.bits shift) 0 },
      true,
    )
    else if leb 64 back
    then (w, false)
    else if bit_at w.bits back == 1
    then (w, false)
    else (record w { bits = set_bit w.bits back }, true)
