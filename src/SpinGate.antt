-- ===== src/SpinGate.antt =====
-- The adaptive spin-then-park gate (crates/core/src/spin_gate.rs). `u8` fields keep their wrap-around.
pub mod Credit
mod Tests
use cadeloop.Prelude.{
  ℕ, zero, suc, ◌+◌, ◌-◌, ◌%◌, ◌<◌, ◌≤◌, min, Bool, true, false, ◌||◌, List, [], ◌∷◌, ltb, leb,
  if◌then◌else◌,
}

abbrev pub hit_credit : ℕ
hit_credit = 3

abbrev pub max_credit : ℕ
max_credit = 12

abbrev pub probe_every : ℕ
probe_every = 8

pub record SpinGate : Type 0 where
  pub credit : ℕ
  pub since_probe : ℕ

abbrev pub new : SpinGate
new = record { credit = max_credit; since_probe = 0 }

-- `&mut self` comes back beside the answer.
pub should_spin : SpinGate → SpinGate × Bool
should_spin g =
    if ltb 0 g.credit || leb probe_every ((g.since_probe + 1) % 256)
    then (g, true)
    else (record g { since_probe = (g.since_probe + 1) % 256 }, false)

-- `saturating_sub(1)` is the subtraction of ℕ.
pub record_spin : SpinGate → Bool → SpinGate
record_spin g hit = record {
  credit = if hit then min ((g.credit + hit_credit) % 256) max_credit else g.credit - 1;
  since_probe = 0;
}

-- What a park's spin finds: work that arrived during it, nothing in its whole window, or what is
-- not recorded (work already waiting at the first look, or a window that a due timer cut short).
pub data Outcome : Type 0 where
  caught missed unrecorded : Outcome

unfoldable pub tell : SpinGate → Outcome → SpinGate
unfolding record_spin
tell g caught = record_spin g true
tell g missed = record_spin g false
tell g unrecorded = g

-- A park asks the gate, and a spin tells it what it found.
unfoldable pub park : SpinGate → Outcome → SpinGate × Bool
unfolding should_spin tell
park g o = let (g', spun) = should_spin g in if spun then (tell g' o, true) else (g', false)
