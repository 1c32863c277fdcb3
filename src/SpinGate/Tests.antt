-- ===== src/SpinGate/Tests.antt =====
-- Runs of crates/core/src/spin_gate.rs at concrete inputs.
use cadeloop.Prelude.{◌+◌, ◌*◌, ◌≤◌, ◌≡◌, List, [], ◌∷◌, arith, length}
use cadeloop.SpinGate.{SpinGate, new, Outcome, caught, missed, unrecorded}
use cadeloop.SpinGate.Credit.{
  IsValid, IsValid-new, count_caught, count_unrecorded, parks, parks_sparse, parks_dense,
  parks_probe,
}

abbrev mixed : List Outcome
mixed = missed ∷ caught ∷ unrecorded ∷ missed ∷ []

abbrev shut : SpinGate
shut = record { credit = 0; since_probe = 5 }

IsValid-shut : IsValid shut
IsValid-shut = record { capped = omega arith; probing = omega arith }

abbrev three_missed : List Outcome
three_missed = missed ∷ missed ∷ missed ∷ []

parks_sparse_example :
    (8 * (parks new mixed).1
      ≤ length mixed + 31 * count_caught mixed + 7 * count_unrecorded mixed + 103)
    × IsValid (parks new mixed).0
parks_sparse_example = parks_sparse new mixed IsValid-new

-- A gate that holds two credits, and more misses than that, which live on the catches between them.
abbrev low : SpinGate
low = record { credit = 2; since_probe = 0 }

abbrev dense : List Outcome
dense = missed ∷ caught ∷ missed ∷ caught ∷ missed ∷ []

IsValid-low : IsValid low
IsValid-low = record { capped = omega arith; probing = omega arith }

parks_dense_example : (parks low dense).1 ≡ length dense
parks_dense_example = parks_dense low dense IsValid-low (ground arith)

parks_probe_example : 1 ≤ (parks shut three_missed).1
parks_probe_example = parks_probe shut three_missed IsValid-shut (omega arith)
