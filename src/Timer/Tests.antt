-- ===== src/Timer/Tests.antt =====
-- Runs of crates/core/src/timer.rs at concrete inputs.
use mathlib.Core.Option.{some-injective}
use cadeloop.Prelude.{ℕ, zero, suc, ◌≡◌, refl, ap, Bool, true, false, List, [], ◌∷◌, arith}
use cadeloop.Prelude.Partial.{Yields}
use cadeloop.Timer.{TimerPayload, Entry}
use cadeloop.Timer.Order.{IsBelow, IsHeap, rank_of}
use cadeloop.Timer.Heap.{
  TimerHeap, schedule, pop_expired, next_deadline, compact, note_cancelled, peek_deadline,
}
use cadeloop.Timer.Heap.Expire.{
  IsValid, Expired, pop_expired_correct, Dropped, next_deadline_correct,
}
use cadeloop.Timer.Heap.Schedule.{Scheduled, schedule_correct}
use cadeloop.Timer.Heap.Compact.{Compacted, compact_correct, Noted, note_cancelled_correct}

record Handle : Type 0 where
  tag : ℕ
  is_cancelled : Bool
  is_scheduled : Bool

instance HandlePayload : TimerPayload Handle
HandlePayload = record {
  is_cancelled = λ h. h.is_cancelled;
  mark_unscheduled = λ h. record h { is_scheduled = false };
  cancelled_marked = λ h. refl;
}

abbrev handle : ℕ → Bool → Handle
handle n b = record { tag = n; is_cancelled = b; is_scheduled = true }

abbrev three : List (Entry Handle)
three =
    record { deadline = 10; seq = 1; payload = handle 1 true }
    ∷ record { deadline = 20; seq = 0; payload = handle 0 false }
    ∷ record { deadline = 10; seq = 2; payload = handle 2 false }
    ∷ []

-- A cancelled timer on top, and two live ones.
abbrev sample : TimerHeap Handle
sample = record { entries = three; seq = 3; tombstones = 1; graveyard = [] }

three_ordered : IsHeap three
unfolding rank_of
three_ordered zero p q r = absurd (omega arith)
three_ordered (suc zero) p q r = omega arith
three_ordered (suc (suc zero)) p q r = omega arith
three_ordered (suc (suc (suc c))) p q r = absurd (omega arith)

three_issued : IsBelow 3 three
three_issued zero e q = ground (arith, ap (λ (x : Entry Handle). x.seq) (some-injective _ _ q))
three_issued (suc zero) e q =
    ground (arith, ap (λ (x : Entry Handle). x.seq) (some-injective _ _ q))
three_issued (suc (suc zero)) e q =
    ground (arith, ap (λ (x : Entry Handle). x.seq) (some-injective _ _ q))
three_issued (suc (suc (suc i))) e q = cc

sample-IsValid : IsValid sample
sample-IsValid = record { heap = three_ordered; issued = three_issued; room = omega arith }

schedule_correct_example :
    Yields (Scheduled sample 10 (handle 3 false)) (schedule sample 10 (handle 3 false))
schedule_correct_example = schedule_correct sample 10 (handle 3 false) sample-IsValid (omega arith)

pop_expired_correct_example : Yields (Expired sample 15) (pop_expired sample 15)
pop_expired_correct_example = pop_expired_correct sample 15 sample-IsValid

next_deadline_correct_example :
    Yields (λ r. Dropped sample r.1 × (r.0 ≡ peek_deadline r.1)) (next_deadline sample)
next_deadline_correct_example = next_deadline_correct sample sample-IsValid

compact_correct_example : Yields (Compacted sample) (compact sample)
compact_correct_example = compact_correct sample sample-IsValid

note_cancelled_correct_example : Yields (Noted sample 1) (note_cancelled sample 1)
note_cancelled_correct_example = note_cancelled_correct sample 1 sample-IsValid (omega arith)
