-- ===== src/Timer.antt =====
-- The timer heap (crates/core/src/timer.rs): a 4-ary min-heap on (deadline, sequence number), with
-- cancelled entries left in place as tombstones. `none` is a panic, or fuel that ran out; the theorems
-- show that neither happens while sequence numbers stay under 2^64: one is spent per timer.
pub mod Array
pub mod Order
pub mod Sift
pub mod Heap
mod Tests
use cadeloop.Prelude.{
  ℕ, zero, suc, ◌+◌, ◌-◌, ◌*◌, ◌/◌, Bool, true, false, ◌&&◌, ◌||◌, Option, none, some, List, [],
  ◌∷◌, ◌++◌, length, get_elem?, set, take, drop, min, map, ◌==◌, ltb, leb, if◌then◌else◌, ◌≡◌,
}
use cadeloop.Prelude.Partial.{◌>>=◌}
use Array.{swap}

-- What the heap asks of a payload. `mark_unscheduled` writes to the payload, which comes back marked.
pub record TimerPayload {ℓ} (T : Type ℓ) : Type ℓ where
  pub is_cancelled : T → Bool
  pub mark_unscheduled : T → T
  pub cancelled_marked : (t : T) → is_cancelled (mark_unscheduled t) ≡ is_cancelled t

pub record Entry {ℓ} (T : Type ℓ) : Type ℓ where
  pub deadline : ℕ
  pub seq : ℕ
  pub payload : T

abbrev pub arity : ℕ
arity = 4

abbrev pub parent : ℕ → ℕ
parent i = (i - 1) / arity

module _ {ℓ} {T : Type ℓ} where
  -- `self.entries[a].key() < self.entries[b].key()`, the tuples compared lexicographically.
  key_lt : Entry T → Entry T → Bool
  key_lt x y = ltb x.deadline y.deadline || (x.deadline == y.deadline && ltb x.seq y.seq)

  pub less : List (Entry T) → ℕ → ℕ → Option Bool
  unfolding key_lt
  less a i j = do x ← get_elem? a i; y ← get_elem? a j; some (key_lt x y)

  pub sift_up_loop : ℕ → List (Entry T) → ℕ → Option (List (Entry T))
  sift_up_loop zero a i = none
  sift_up_loop (suc fuel) a i =
      let rise = swap a i (parent i) >>= λ b. sift_up_loop fuel b (parent i) in
      let step = less a i (parent i) >>= λ below. if below then rise else some a in
      if ltb 0 i then step else some a

  -- Every round moves to a smaller index.
  unfoldable pub sift_up : List (Entry T) → ℕ → Option (List (Entry T))
  unfolding sift_up_loop less swap
  sift_up a i = sift_up_loop (i + 1) a i

  -- `for c in first_child..last_child`, with the rounds left.
  pub min_scan : List (Entry T) → ℕ → ℕ → ℕ → Option ℕ
  min_scan a zero c m = some m
  min_scan a (suc n) c m = do below ← less a c m; min_scan a n (suc c) (if below then c else m)

  pub sift_down_loop : ℕ → List (Entry T) → ℕ → Option (List (Entry T))
  sift_down_loop zero a i = none
  sift_down_loop (suc fuel) a i =
      let first_child = i * arity + 1 in
      let last_child = min (first_child + arity) (length a) in
      let step : Option (List (Entry T)) = do
        m ← min_scan a (last_child - first_child) first_child i
        let sink = swap a i m >>= λ b. sift_down_loop fuel b m
        if m == i then some a else sink
      in if leb (length a) first_child then some a else step

  -- Every round moves to a larger index.
  unfoldable pub sift_down : List (Entry T) → ℕ → Option (List (Entry T))
  unfolding sift_down_loop min_scan less swap
  sift_down a i = sift_down_loop (length a + 1) a i
