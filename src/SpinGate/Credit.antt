-- ===== src/SpinGate/Credit.antt =====
-- What the credit of crates/core/src/spin_gate.rs buys: how many parks spin, and when the gate shuts.
use cadeloop.Prelude.{
  ℕ, suc, ◌+◌, ◌*◌, ◌<◌, ◌≤◌, ◌≡◌, refl, min, ◌⊎◌, inl, inr, true, List, [], ◌∷◌, arith, length,
  if◌then◌else◌,
}
use cadeloop.SpinGate.{
  SpinGate, new, max_credit, probe_every, Outcome, caught, missed, unrecorded, park,
}

-- What `new` sets up and every call keeps.
pub record IsValid (g : SpinGate) : Type 0 where
  pub capped : g.credit ≤ max_credit
  pub probing : g.since_probe < probe_every

pub IsValid-new : IsValid new
IsValid-new = record { capped = omega arith; probing = omega arith }

pub park-IsValid : (g : SpinGate) (o : Outcome) → IsValid g → IsValid (park g o).0
unfolding park
park-IsValid g caught v = ground arith
park-IsValid g missed v = ground arith
park-IsValid g unrecorded v = ground arith

abbrev pub count_caught : List Outcome → ℕ
count_caught [] = 0
count_caught (caught ∷ l) = suc (count_caught l)
count_caught (missed ∷ l) = count_caught l
count_caught (unrecorded ∷ l) = count_caught l

abbrev pub count_missed : List Outcome → ℕ
count_missed [] = 0
count_missed (caught ∷ l) = count_missed l
count_missed (missed ∷ l) = suc (count_missed l)
count_missed (unrecorded ∷ l) = count_missed l

abbrev pub count_unrecorded : List Outcome → ℕ
count_unrecorded [] = 0
count_unrecorded (caught ∷ l) = count_unrecorded l
count_unrecorded (missed ∷ l) = count_unrecorded l
count_unrecorded (unrecorded ∷ l) = suc (count_unrecorded l)

-- The gate after parks whose spins would find `l`, and how many of the parks spun.
pub parks : SpinGate → List Outcome → SpinGate × ℕ
parks g [] = (g, 0)
parks g (o ∷ l) =
    let (g', spun) = park g o in let (g'', n) = parks g' l in (g'', if spun then suc n else n)

pub parks-IsValid : (g : SpinGate) (l : List Outcome) → IsValid g → IsValid (parks g l).0
unfolding parks
parks-IsValid g [] v = v
parks-IsValid g (o ∷ l) v = parks-IsValid (park g o).0 l (park-IsValid g o v)

-- What the gate owes in spins, in eighths.
abbrev potential : SpinGate → ℕ
potential g = probe_every * g.credit + g.since_probe

abbrev allowance : Outcome → ℕ
allowance caught = 31
allowance missed = 0
allowance unrecorded = 7

park_cost :
    (g : SpinGate) (o : Outcome)
    → IsValid g
    → (if (park g o).1 then 8 else 0) + potential (park g o).0 ≤ 1 + potential g + allowance o
unfolding park
park_cost g caught v = ground arith
park_cost g missed v = ground arith
park_cost g unrecorded v = ground arith

parks_cost :
    (g : SpinGate) (l : List Outcome)
    → IsValid g
    → probe_every * (parks g l).1 + potential (parks g l).0
      ≤ length l + potential g + 31 * count_caught l + 7 * count_unrecorded l
unfolding parks
parks_cost g [] v = omega arith
parks_cost g (caught ∷ l) v =
    ground (arith, park_cost g caught v, parks_cost (park g caught).0 l (park-IsValid g caught v))
parks_cost g (missed ∷ l) v =
    ground (arith, park_cost g missed v, parks_cost (park g missed).0 l (park-IsValid g missed v))
parks_cost g (unrecorded ∷ l) v = ground (
  arith,
  park_cost g unrecorded v,
  parks_cost (park g unrecorded).0 l (park-IsValid g unrecorded v),
)

-- Sparse traffic: from a valid gate, `n` parks of which `c` would catch work and `u` would record
-- nothing spin at most (n + 31 c + 7 u + 103) / 8 times, and the gate stays valid.
pub parks_sparse :
    (g : SpinGate) (l : List Outcome)
    → IsValid g
    → (8 * (parks g l).1 ≤ length l + 31 * count_caught l + 7 * count_unrecorded l + 103)
      × IsValid (parks g l).0
parks_sparse g l v = (omega (arith, parks_cost g l v), parks-IsValid g l v)

-- In every front of the parks, behind `h` catches and `m` misses, the misses stay below `b` and three for each
-- catch.
abbrev pub FrontsLast : ℕ → ℕ → ℕ → List Outcome → Type 0
FrontsLast b h m [] = m < b + 3 * h
FrontsLast b h m (caught ∷ l) = (m < b + 3 * h) × FrontsLast b (h + 1) m l
FrontsLast b h m (missed ∷ l) = (m < b + 3 * h) × FrontsLast b h (m + 1) l
FrontsLast b h m (unrecorded ∷ l) = (m < b + 3 * h) × FrontsLast b h m l

-- The same in every stretch of them.
abbrev pub StretchesLast : ℕ → List Outcome → Type 0
StretchesLast b [] = FrontsLast b 0 0 []
StretchesLast b (o ∷ l) = FrontsLast b 0 0 (o ∷ l) × StretchesLast b l

front_last : (b h m : ℕ) (l : List Outcome) → FrontsLast b h m l → m < b + 3 * h
front_last b h m [] f = f
front_last b h m (caught ∷ l) f = f.0
front_last b h m (missed ∷ l) f = f.0
front_last b h m (unrecorded ∷ l) f = f.0

stretch-FrontsLast : (b : ℕ) (l : List Outcome) → StretchesLast b l → FrontsLast b 0 0 l
stretch-FrontsLast b [] f = f
stretch-FrontsLast b (o ∷ l) f = f.0

park_spins : (g : SpinGate) (o : Outcome) → 0 < g.credit → (park g o).1 ≡ true
unfolding park
park_spins g caught h = ground arith
park_spins g missed h = ground arith
park_spins g unrecorded h = ground arith

caught_credit :
    (g : SpinGate)
    → IsValid g
    → 0 < g.credit
    → (park g caught).0.credit ≡ min (g.credit + 3) max_credit
unfolding park
caught_credit g v h = ground arith

missed_credit : (g : SpinGate) → 0 < g.credit → (park g missed).0.credit + 1 ≡ g.credit
unfolding park
missed_credit g h = ground arith

unrecorded_credit : (g : SpinGate) → 0 < g.credit → (park g unrecorded).0.credit ≡ g.credit
unfolding park
unrecorded_credit g h = ground arith

dense_from :
    (g : SpinGate) (l : List Outcome) (b h m : ℕ)
    → IsValid g
    → b ≤ max_credit
    → b + 3 * h ≤ g.credit + m
    → FrontsLast b h m l
    → StretchesLast b l
    → (parks g l).1 ≡ length l
unfolding parks
dense_from g [] b h m v top at f s = refl
dense_from g (missed ∷ l) b h m v top at f s =
    let c : 0 < g.credit = omega (arith, f.0) in
    let rest =
      dense_from (park g missed).0 l b h (m + 1) (park-IsValid g missed v) top
        (omega (arith, missed_credit g c)) f.1 s.1 in
    ground (arith, park_spins g missed c, rest)
dense_from g (unrecorded ∷ l) b h m v top at f s =
    let c : 0 < g.credit = omega (arith, f.0) in
    let rest =
      dense_from (park g unrecorded).0 l b h m (park-IsValid g unrecorded v) top
        (omega (arith, unrecorded_credit g c)) f.1 s.1 in
    ground (arith, park_spins g unrecorded c, rest)
dense_from g (caught ∷ l) b h m v top at f s =
    let c : 0 < g.credit = omega (arith, f.0) in
    let g' = (park g caught).0 in
    let v' = park-IsValid g caught v in
    let k = caught_credit g v c in
    let rest : (parks g' l).1 ≡ length l = elim (le_or_lt (g.credit + 3) max_credit) [
      | inl few ↦ dense_from g' l b (h + 1) m v' top (omega (arith, k)) f.1 s.1
      | inr full ↦ dense_from g' l b 0 0 v' top (omega (arith, k)) (stretch-FrontsLast b l s.1) s.1
    ] in
    ground (arith, park_spins g caught c, rest)
  where
    le_or_lt : (x y : ℕ) → (x ≤ y) ⊎ (y < x)
    le_or_lt x y = omega arith

-- Dense traffic: from a valid gate, every park spins if in every stretch of the parks the misses stay below the
-- credit it starts with and three for each catch, however long the traffic goes on.
pub parks_dense :
    (g : SpinGate) (l : List Outcome)
    → IsValid g
    → StretchesLast g.credit l
    → (parks g l).1 ≡ length l
parks_dense g l v s =
    dense_from g l g.credit 0 0 v v.capped (omega arith) (stretch-FrontsLast g.credit l s) s

park_waits :
    (g : SpinGate) (o : Outcome)
    → IsValid g
    → ((park g o).1 ≡ true) ⊎ ((park g o).0.since_probe ≡ g.since_probe + 1)
unfolding park
park_waits g caught v = ground arith
park_waits g missed v = ground arith
park_waits g unrecorded v = ground arith

-- From a valid gate, any run of parks that makes up `probe_every` with those since the last probe
-- has one that spins, so traffic that turns dense is noticed.
pub parks_probe :
    (g : SpinGate) (l : List Outcome)
    → IsValid g
    → probe_every ≤ length l + g.since_probe
    → 1 ≤ (parks g l).1
unfolding parks
parks_probe g [] v h = absurd (omega arith)
parks_probe g (o ∷ l) v h = elim (park_waits g o v) [
  | inl spun ↦ ground arith
  | inr waited ↦ ground (arith, parks_probe (park g o).0 l (park-IsValid g o v))
]
