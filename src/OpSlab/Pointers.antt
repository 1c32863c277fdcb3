-- ===== src/OpSlab/Pointers.antt =====
-- The pointer screen of crates/core/src/opslab.rs (`contains_data_ptr`). The layout of a slot, its
-- size and the offset of its `data` field, is the compiler's: parameters.
use native.Mathlib.Nat.{div-lt_iff_lt-mul, div-add-mod', mul-add-mod_self_right, mod-eq_of_lt}
use cadeloop.Prelude.{
  ℕ, zero, suc, ◌+◌, ◌-◌, ◌*◌, ◌/◌, ◌%◌, ◌≤◌, ◌<◌, ◌≡◌, refl, Bool, true, false, Option, none, some,
  List, [], ◌∷◌, arith, ◌⊎◌, inl, inr, get_elem?, ◌==◌, ltb, leb, if◌then◌else◌, Bool-cases,
  Option-cases, ◌↔◌, ap, ◌∙◌, subst,
}
use cadeloop.OpSlab.{OpSlab, partition_point, insert_at, chunk_size, grow}

-- `at.checked_sub(1).and_then(|i| l.get(i))`
pub before : ℕ → List (ℕ × ℕ) → Option (ℕ × ℕ)
before zero l = none
before (suc i) l = get_elem? l i

module _ (stride data_off : ℕ) where
  -- Within the chunk at `base`, and exactly on the `data` field of a slot.
  hit : ℕ → ℕ → Bool
  hit base ptr =
      if leb (stride * chunk_size) (ptr - base) then false else (ptr - base) % stride == data_off

  judge : Option (ℕ × ℕ) → ℕ → Bool
  unfolding hit
  judge none ptr = false
  judge (some (base, ci)) ptr = hit base ptr

  -- The last chunk at or below `ptr` is the only candidate.
  pub screen : List (ℕ × ℕ) → ℕ → Bool
  unfolding partition_point before judge
  screen by_addr ptr =
      if stride == 0
      then false
      else judge (before (partition_point (λ base. leb base ptr) by_addr) by_addr) ptr

  pub contains_data_ptr {ℓ} : {D : Type ℓ} → OpSlab D → ℕ → Bool
  unfolding screen
  contains_data_ptr s ptr = screen s.by_addr ptr

  -- `ptr` is the `data` field of slot `k` of the chunk at `base`.
  abbrev pub IsDataOf : ℕ → ℕ → Type 0
  IsDataOf base ptr = (k : ℕ) × (k < chunk_size) × (ptr ≡ base + k * stride + data_off)

  abbrev pub Owns : List (ℕ × ℕ) → ℕ → Type 0
  Owns [] ptr = ⊥
  Owns ((base, ci) ∷ l) ptr = IsDataOf base ptr ⊎ Owns l ptr

  -- No chunk of the list starts before `low`.
  abbrev pub StartsAt : ℕ → List (ℕ × ℕ) → Type 0
  StartsAt low [] = Unit
  StartsAt low ((base, ci) ∷ l) = (low ≤ base) × StartsAt low l

  -- In the order of their addresses, and without overlap.
  abbrev pub IsSpaced : List (ℕ × ℕ) → Type 0
  IsSpaced [] = Unit
  IsSpaced ((base, ci) ∷ l) = StartsAt (base + stride * chunk_size) l × IsSpaced l

  -- The recursion that `screen`'s search amounts to.
  candidate : ℕ → List (ℕ × ℕ) → Option (ℕ × ℕ)
  candidate ptr [] = none
  candidate ptr ((base, ci) ∷ l) =
      if leb base ptr
      then (elim (candidate ptr l) [ none ↦ some (base, ci) | some x ↦ some x ])
      else none

  candidate_nil : (ptr : ℕ) → candidate ptr [] ≡ none
  unfolding candidate
  candidate_nil ptr = refl

  before-candidate :
      (ptr : ℕ) (l : List (ℕ × ℕ))
      → before (partition_point (λ base. leb base ptr) l) l ≡ candidate ptr l
  unfolding before partition_point candidate
  before-candidate ptr [] = refl
  before-candidate ptr ((base, ci) ∷ []) = ground arith
  before-candidate ptr ((base, ci) ∷ (b, c) ∷ l) = ground (arith, before-candidate ptr ((b, c) ∷ l))

  candidate_below :
      (ptr : ℕ) (l : List (ℕ × ℕ)) (low : ℕ) → StartsAt low l → ptr < low → candidate ptr l ≡ none
  unfolding candidate
  candidate_below ptr [] low h lt = refl
  candidate_below ptr ((base, ci) ∷ l) low h lt = ground arith

  Owns-from : (ptr : ℕ) (l : List (ℕ × ℕ)) (low : ℕ) → StartsAt low l → Owns l ptr → low ≤ ptr
  Owns-from ptr [] low h o = elim o [ ]
  Owns-from ptr ((base, ci) ∷ l) low h (inl (k, lt, e)) = ground arith
  Owns-from ptr ((base, ci) ∷ l) low h (inr o) = Owns-from ptr l low h.1 o

  last_slot :
      (k : ℕ) → k < chunk_size → data_off < stride → k * stride + data_off < stride * chunk_size
  last_slot k lt off = grind arith

  hit_iff :
      (base ptr : ℕ) → data_off < stride → base ≤ ptr → (hit base ptr ≡ true) ↔ IsDataOf base ptr
  unfolding hit
  hit_iff base ptr off le = (
    λ h. (
      (ptr - base) / stride,
      (div-lt_iff_lt-mul (omega arith)).1 (ground arith),
      ground (arith, div-add-mod' (ptr - base) stride),
    ),
    λ (k, lt, e).
        let offset : ptr - base ≡ k * stride + data_off = omega arith in
        let rest : (k * stride + data_off) % stride ≡ data_off =
          mul-add-mod_self_right k stride data_off ∙ mod-eq_of_lt off in
        ground (arith, last_slot k lt off, ap (λ (x : ℕ). x % stride) offset, rest),
  )

  StartsAt-weaken :
      (low base : ℕ) (l : List (ℕ × ℕ)) → low ≤ base → StartsAt base l → StartsAt low l
  StartsAt-weaken low base [] le h = h
  StartsAt-weaken low base ((b, c) ∷ l) le h = (omega arith, StartsAt-weaken low base l le h.1)

  candidate_here :
      (ptr base ci : ℕ) (l : List (ℕ × ℕ))
      → leb base ptr ≡ true
      → candidate ptr l ≡ none
      → candidate ptr ((base, ci) ∷ l) ≡ some (base, ci)
  unfolding candidate
  candidate_here ptr base ci l below e = ground arith

  candidate_later :
      (ptr base ci : ℕ) (l : List (ℕ × ℕ)) (x : ℕ × ℕ)
      → leb base ptr ≡ true
      → candidate ptr l ≡ some x
      → candidate ptr ((base, ci) ∷ l) ≡ some x
  unfolding candidate
  candidate_later ptr base ci l x below e = ground arith

  judge_iff :
      (ptr : ℕ) (l : List (ℕ × ℕ))
      → data_off < stride
      → IsSpaced l
      → (judge (candidate ptr l) ptr ≡ true) ↔ Owns l ptr
  unfolding judge
  judge_iff ptr [] off h = (λ e. absurd (no_candidate e), λ o. absurd o)
    where
      no_candidate : judge (candidate ptr []) ptr ≡ true → ⊥
      no_candidate e = cc (candidate_nil ptr)
  judge_iff ptr ((base, ci) ∷ l) off (h, hs) =
      let ih = judge_iff ptr l off hs in
      elim (Bool-cases (leb base ptr)) [
        | inr above ↦
            let e =
              candidate_below ptr ((base, ci) ∷ l) base
                (omega arith, StartsAt-weaken base _ l (omega arith) h) (ground arith) in
            rw e (
              λ e. cc,
              λ o. absurd (
                  ground (
                    arith,
                    Owns-from ptr ((base, ci) ∷ l) base
                        (omega arith, StartsAt-weaken base _ l (omega arith) h) o,
                  )),
            )
        | inl below ↦ elim (Option-cases (candidate ptr l)) [
          | inl e ↦ rw (candidate_here ptr base ci l below e) (
            λ q. inl ((hit_iff base ptr off (ground arith)).0 q),
            elim [
              | inl d ↦ (hit_iff base ptr off (ground arith)).1 d
              | inr o ↦ absurd (not_judged e (ih.1 o))
            ],
          )
          | inr (x, e) ↦
              let ih' = subst (λ c. (judge c ptr ≡ true) ↔ Owns l ptr) e ih in
              rw (candidate_later ptr base ci l x below e) (
                λ q. inr (ih'.0 q),
                elim [
                  | inl (k, lt, at) ↦ absurd (
                      ground (
                        arith,
                        last_slot k lt off,
                        candidate_below ptr l (base + stride * chunk_size) h,
                      ))
                  | inr o ↦ ih'.1 o
                ],
              )
        ]
      ]
    where
      not_judged : candidate ptr l ≡ none → judge (candidate ptr l) ptr ≡ true → ⊥
      not_judged e q = ground arith

  -- For chunks in the order of their addresses that do not overlap, and a `data` field inside its slot,
  -- the screen accepts a pointer exactly when it is the `data` field of a slot of one of the chunks.
  pub screen_iff :
      (by_addr : List (ℕ × ℕ)) (ptr : ℕ)
      → data_off < stride
      → IsSpaced by_addr
      → (screen by_addr ptr ≡ true) ↔ Owns by_addr ptr
  unfolding screen
  screen_iff by_addr ptr off h =
      let positive : (stride == 0) ≡ false = ground arith in
      rw (positive, before-candidate ptr by_addr) (judge_iff ptr by_addr off h)

  -- Where the allocator puts a chunk, clear of those that are there.
  abbrev pub IsClear : ℕ → List (ℕ × ℕ) → Type 0
  IsClear addr [] = Unit
  IsClear addr ((base, ci) ∷ l) =
      ((base + stride * chunk_size ≤ addr) ⊎ (addr + stride * chunk_size ≤ base)) × IsClear addr l

  StartsAt-insert :
      (low addr n : ℕ) (l : List (ℕ × ℕ))
      → low ≤ addr
      → StartsAt low l
      → StartsAt low (insert_at (partition_point (λ a. ltb a addr) l) (addr, n) l)
  unfolding insert_at partition_point
  StartsAt-insert low addr n [] le s = (le, s)
  StartsAt-insert low addr n ((base, ci) ∷ l) le s = elim (Bool-cases (ltb base addr)) [
    | inl q ↦ rw (q, insert_at) (s.0, StartsAt-insert low addr n l le s.1)
    | inr q ↦ rw (q, insert_at) (le, s)
  ]

  IsSpaced-insert :
      (addr n : ℕ) (l : List (ℕ × ℕ))
      → 0 < stride
      → IsSpaced l
      → IsClear addr l
      → IsSpaced (insert_at (partition_point (λ a. ltb a addr) l) (addr, n) l)
  unfolding insert_at partition_point
  IsSpaced-insert addr n [] pos sp c = (tt, tt)
  IsSpaced-insert addr n ((base, ci) ∷ l) pos sp c = elim (Bool-cases (ltb base addr)) [
    | inl q ↦
        rw (q, insert_at)
          (
            StartsAt-insert (base + stride * chunk_size) addr n l (ground arith) sp.0,
            IsSpaced-insert addr n l pos sp.1 c.1,
          )
    | inr q ↦
        rw (q, insert_at)
          ((ground arith, StartsAt-weaken _ (base + stride * chunk_size) l (ground arith) sp.0), sp)
  ]

  -- A chunk put clear of the others keeps them in order and apart, so the screen stays exact as the
  -- slab grows.
  grow-IsSpaced {ℓ} :
      {D : Type ℓ} (addr : ℕ) (s : OpSlab D)
      → 0 < stride
      → IsSpaced s.by_addr
      → IsClear addr s.by_addr
      → IsSpaced (grow addr s).by_addr
  unfolding grow
  grow-IsSpaced addr s pos sp c = IsSpaced-insert addr _ s.by_addr pos sp c
