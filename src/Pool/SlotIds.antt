-- ===== src/Pool/SlotIds.antt =====
-- The ids of the slots of crates/core/src/buffers.rs, compared field by field.
use cadeloop.Prelude.{ℕ, ◌≡◌, refl, ◌∙◌, ap, true, arith}
use cadeloop.Pool.{SizeClass, s4k, s16k, s64k, SlotId}
use cadeloop.Pool.References.{same_slot, same_class}

same_class_refl : (c : SizeClass) → same_class c c ≡ true
same_class_refl s4k = refl
same_class_refl s16k = refl
same_class_refl s64k = refl

pub same_slot_refl : (id : SlotId) → same_slot id id ≡ true
same_slot_refl id = let e = same_class_refl id.class in ground arith

class_equal : (c d : SizeClass) → same_class c d ≡ true → c ≡ d
class_equal s4k s4k h = refl
class_equal s16k s16k h = refl
class_equal s64k s64k h = refl
class_equal s4k s16k h = cc
class_equal s4k s64k h = cc
class_equal s16k s4k h = cc
class_equal s16k s64k h = cc
class_equal s64k s4k h = cc
class_equal s64k s16k h = cc

abbrev slot : SizeClass → ℕ → ℕ → SlotId
slot c i g = record { class = c; index = i; generation = g }

slot_of : {c d : SizeClass} {i j g k : ℕ} → c ≡ d → i ≡ j → g ≡ k → slot c i g ≡ slot d j k
slot_of {c} {d} {i} {j} {g} {k} p q r =
    ap (λ x. slot x i g) p ∙ ap (λ x. slot d x g) q ∙ ap (λ x. slot d j x) r

pub slot_equal : (a b : SlotId) → same_slot a b ≡ true → a ≡ b
slot_equal a b h =
    let e = class_equal a.class b.class (ground arith) in
    let i : a.index ≡ b.index = ground arith in
    let g : a.generation ≡ b.generation = ground arith in slot_of e i g
