-- ===== src/Inbox/Bytes.antt =====
-- The bytes that events and held receives of crates/pyshim/src/net.rs stand for.
use cadeloop.Prelude.{
  ℕ, ◌≡◌, refl, sym, ◌∙◌, ap, Bool, true, false, ◌||◌, ◌&&◌, arith, Option, none, some, List, [],
  ◌∷◌, ◌++◌, map, append_assoc, append-nil,
}
use cadeloop.Inbox.{
  Signal, byte, ended, InboundEvent, plain_data, held_data, buf_data, eof, recv_failed, held_bytes,
  held_events, signals,
}

abbrev pub waiting : List InboundEvent → List Signal
waiting [] = []
waiting (plain_data bytes ∷ l) = map byte bytes ++ waiting l
waiting (held_data bytes ∷ l) = map byte bytes ++ waiting l
waiting (buf_data bytes ∷ l) = map byte bytes ++ waiting l
waiting (eof ∷ l) = ended ∷ waiting l
waiting (recv_failed _ ∷ l) = waiting l

abbrev pub has_failed : List InboundEvent → Bool
has_failed [] = false
has_failed (recv_failed _ ∷ l) = true
has_failed (plain_data _ ∷ l) = has_failed l
has_failed (held_data _ ∷ l) = has_failed l
has_failed (buf_data _ ∷ l) = has_failed l
has_failed (eof ∷ l) = has_failed l

abbrev pub has_ended : List Signal → Bool
has_ended [] = false
has_ended (byte _ ∷ l) = has_ended l
has_ended (ended ∷ l) = true

-- Behind an EOF comes nothing but the EOF again.
abbrev pub all_ended : List Signal → Bool
all_ended [] = true
all_ended (byte _ ∷ l) = false
all_ended (ended ∷ l) = all_ended l

abbrev pub ends_last : List Signal → Bool
ends_last [] = true
ends_last (byte _ ∷ l) = ends_last l
ends_last (ended ∷ l) = all_ended l

-- The bytes up to the first EOF, and that EOF.
abbrev pub to_end : List Signal → List Signal
to_end [] = []
to_end (byte b ∷ l) = byte b ∷ to_end l
to_end (ended ∷ l) = ended ∷ []

abbrev pub ended_if : Bool → List Signal
ended_if true = ended ∷ []
ended_if false = []

abbrev pub held_signals : Option (List ℕ) → Bool → List Signal
held_signals o b = map byte (held_bytes o) ++ ended_if b

behind_bytes :
    (bytes : List ℕ) {xs : List Signal} (ys zs : List Signal)
    → xs ≡ ys ++ zs
    → map byte bytes ++ xs ≡ (map byte bytes ++ ys) ++ zs
behind_bytes bytes ys zs e =
    ap (λ k. map byte bytes ++ k) e ∙ sym (append_assoc (map byte bytes) ys zs)

pub waiting-append : (xs ys : List InboundEvent) → waiting (xs ++ ys) ≡ waiting xs ++ waiting ys
waiting-append [] ys = refl
waiting-append (plain_data d ∷ l) ys = behind_bytes d (waiting l) (waiting ys) (waiting-append l ys)
waiting-append (held_data d ∷ l) ys = behind_bytes d (waiting l) (waiting ys) (waiting-append l ys)
waiting-append (buf_data d ∷ l) ys = behind_bytes d (waiting l) (waiting ys) (waiting-append l ys)
waiting-append (eof ∷ l) ys = ap (λ k. ended ∷ k) (waiting-append l ys)
waiting-append (recv_failed _ ∷ l) ys = waiting-append l ys

pub has_failed-append :
    (xs : List InboundEvent) (code : ℕ) → has_failed (xs ++ recv_failed code ∷ []) ≡ true
has_failed-append [] code = refl
has_failed-append (plain_data _ ∷ l) code = has_failed-append l code
has_failed-append (held_data _ ∷ l) code = has_failed-append l code
has_failed-append (buf_data _ ∷ l) code = has_failed-append l code
has_failed-append (eof ∷ l) code = has_failed-append l code
has_failed-append (recv_failed _ ∷ l) code = refl

pub waiting-held_events :
    (o : Option (List ℕ)) (b : Bool) → waiting (held_events o b) ≡ held_signals o b
waiting-held_events none false = refl
waiting-held_events none true = refl
waiting-held_events (some held) false = refl
waiting-held_events (some held) true = refl

pub has_ended-append : (xs ys : List Signal) → has_ended (xs ++ ys) ≡ has_ended xs || has_ended ys
has_ended-append [] ys = refl
has_ended-append (byte _ ∷ l) ys = has_ended-append l ys
has_ended-append (ended ∷ l) ys = refl

to_end-append : (xs ys : List Signal) → to_end (xs ++ ys) ≡ to_end (to_end xs ++ ys)
to_end-append [] ys = refl
to_end-append (byte b ∷ l) ys = ap (λ k. byte b ∷ k) (to_end-append l ys)
to_end-append (ended ∷ l) ys = refl

pub to_end-more :
    (xs ys more : List Signal) → to_end xs ≡ to_end ys → to_end (xs ++ more) ≡ to_end (ys ++ more)
to_end-more xs ys more h =
    to_end-append xs more ∙ ap (λ k. to_end (k ++ more)) h ∙ sym (to_end-append ys more)

pub to_end-behind : (xs ys zs : List Signal) → to_end (xs ++ ended ∷ ys) ≡ to_end (xs ++ ended ∷ zs)
to_end-behind [] ys zs = refl
to_end-behind (byte b ∷ l) ys zs = ap (λ k. byte b ∷ k) (to_end-behind l ys zs)
to_end-behind (ended ∷ l) ys zs = refl

to_end-has_ended : (xs : List Signal) → has_ended (to_end xs) ≡ has_ended xs
to_end-has_ended [] = refl
to_end-has_ended (byte _ ∷ l) = to_end-has_ended l
to_end-has_ended (ended ∷ l) = refl

pub same-has_ended : (xs ys : List Signal) → to_end xs ≡ to_end ys → has_ended xs ≡ has_ended ys
same-has_ended xs ys h = sym (to_end-has_ended xs) ∙ ap has_ended h ∙ to_end-has_ended ys

all_ended-append : (xs ys : List Signal) → all_ended (xs ++ ys) ≡ all_ended xs && all_ended ys
all_ended-append [] ys = refl
all_ended-append (byte _ ∷ l) ys = refl
all_ended-append (ended ∷ l) ys = all_ended-append l ys

-- What stands behind an EOF.
pub behind_ended : (xs ys : List Signal) → ends_last (xs ++ ended ∷ ys) ≡ true → all_ended ys ≡ true
behind_ended [] ys h = h
behind_ended (byte _ ∷ l) ys h = behind_ended l ys h
behind_ended (ended ∷ l) ys h = ground (arith, all_ended-append l (ended ∷ ys))

-- An EOF that comes twice is one.
pub ended_twice :
    (xs ys : List Signal) → ends_last (xs ++ ended ∷ ended ∷ ys) ≡ ends_last (xs ++ ended ∷ ys)
ended_twice [] ys = refl
ended_twice (byte _ ∷ l) ys = ended_twice l ys
ended_twice (ended ∷ l) ys =
    all_ended-append l (ended ∷ ended ∷ ys) ∙ sym (all_ended-append l (ended ∷ ys))

pub ends_last-front : (xs ys : List Signal) → ends_last (xs ++ ys) ≡ true → ends_last xs ≡ true
ends_last-front [] ys h = refl
ends_last-front (byte _ ∷ l) ys h = ends_last-front l ys h
ends_last-front (ended ∷ l) ys h = ground (arith, all_ended-append l ys)

bytes-ends_last : (bytes : List ℕ) → ends_last (map byte bytes) ≡ true
bytes-ends_last [] = refl
bytes-ends_last (b ∷ l) = bytes-ends_last l

signals-ends_last : (bytes : List ℕ) → ends_last (signals bytes) ≡ true
signals-ends_last [] = refl
signals-ends_last (b ∷ l) = bytes-ends_last l

-- What arrives keeps this, if it is no byte behind an EOF.
pub ends_last-append :
    (xs : List Signal) (bytes : List ℕ)
    → ends_last xs ≡ true
    → (has_ended xs ≡ true → bytes ≡ [])
    → ends_last (xs ++ signals bytes) ≡ true
ends_last-append [] bytes h n = signals-ends_last bytes
ends_last-append (byte _ ∷ l) bytes h n = ends_last-append l bytes h n
ends_last-append (ended ∷ l) bytes h n =
    ap (λ k. all_ended (l ++ signals k)) (n refl) ∙ ground (arith, all_ended-append l (ended ∷ []))

map-append : (xs ys : List ℕ) → map byte (xs ++ ys) ≡ map byte xs ++ map byte ys
map-append [] ys = refl
map-append (x ∷ l) ys = ap (λ k. byte x ∷ k) (map-append l ys)

-- Bytes are held behind those that are held already, and no EOF.
pub hold-bytes :
    (o : Option (List ℕ)) (bytes : List ℕ)
    → held_signals (some (held_bytes o ++ bytes)) false ≡ held_signals o false ++ map byte bytes
hold-bytes o bytes =
    append-nil _
    ∙ map-append (held_bytes o) bytes
    ∙ ap (λ k. k ++ map byte bytes) (sym (append-nil (map byte (held_bytes o))))

pub hold-ended : (o : Option (List ℕ)) → held_signals o true ≡ held_signals o false ++ ended ∷ []
hold-ended o = ap (λ k. k ++ ended ∷ []) (sym (append-nil (map byte (held_bytes o))))
