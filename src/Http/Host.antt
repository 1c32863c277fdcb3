-- ===== src/Http/Host.antt =====
-- The check of the `Host` field at the end of the head, and the trailers behind it (crates/core/src/http.rs).
use cadeloop.Prelude.{
  ℕ, ◌+◌, ◌≡◌, refl, ap, ◌∙◌, Bool, true, false, ◌&&◌, not, List, [], ◌∷◌, length, ltb, leb, ◌==◌,
  if◌then◌else◌, arith,
}
use cadeloop.Http.{
  Acc, fail, Callback, url, header_field, header_value, body, headers_complete, message_begin,
  message_complete, commit_header, on_header_field, on_header_value, on_headers_complete, on_body,
  over_cap, call, run, Verdict, next, halt, and_then, Refusal, count_hosts, declares_too_much,
  declared_content_length, expects_continue,
}

-- The callbacks between the end of the head and the end of the message: the body, and the trailers.
pub data IsTail : List Callback → Type 0 where
  done : IsTail []
  then_body : (at : List ℕ) → {l : List Callback} → IsTail l → IsTail (body at ∷ l)
  then_field : (at : List ℕ) → {l : List Callback} → IsTail l → IsTail (header_field at ∷ l)
  then_value : (at : List ℕ) → {l : List Callback} → IsTail l → IsTail (header_value at ∷ l)

-- The parse stopped, or the head is closed and, from HTTP/1.1 on, has one `Host`.
pub data OneHost (minor : ℕ) : Verdict → Type 0 where
  goes_on :
      {a : Acc}
      → a.in_head ≡ false
      → (leb 1 minor ≡ true → count_hosts a.headers ≡ 1)
      → OneHost minor (next a)
  stops : {a : Acc} → OneHost minor (halt a)

either-OneHost :
    {minor : ℕ} (t : Bool) {x y : Verdict}
    → (t ≡ true → OneHost minor x)
    → (t ≡ false → OneHost minor y)
    → OneHost minor (if t then x else y)
either-OneHost true p q = p refl
either-OneHost false p q = q refl

fail-OneHost :
    {minor : ℕ} (a : Acc) (status : ℕ) (reason : Refusal) → OneHost minor (fail a status reason)
unfolding fail
fail-OneHost a status reason = stops

on_headers_complete-OneHost : (a : Acc) (minor : ℕ) → OneHost minor (on_headers_complete a minor)
unfolding on_headers_complete
on_headers_complete-OneHost a minor =
    let c = record (commit_header a) { in_head = false } in
    either-OneHost (leb 1 minor && not (count_hosts c.headers == 1)) (λ t. fail-OneHost _ _ _)
      (λ t.
        either-OneHost (declares_too_much c.limits.max_body (declared_content_length c))
          (λ u. fail-OneHost _ _ _)
          (λ u.
            either-OneHost (leb 1 minor && expects_continue c)
              (λ w. goes_on refl (λ v. ground arith)) (λ w. goes_on refl (λ v. ground arith))))

commit_header-in_head : (a : Acc) → (commit_header a).in_head ≡ a.in_head
unfolding commit_header
commit_header-in_head a = ground arith

-- A trailer does not come among the headers.
commit_header-headers : (a : Acc) → a.in_head ≡ false → (commit_header a).headers ≡ a.headers
unfolding commit_header
commit_header-headers a e = ground arith

on_header_field-OneHost :
    {minor : ℕ} (a : Acc) (at : List ℕ)
    → a.in_head ≡ false
    → (leb 1 minor ≡ true → count_hosts a.headers ≡ 1)
    → OneHost minor (on_header_field a at)
unfolding on_header_field
on_header_field-OneHost a at e p =
    let c = commit_header a in
    either-OneHost (ltb c.limits.max_header_bytes (c.header_bytes + length at))
      (λ t. fail-OneHost _ _ _)
      (λ t.
        either-OneHost (leb c.limits.max_headers (length c.headers)) (λ u. fail-OneHost _ _ _)
          (λ u.
            goes_on (commit_header-in_head a ∙ e)
              (λ v. ap count_hosts (commit_header-headers a e) ∙ p v)))

on_header_value-OneHost :
    {minor : ℕ} (a : Acc) (at : List ℕ)
    → a.in_head ≡ false
    → (leb 1 minor ≡ true → count_hosts a.headers ≡ 1)
    → OneHost minor (on_header_value a at)
unfolding on_header_value
on_header_value-OneHost a at e p =
    either-OneHost (ltb a.limits.max_header_bytes (a.header_bytes + length at))
      (λ t. fail-OneHost _ _ _) (λ t. goes_on e p)

on_body-OneHost :
    {minor : ℕ} (a : Acc) (at : List ℕ)
    → a.in_head ≡ false
    → (leb 1 minor ≡ true → count_hosts a.headers ≡ 1)
    → OneHost minor (on_body a at)
unfolding on_body
on_body-OneHost a at e p =
    either-OneHost (over_cap a.limits.max_body (length a.body + length at))
      (λ t. fail-OneHost _ _ _) (λ t. goes_on e p)

and_then-OneHost :
    {minor : ℕ} (o : Verdict) (k : Acc → Verdict)
    → OneHost minor o
    → ((a : Acc)
        → a.in_head ≡ false
        → (leb 1 minor ≡ true → count_hosts a.headers ≡ 1)
        → OneHost minor (k a))
    → OneHost minor (and_then o k)
and_then-OneHost (next a) k (goes_on e p) f = f a e p
and_then-OneHost (halt a) k stops f = stops

run-OneHost :
    {minor : ℕ} (a : Acc) (l : List Callback)
    → a.in_head ≡ false
    → (leb 1 minor ≡ true → count_hosts a.headers ≡ 1)
    → IsTail l
    → OneHost minor (run a l)
unfolding run call
run-OneHost a [] e p done = goes_on e p
run-OneHost a (message_begin ∷ l) e p r = elim r [ ]
run-OneHost a (url at ∷ l) e p r = elim r [ ]
run-OneHost a (headers_complete minor ∷ l) e p r = elim r [ ]
run-OneHost a (message_complete m ∷ l) e p r = elim r [ ]
run-OneHost a (body at ∷ l) e p (then_body _ r) =
    and_then-OneHost (on_body a at) (λ b. run b l) (on_body-OneHost a at e p)
      (λ b e' p'. run-OneHost b l e' p' r)
run-OneHost a (header_field at ∷ l) e p (then_field _ r) =
    and_then-OneHost (on_header_field a at) (λ b. run b l) (on_header_field-OneHost a at e p)
      (λ b e' p'. run-OneHost b l e' p' r)
run-OneHost a (header_value at ∷ l) e p (then_value _ r) =
    and_then-OneHost (on_header_value a at) (λ b. run b l) (on_header_value-OneHost a at e p)
      (λ b e' p'. run-OneHost b l e' p' r)

-- From HTTP/1.1 on, a parse that went through the end of the head, in any state of the accumulator, and then
-- through any callbacks for the body and the trailers either was stopped or has exactly one `Host` among its
-- headers: a trailer cannot add one, and the head stays closed.
pub headers_complete-OneHost :
    (a : Acc) (minor : ℕ) (l : List Callback)
    → IsTail l
    → OneHost minor (run a (headers_complete minor ∷ l))
unfolding run call
headers_complete-OneHost a minor l r =
    and_then-OneHost (on_headers_complete a minor) (λ b. run b l)
      (on_headers_complete-OneHost a minor) (λ b e p. run-OneHost b l e p r)
