-- ===== src/Http/Pipeline.antt =====
-- The requests that are complete and the callbacks of the next one (crates/core/src/http.rs).
use cadeloop.Prelude.{
  ℕ, ◌≡◌, refl, sym, ap, ◌∙◌, Bool, true, false, List, [], ◌∷◌, ◌++◌, if◌then◌else◌, append_assoc,
  append-nil, arith, Bool-cases, inl, inr,
}
use cadeloop.Http.{
  Request, Acc, new_acc, fail, Callback, message_begin, url, header_field, header_value, body,
  headers_complete, message_complete, Message, commit_header, declared_content_length,
  expects_continue, on_url, on_header_field, on_header_value, on_message_begin, on_headers_complete,
  on_body, on_message_complete, request_of, cleared, call, run, Verdict, next, halt, and_then,
}

-- The accumulator with requests complete before the others.
abbrev pub before : List Request → Acc → Acc
before done a = record a { completed = done ++ a.completed }

abbrev pub before_all : List Request → Verdict → Verdict
before_all done (next a) = next (before done a)
before_all done (halt a) = halt (before done a)

if-before :
    (done : List Request) (t : Bool) {x y : Verdict} (x' y' : Verdict)
    → x ≡ before_all done x'
    → y ≡ before_all done y'
    → (if t then x else y) ≡ before_all done (if t then x' else y')
if-before done true x' y' p q = p
if-before done false x' y' p q = q

commit_header-before :
    (done : List Request) (a : Acc) → commit_header (before done a) ≡ before done (commit_header a)
unfolding commit_header
commit_header-before done a =
    let goal = commit_header (before done a) ≡ before done (commit_header a) in
    elim (Bool-cases a.in_value) as (λ _. goal) [
      | inl e ↦ elim (Bool-cases a.in_head) as (λ _. goal) [
        | inl f ↦ ground arith
        | inr f ↦ ground arith
      ]
      | inr e ↦ ground arith
    ]

on_header_field-before :
    (done : List Request) (a : Acc) (at : List ℕ)
    → on_header_field (before done a) at ≡ before_all done (on_header_field a at)
unfolding on_header_field fail
on_header_field-before done a at = rw (commit_header-before done a) search if-before

on_headers_complete-before :
    (done : List Request) (a : Acc) (minor : ℕ)
    → on_headers_complete (before done a) minor ≡ before_all done (on_headers_complete a minor)
unfolding on_headers_complete fail declared_content_length expects_continue
on_headers_complete-before done a minor = rw (commit_header-before done a) search if-before

call-before :
    (done : List Request) (a : Acc) (c : Callback)
    → call (before done a) c ≡ before_all done (call a c)
unfolding on_url on_header_value on_message_begin on_body on_message_complete fail call
call-before done a message_begin = refl
call-before done a (url at) = search if-before
call-before done a (header_field at) = on_header_field-before done a at
call-before done a (header_value at) = search if-before
call-before done a (body at) = search if-before
call-before done a (headers_complete minor) = on_headers_complete-before done a minor
call-before done a (message_complete m) =
    ap (λ l. next (record (cleared a m) { completed = l }))
      (append_assoc done a.completed (request_of a m ∷ []))

and_then-before :
    (done : List Request) (o : Verdict) (k : Acc → Verdict)
    → ((a : Acc) → k (before done a) ≡ before_all done (k a))
    → and_then (before_all done o) k ≡ before_all done (and_then o k)
and_then-before done (next a) k e = e a
and_then-before done (halt a) k e = refl

run-before :
    (done : List Request) (a : Acc) (l : List Callback)
    → run (before done a) l ≡ before_all done (run a l)
unfolding run
run-before done a [] = refl
run-before done a (c ∷ l) =
    rw (call-before done a c)
      (and_then-before done (call a c) (λ a'. run a' l) (λ a'. run-before done a' l))

-- A message that is complete leaves nothing to the next one on the connection: the callbacks of the next
-- message, its `on_message_begin` first, have the same outcome as on an accumulator that is new (with the
-- error that was recorded, if there was one), behind the requests that were complete before and the one
-- that the message made.
pub run-on_message_complete :
    (a : Acc) (m : Message) (l : List Callback)
    → run a (message_complete m ∷ message_begin ∷ l)
      ≡ before_all
          (a.completed ++ request_of a m ∷ [])
          (run (record (new_acc a.limits) { error = a.error }) (message_begin ∷ l))
unfolding on_message_complete on_message_begin call run
run-on_message_complete a m l =
    ap (λ d. run (record (cleared a m) { in_head = true; completed = d }) l)
      (sym (append-nil (a.completed ++ request_of a m ∷ [])))
    ∙ run-before (a.completed ++ request_of a m ∷ [])
        (record (new_acc a.limits) { error = a.error; in_head = true }) l
