-- ===== src/Http/Queue.antt =====
-- What the caller of the parser takes from the accumulator (crates/core/src/http.rs).
use cadeloop.Prelude.{
  ℕ, ◌+◌, ◌*◌, ◌≤◌, ◌≡◌, refl, sym, ap, ◌∙◌, Bool, true, false, Option, none, some, List, [], ◌∷◌,
  length, ltb, arith,
}
use cadeloop.Http.{Limits, Request, Acc, over_cap}
use cadeloop.Http.Bounded.{IsBounded, header_size, Fits, AllFit, none_left, fits}

-- `Limits::default`
abbrev pub default_limits : Limits
default_limits = record {
  max_header_bytes = 64 * 1024;
  max_headers = 100;
  max_url = 8 * 1024;
  max_body = some (16 * 1024 * 1024);
}

pub queued_headers : List (List ℕ × List ℕ) → ℕ
queued_headers [] = 0
queued_headers ((n, v) ∷ l) = length n + length v + 4 + queued_headers l

pub queued_size : Request → ℕ
queued_size r = length r.url + length r.body + queued_headers r.headers

pop_oldest : List Request → Acc → Option Request × Acc
pop_oldest [] a = (none, a)
pop_oldest (r ∷ l) a = (some r, record a { completed = l })

pub next_request : Acc → Option Request × Acc
next_request a = pop_oldest a.completed a

pub has_request : Acc → Bool
has_request a = ltb 0 (length a.completed)

pub take_owes_continue : Acc → Bool × Acc
take_owes_continue a = (a.owes_continue, record a { owes_continue = false })

queued_headers-size : (l : List (List ℕ × List ℕ)) → queued_headers l ≡ header_size l + 4 * length l
unfolding queued_headers
queued_headers-size [] = refl
queued_headers-size ((n, v) ∷ l) = let e = queued_headers-size l in omega arith

-- What `queued_size` counts for a request that is within the limits, with a cap on the body.
queued_size_bound :
    (limits : Limits) (most : ℕ) (r : Request)
    → limits.max_body ≡ some most
    → Fits limits r
    → queued_size r ≤ limits.max_url + most + limits.max_header_bytes + 4 * limits.max_headers
unfolding queued_size over_cap
queued_size_bound limits most r e f =
    let u = f.url_fits in
    let h = f.headers_fit in
    let n = f.few_headers in
    let q = queued_headers-size r.headers in
    let b : over_cap (some most) (length r.body) ≡ false =
      ap (λ m. over_cap m (length r.body)) (sym e) ∙ f.body_fits in
    ground arith

-- The answer of `next_request`: the oldest request, if there is one.
pub data Taken (a : Acc) (most : ℕ) : Option Request × Acc → Type 0 where
  empty : has_request a ≡ false → Taken a most (none, a)
  oldest :
      (r : Request) (l : List Request)
      → has_request a ≡ true
      → a.completed ≡ r ∷ l
      → queued_size r
        ≤ a.limits.max_url + most + a.limits.max_header_bytes + 4 * a.limits.max_headers
      → IsBounded (record a { completed = l })
      → Taken a most (some r, record a { completed = l })

pop_oldest-Taken :
    (a : Acc) (most : ℕ) (l : List Request)
    → a.completed ≡ l
    → a.limits.max_body ≡ some most
    → AllFit a.limits l
    → IsBounded a
    → Taken a most (pop_oldest l a)
unfolding pop_oldest has_request
pop_oldest-Taken a most [] h e none_left p = empty (ap (λ c. ltb 0 (length c)) h)
pop_oldest-Taken a most (r ∷ l) h e (fits f g) p =
    oldest r l (ap (λ c. ltb 0 (length c)) h ∙ ground arith) h
      (queued_size_bound a.limits most r e f)
      (record {
        url_fits = p.url_fits;
        counted = p.counted;
        headers_fit = p.headers_fit;
        few_headers = p.few_headers;
        body_fits = p.body_fits;
        completed_fit = g;
      })

-- On an accumulator that is within its limits, with a cap on the body, `next_request` hands out the oldest
-- request exactly if `has_request` says that there is one. The request's `queued_size` is at most the limits on
-- the URL, the body and the bytes of headers and four for each header that may be there, and the accumulator behind it is within the limits with the others kept.
pub next_request_correct :
    (a : Acc) (most : ℕ)
    → a.limits.max_body ≡ some most
    → IsBounded a
    → Taken a most (next_request a)
unfolding next_request
next_request_correct a most e p = pop_oldest-Taken a most a.completed refl e p.completed_fit p
