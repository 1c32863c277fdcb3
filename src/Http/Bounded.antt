-- ===== src/Http/Bounded.antt =====
-- How much of a client's bytes the accumulator keeps (crates/core/src/http.rs).
use cadeloop.Prelude.{
  ℕ, suc, ◌+◌, ◌≤◌, ◌<◌, ◌≡◌, refl, ap, ◌∙◌, Bool, true, false, ◌&&◌, not, Option, none, some, List,
  [], ◌∷◌, ◌++◌, map, length, ltb, leb, ◌==◌, if◌then◌else◌, arith, length-append,
}
use cadeloop.Http.{
  Limits, Request, Acc, fail, to_lower, Callback, message_begin, url, header_field, header_value,
  body, headers_complete, message_complete, Message, commit_header, on_url, on_header_field,
  on_header_value, on_message_begin, on_headers_complete, on_body, on_message_complete, over_cap,
  call, run, Verdict, next, halt, and_then, Refusal, request_target_too_long, headers_too_large,
  too_many_headers, exactly_one_host, body_too_large, count_hosts, declares_too_much,
  declared_content_length, expects_continue, cleared,
}

-- The bytes of the headers.
abbrev pub header_size : List (List ℕ × List ℕ) → ℕ
header_size [] = 0
header_size ((n, v) ∷ l) = length n + length v + header_size l

-- A request within the limits.
pub record Fits (limits : Limits) (r : Request) : Type 0 where
  pub url_fits : length r.url ≤ limits.max_url
  pub headers_fit : header_size r.headers ≤ limits.max_header_bytes
  pub few_headers : length r.headers ≤ limits.max_headers
  pub body_fits : over_cap limits.max_body (length r.body) ≡ false

pub data AllFit (limits : Limits) : List Request → Type 0 where
  none_left : AllFit limits []
  fits :
      {r : Request} → {l : List Request} → Fits limits r → AllFit limits l → AllFit limits (r ∷ l)

abbrev pub stored : Acc → ℕ
stored a = header_size a.headers + length a.field + length a.value

-- The headers, with the one that is being read.
abbrev pub header_count : Acc → ℕ
header_count a = length a.headers + (if a.in_value then 1 else 0)

-- What the accumulator keeps is within the limits.
pub record IsBounded (a : Acc) : Type 0 where
  pub url_fits : length a.url ≤ a.limits.max_url
  pub counted : stored a ≤ a.header_bytes
  pub headers_fit : stored a ≤ a.limits.max_header_bytes
  pub few_headers : header_count a ≤ a.limits.max_headers
  pub body_fits : over_cap a.limits.max_body (length a.body) ≡ false
  pub completed_fit : AllFit a.limits a.completed

AllFit-append :
    {limits : Limits} {l : List Request} {r : Request}
    → AllFit limits l
    → Fits limits r
    → AllFit limits (l ++ r ∷ [])
AllFit-append none_left f = fits f none_left
AllFit-append (fits g l) f = fits g (AllFit-append l f)

header_size-append :
    (l : List (List ℕ × List ℕ)) (n v : List ℕ)
    → header_size (l ++ (n, v) ∷ []) ≡ header_size l + length n + length v
header_size-append [] n v = omega arith
header_size-append ((m, w) ∷ l) n v = let e = header_size-append l n v in omega arith

length-map : (f : ℕ → ℕ) (l : List ℕ) → length (map f l) ≡ length l
length-map f [] = refl
length-map f (b ∷ l) = ap suc (length-map f l)

if-IsBounded :
    (t : Bool) {x y : Acc}
    → (t ≡ true → IsBounded x)
    → (t ≡ false → IsBounded y)
    → IsBounded (if t then x else y)
if-IsBounded true p q = p refl
if-IsBounded false p q = q refl

-- Room for a header whose name has been read.
abbrev pub HasRoom : Bool → Acc → Type 0
HasRoom named a = named ≡ true → length a.headers < a.limits.max_headers

-- llhttp passes on a header's value behind a name only, which may be the last thing it passed on before.
abbrev pub NamesFirst : Bool → List Callback → Type 0
NamesFirst named [] = Unit
NamesFirst named (message_begin ∷ l) = NamesFirst false l
NamesFirst named (url _ ∷ l) = NamesFirst false l
NamesFirst named (header_field _ ∷ l) = NamesFirst true l
NamesFirst named (header_value _ ∷ l) = (named ≡ true) × NamesFirst true l
NamesFirst named (body _ ∷ l) = NamesFirst false l
NamesFirst named (headers_complete _ ∷ l) = NamesFirst false l
NamesFirst named (message_complete _ ∷ l) = NamesFirst false l

-- The outcome of callbacks that keep within the limits.
pub data Keeps (limits : Limits) : Verdict → Type 0 where
  goes_on : {a : Acc} → a.limits ≡ limits → IsBounded a → Keeps limits (next a)
  stops : {a : Acc} → a.limits ≡ limits → IsBounded a → Keeps limits (halt a)

-- The same of one, behind which a name has been read or not.
data Leads (limits : Limits) (named : Bool) : Verdict → Type 0 where
  leads :
      {a : Acc} → a.limits ≡ limits → IsBounded a → HasRoom named a → Leads limits named (next a)
  ends : {a : Acc} → a.limits ≡ limits → IsBounded a → Leads limits named (halt a)

either-Leads :
    {limits : Limits} {named : Bool} (t : Bool) {x y : Verdict}
    → (t ≡ true → Leads limits named x)
    → (t ≡ false → Leads limits named y)
    → Leads limits named (if t then x else y)
either-Leads true p q = p refl
either-Leads false p q = q refl

commit_header-IsBounded : (a : Acc) → IsBounded a → IsBounded (commit_header a)
unfolding commit_header
commit_header-IsBounded a p =
    let c = p.counted in
    let h = p.headers_fit in
    let e = header_size-append a.headers (map to_lower a.field) a.value in
    let m = length-map to_lower a.field in
    let taken = record a { in_value = false; field = []; value = [] } in
    let pushed = record taken { headers = a.headers ++ (map to_lower a.field, a.value) ∷ [] } in
    if-IsBounded (not a.in_value) {x = a} {y = if not a.in_head then taken else pushed} (λ t. p)
      (λ t.
        if-IsBounded (not a.in_head) {x = taken} {y = pushed}
          (λ u. record {
            url_fits = p.url_fits;
            counted = omega arith;
            headers_fit = omega arith;
            few_headers =
                let f = p.few_headers in
                ground (arith, length-append a.headers ((map to_lower a.field, a.value) ∷ []));
            body_fits = p.body_fits;
            completed_fit = p.completed_fit;
          })
          (λ u. record {
            url_fits = p.url_fits;
            counted = omega arith;
            headers_fit = omega arith;
            few_headers =
                let f = p.few_headers in
                ground (arith, length-append a.headers ((map to_lower a.field, a.value) ∷ []));
            body_fits = p.body_fits;
            completed_fit = p.completed_fit;
          }))

commit_header-limits : (a : Acc) → (commit_header a).limits ≡ a.limits
unfolding commit_header
commit_header-limits a = ground arith

fail-Leads :
    {limits : Limits} {named : Bool} (a : Acc) (status : ℕ) (reason : Refusal)
    → a.limits ≡ limits
    → IsBounded a
    → Leads limits named (fail a status reason)
unfolding fail
fail-Leads a status reason e p = ends e (record {
  url_fits = p.url_fits;
  counted = p.counted;
  headers_fit = p.headers_fit;
  few_headers = p.few_headers;
  body_fits = p.body_fits;
  completed_fit = p.completed_fit;
})

on_url-Leads :
    {limits : Limits} (a : Acc) (at : List ℕ)
    → a.limits ≡ limits
    → IsBounded a
    → Leads limits false (on_url a at)
unfolding on_url
on_url-Leads a at e p =
    either-Leads (ltb a.limits.max_url (length a.url + length at))
      (λ t. fail-Leads a 414 request_target_too_long e p)
      (λ t.
        leads e
          (record {
            url_fits = let d = length-append a.url at in ground arith;
            counted = p.counted;
            headers_fit = p.headers_fit;
            few_headers = p.few_headers;
            body_fits = p.body_fits;
            completed_fit = p.completed_fit;
          })
          (λ h. cc))

counted-IsBounded :
    (a : Acc) (n : ℕ) → IsBounded a → IsBounded (record a { header_bytes = a.header_bytes + n })
counted-IsBounded a n p = record {
  url_fits = p.url_fits;
  counted = let c = p.counted in omega arith;
  headers_fit = p.headers_fit;
  few_headers = p.few_headers;
  body_fits = p.body_fits;
  completed_fit = p.completed_fit;
}

on_header_field-Leads :
    {limits : Limits} (a : Acc) (at : List ℕ)
    → a.limits ≡ limits
    → IsBounded a
    → Leads limits true (on_header_field a at)
unfolding on_header_field
on_header_field-Leads a at e p =
    let f = commit_header-limits a ∙ e in
    let c = commit_header a in
    let q = commit_header-IsBounded a p in
    let n = c.header_bytes + length at in
    let r = counted-IsBounded c (length at) q in
    either-Leads (ltb c.limits.max_header_bytes n) (λ t. fail-Leads _ 431 headers_too_large f r)
      (λ t.
        either-Leads (leb c.limits.max_headers (length c.headers))
          (λ u. fail-Leads _ 431 too_many_headers f r)
          (λ u.
            leads f
              (record {
                url_fits = q.url_fits;
                counted = let d = length-append c.field at in let k = q.counted in omega arith;
                headers_fit = let d = length-append c.field at in let k = q.counted in ground arith;
                few_headers = q.few_headers;
                body_fits = q.body_fits;
                completed_fit = q.completed_fit;
              })
              (λ h. ground arith)))

on_header_value-Leads :
    {limits : Limits} (a : Acc) (at : List ℕ)
    → a.limits ≡ limits
    → IsBounded a
    → length a.headers < a.limits.max_headers
    → Leads limits true (on_header_value a at)
unfolding on_header_value
on_header_value-Leads a at e p room =
    let n = a.header_bytes + length at in
    let k = p.counted in
    let r =
      counted-IsBounded (record a { in_value = true }) (length at)
        (record {
          url_fits = p.url_fits;
          counted = p.counted;
          headers_fit = p.headers_fit;
          few_headers = omega arith;
          body_fits = p.body_fits;
          completed_fit = p.completed_fit;
        }) in
    either-Leads (ltb a.limits.max_header_bytes n) (λ t. fail-Leads _ 431 headers_too_large e r)
      (λ t.
        leads e
          (record {
            url_fits = p.url_fits;
            counted = let d = length-append a.value at in omega arith;
            headers_fit = let d = length-append a.value at in ground arith;
            few_headers = omega arith;
            body_fits = p.body_fits;
            completed_fit = p.completed_fit;
          })
          (λ h. room))

on_headers_complete-Leads :
    {limits : Limits} (a : Acc) (minor : ℕ)
    → a.limits ≡ limits
    → IsBounded a
    → Leads limits false (on_headers_complete a minor)
unfolding on_headers_complete
on_headers_complete-Leads a minor e p =
    let f = commit_header-limits a ∙ e in
    let c = record (commit_header a) { in_head = false } in
    let q = commit_header-IsBounded a p in
    let r : IsBounded c = record {
      url_fits = q.url_fits;
      counted = q.counted;
      headers_fit = q.headers_fit;
      few_headers = q.few_headers;
      body_fits = q.body_fits;
      completed_fit = q.completed_fit;
    } in
    either-Leads (leb 1 minor && not (count_hosts c.headers == 1))
      (λ t. fail-Leads c 400 exactly_one_host f r)
      (λ t.
        either-Leads (declares_too_much c.limits.max_body (declared_content_length c))
          (λ u. fail-Leads c 413 body_too_large f r)
          (λ u.
            either-Leads (leb 1 minor && expects_continue c)
              (λ w.
                leads f
                  (record {
                    url_fits = q.url_fits;
                    counted = q.counted;
                    headers_fit = q.headers_fit;
                    few_headers = q.few_headers;
                    body_fits = q.body_fits;
                    completed_fit = q.completed_fit;
                  })
                  (λ h. cc))
              (λ w. leads f r (λ h. cc))))

on_body-Leads :
    {limits : Limits} (a : Acc) (at : List ℕ)
    → a.limits ≡ limits
    → IsBounded a
    → Leads limits false (on_body a at)
unfolding on_body
on_body-Leads a at e p =
    either-Leads (over_cap a.limits.max_body (length a.body + length at))
      (λ t. fail-Leads a 413 body_too_large e p)
      (λ t.
        leads e
          (record {
            url_fits = p.url_fits;
            counted = p.counted;
            headers_fit = p.headers_fit;
            few_headers = p.few_headers;
            body_fits = ap (over_cap a.limits.max_body) (length-append a.body at) ∙ t;
            completed_fit = p.completed_fit;
          })
          (λ h. cc))

over_cap-zero : (cap : Option ℕ) → over_cap cap 0 ≡ false
unfolding over_cap
over_cap-zero none = refl
over_cap-zero (some cap) = ground arith

cleared-IsBounded : (a : Acc) (m : Message) → IsBounded a → IsBounded (cleared a m)
cleared-IsBounded a m p =
    let h = p.headers_fit in
    let n = p.few_headers in
    record {
      url_fits = omega arith;
      counted = omega arith;
      headers_fit = omega arith;
      few_headers = omega arith;
      body_fits = over_cap-zero a.limits.max_body;
      completed_fit = AllFit-append p.completed_fit (record {
        url_fits = p.url_fits;
        headers_fit = omega arith;
        few_headers = omega arith;
        body_fits = p.body_fits;
      });
    }

call-Leads :
    {limits : Limits} {named : Bool} (a : Acc) (c : Callback) (l : List Callback)
    → a.limits ≡ limits
    → IsBounded a
    → HasRoom named a
    → NamesFirst named (c ∷ l)
    → (n : Bool) × Leads limits n (call a c) × NamesFirst n l
unfolding call on_message_begin on_message_complete
call-Leads a message_begin l e p r o = (
  false,
  leads e
      (record {
        url_fits = p.url_fits;
        counted = p.counted;
        headers_fit = p.headers_fit;
        few_headers = p.few_headers;
        body_fits = p.body_fits;
        completed_fit = p.completed_fit;
      })
      (λ h. cc),
  o,
)
call-Leads a (url at) l e p r o = (false, on_url-Leads a at e p, o)
call-Leads a (header_field at) l e p r o = (true, on_header_field-Leads a at e p, o)
call-Leads a (header_value at) l e p r o = (true, on_header_value-Leads a at e p (r o.0), o.1)
call-Leads a (body at) l e p r o = (false, on_body-Leads a at e p, o)
call-Leads a (headers_complete minor) l e p r o = (false, on_headers_complete-Leads a minor e p, o)
call-Leads a (message_complete m) l e p r o =
    (false, leads e (cleared-IsBounded a m p) (λ h. cc), o)

Leads-and_then :
    {limits : Limits} {named : Bool} (o : Verdict) (k : Acc → Verdict)
    → Leads limits named o
    → ((a : Acc) → a.limits ≡ limits → IsBounded a → HasRoom named a → Keeps limits (k a))
    → Keeps limits (and_then o k)
Leads-and_then (next a) k (leads e p r) f = f a e p r
Leads-and_then (halt a) k (ends e p) f = stops e p

run-Keeps_all :
    {limits : Limits} (named : Bool) (a : Acc) (l : List Callback)
    → a.limits ≡ limits
    → IsBounded a
    → HasRoom named a
    → NamesFirst named l
    → Keeps limits (run a l)
unfolding run
run-Keeps_all named a [] e p r o = goes_on e p
run-Keeps_all named a (c ∷ l) e p r o =
    let (n, v, o') = call-Leads a c l e p r o in
    Leads-and_then (call a c) (λ a'. run a' l) v (λ a' e' q r'. run-Keeps_all n a' l e' q r' o')

-- Whatever callbacks llhttp makes, in any order in which a header's value comes behind its name, an accumulator
-- that is within its limits keeps the limits and stays within them, also when a callback stops the parse: the URL,
-- the number and the bytes of the headers with the one that is being read, the body, and each of the requests that
-- are complete. If the first callback may be a value, there is room for the header of that name.
pub run-Keeps :
    (named : Bool) (a : Acc) (l : List Callback)
    → IsBounded a
    → HasRoom named a
    → NamesFirst named l
    → Keeps a.limits (run a l)
run-Keeps named a l p r o = run-Keeps_all named a l refl p r o
