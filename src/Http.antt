-- ===== src/Http.antt =====
-- The HTTP accumulator (crates/core/src/http.rs): what the callbacks do that the vendored llhttp calls while
-- it parses a request. What llhttp passes to a callback, and what it knows of the message, are arguments; a
-- callback hands back the accumulator, and whether parsing goes on. Bytes are numbers below 256.
pub mod Pipeline
pub mod Queue
pub mod Bounded
pub mod Host
mod Tests
use cadeloop.Prelude.{
  ℕ, zero, suc, ◌+◌, ◌-◌, ◌*◌, ◌^◌, Bool, true, false, ◌&&◌, ◌||◌, not, Option, none, some, List,
  [], ◌∷◌, ◌++◌, map, length, ltb, leb, ◌==◌, if◌then◌else◌,
}
use cadeloop.Prelude.Partial.{◌>>=◌}

pub record Limits : Type 0 where
  pub max_header_bytes : ℕ
  pub max_headers : ℕ
  pub max_url : ℕ
  pub max_body : Option ℕ

-- The method is the number that llhttp gave it.
pub record Request : Type 0 where
  pub method : ℕ
  pub http_minor : ℕ
  pub keep_alive : Bool
  pub upgrade : Bool
  pub url : List ℕ
  pub headers : List (List ℕ × List ℕ)
  pub body : List ℕ

pub data Refusal : Type 0 where
  request_target_too_long headers_too_large too_many_headers : Refusal
  exactly_one_host body_too_large : Refusal

pub record ParseError : Type 0 where
  pub status : ℕ
  pub reason : Refusal

pub record Acc : Type 0 where
  pub limits : Limits
  pub url : List ℕ
  pub headers : List (List ℕ × List ℕ)
  pub field : List ℕ
  pub value : List ℕ
  pub in_value : Bool
  pub header_bytes : ℕ
  pub body : List ℕ
  pub completed : List Request
  pub error : Option ParseError
  pub in_head : Bool
  pub owes_continue : Bool
  pub expecting_body : Bool

abbrev pub new_acc : Limits → Acc
new_acc limits = record {
  limits = limits;
  url = [];
  headers = [];
  field = [];
  value = [];
  in_value = false;
  header_bytes = 0;
  body = [];
  completed = [];
  error = none;
  in_head = false;
  owes_continue = false;
  expecting_body = false;
}

-- What a callback hands to llhttp: 0 lets the parse go on, any other number stops it.
pub data Verdict : Type 0 where
  next halt : Acc → Verdict

pub fail : Acc → ℕ → Refusal → Verdict
fail a status reason =
    halt (record a { error = some (record { status = status; reason = reason }) })

pub same_bytes : List ℕ → List ℕ → Bool
same_bytes [] [] = true
same_bytes [] (y ∷ m) = false
same_bytes (x ∷ l) [] = false
same_bytes (x ∷ l) (y ∷ m) = x == y && same_bytes l m

-- `to_ascii_lowercase`
pub to_lower : ℕ → ℕ
to_lower b = if leb 0x41 b && leb b 0x5A then b + 0x20 else b

-- "host", "expect", "content-length" and "100-continue".
abbrev pub host_name : List ℕ
host_name = 104 ∷ 111 ∷ 115 ∷ 116 ∷ []

abbrev pub expect_name : List ℕ
expect_name = 101 ∷ 120 ∷ 112 ∷ 101 ∷ 99 ∷ 116 ∷ []

abbrev pub content_length_name : List ℕ
content_length_name =
    99 ∷ 111 ∷ 110 ∷ 116 ∷ 101 ∷ 110 ∷ 116 ∷ 45 ∷ 108 ∷ 101 ∷ 110 ∷ 103 ∷ 116 ∷ 104 ∷ []

abbrev pub continue_token : List ℕ
continue_token = 49 ∷ 48 ∷ 48 ∷ 45 ∷ 99 ∷ 111 ∷ 110 ∷ 116 ∷ 105 ∷ 110 ∷ 117 ∷ 101 ∷ []

pub is_space : ℕ → Bool
is_space b = b == 32 || b == 9 || b == 10 || b == 12 || b == 13

pub trim_start : List ℕ → List ℕ
trim_start [] = []
trim_start (b ∷ l) = let rest = trim_start l in if is_space b then rest else b ∷ l

pub trim_end : List ℕ → List ℕ
trim_end [] = []
trim_end (b ∷ l) = ended b (trim_end l)
  where
    ended : ℕ → List ℕ → List ℕ
    ended b [] = if is_space b then [] else b ∷ []
    ended b (c ∷ l) = b ∷ c ∷ l

pub trim_ascii : List ℕ → List ℕ
trim_ascii l = trim_end (trim_start l)

-- `parse::<u64>()` behind the first digit; a number that leaves the width is an error.
parse_digits : ℕ → List ℕ → Option ℕ
parse_digits n [] = some n
parse_digits n (b ∷ l) =
    let more = parse_digits (n * 10 + (b - 48)) l in
    if leb 48 b && leb b 57 && ltb (n * 10 + (b - 48)) (2 ^ 64) then more else none

parse_u64 : List ℕ → Option ℕ
parse_u64 [] = none
parse_u64 (b ∷ l) =
    let plus = b == 43 && ltb 0 (length l) in
    if plus then parse_digits 0 l else parse_digits 0 (b ∷ l)

-- The value of the first header of that name.
pub find_header : List ℕ → List (List ℕ × List ℕ) → Option (List ℕ)
find_header name [] = none
find_header name ((n, v) ∷ l) =
    let rest = find_header name l in if same_bytes n name then some v else rest

-- llhttp lets only digits and blanks through here, so that trimming is trimming ASCII white space.
pub declared_content_length : Acc → Option ℕ
declared_content_length a =
    find_header content_length_name a.headers >>= λ v. parse_u64 (trim_ascii v)

-- Whether one of the tokens between commas is `100-continue`; the first argument is the token so far.
any_continue : List ℕ → List ℕ → Bool
any_continue token [] = same_bytes (map to_lower (trim_ascii token)) continue_token
any_continue token (b ∷ l) =
    let next = any_continue [] l in
    let longer = any_continue (token ++ b ∷ []) l in
    if b == 44 then same_bytes (map to_lower (trim_ascii token)) continue_token || next else longer

expects_in : List (List ℕ × List ℕ) → Bool
expects_in [] = false
expects_in ((n, v) ∷ l) = (same_bytes n expect_name && any_continue [] v) || expects_in l

pub expects_continue : Acc → Bool
expects_continue a = expects_in a.headers

-- A trailer, which comes after the head, is dropped.
pub commit_header : Acc → Acc
commit_header a =
    let taken = record a { in_value = false; field = []; value = [] } in
    let pushed = record taken { headers = a.headers ++ (map to_lower a.field, a.value) ∷ [] } in
    if not a.in_value then a else if not a.in_head then taken else pushed

pub on_url : Acc → List ℕ → Verdict
on_url a at =
    if ltb a.limits.max_url (length a.url + length at)
    then fail a 414 request_target_too_long
    else next (record a { url = a.url ++ at })

pub on_header_field : Acc → List ℕ → Verdict
on_header_field a at =
    let c = commit_header a in
    let counted = record c { header_bytes = c.header_bytes + length at } in
    if ltb counted.limits.max_header_bytes counted.header_bytes
    then fail counted 431 headers_too_large
    else if leb counted.limits.max_headers (length counted.headers)
    then fail counted 431 too_many_headers
    else next (record counted { field = counted.field ++ at })

pub on_header_value : Acc → List ℕ → Verdict
on_header_value a at =
    let counted = record a { in_value = true; header_bytes = a.header_bytes + length at } in
    if ltb counted.limits.max_header_bytes counted.header_bytes
    then fail counted 431 headers_too_large
    else next (record counted { value = counted.value ++ at })

pub on_message_begin : Acc → Verdict
on_message_begin a = next (record a { in_head = true })

pub count_hosts : List (List ℕ × List ℕ) → ℕ
count_hosts [] = 0
count_hosts ((n, v) ∷ l) = if same_bytes n host_name then suc (count_hosts l) else count_hosts l

-- Whether the head declares a body over the limit.
pub declares_too_much : Option ℕ → Option ℕ → Bool
declares_too_much (some cap) (some declared) = ltb cap declared
declares_too_much _ _ = false

pub on_headers_complete : Acc → ℕ → Verdict
on_headers_complete a minor =
    let c = record (commit_header a) { in_head = false } in
    let expecting = record c { owes_continue = true; expecting_body = true } in
    if leb 1 minor && not (count_hosts c.headers == 1)
    then fail c 400 exactly_one_host
    else if declares_too_much c.limits.max_body (declared_content_length c)
    then fail c 413 body_too_large
    else if leb 1 minor && expects_continue c
    then next expecting
    else next c

pub over_cap : Option ℕ → ℕ → Bool
over_cap none n = false
over_cap (some cap) n = ltb cap n

pub on_body : Acc → List ℕ → Verdict
on_body a at =
    if over_cap a.limits.max_body (length a.body + length at)
    then fail a 413 body_too_large
    else next (record a { body = a.body ++ at })

-- What llhttp knows of a message that is complete.
pub record Message : Type 0 where
  pub method : ℕ
  pub minor : ℕ
  pub keep_alive : Bool
  pub upgrade : Bool

abbrev pub request_of : Acc → Message → Request
request_of a m = record {
  method = m.method;
  http_minor = m.minor;
  keep_alive = m.keep_alive;
  upgrade = m.upgrade;
  url = a.url;
  headers = a.headers;
  body = a.body;
}

abbrev pub cleared : Acc → Message → Acc
cleared a m = record a {
  owes_continue = false;
  expecting_body = false;
  completed = a.completed ++ request_of a m ∷ [];
  url = [];
  headers = [];
  body = [];
  header_bytes = 0;
  field = [];
  value = [];
  in_value = false;
}

pub on_message_complete : Acc → Message → Verdict
on_message_complete a m = next (cleared a m)

-- The calls that llhttp makes.
pub data Callback : Type 0 where
  message_begin : Callback
  url header_field header_value body : List ℕ → Callback
  headers_complete : ℕ → Callback
  message_complete : Message → Callback

unfoldable pub call : Acc → Callback → Verdict
call a message_begin = on_message_begin a
call a (url at) = on_url a at
call a (header_field at) = on_header_field a at
call a (header_value at) = on_header_value a at
call a (body at) = on_body a at
call a (headers_complete minor) = on_headers_complete a minor
call a (message_complete m) = on_message_complete a m

abbrev pub and_then : Verdict → (Acc → Verdict) → Verdict
and_then (next a) k = k a
and_then (halt a) k = halt a

-- llhttp stops at the first callback that fails.
unfoldable pub run : Acc → List Callback → Verdict
run a [] = next a
run a (c ∷ l) = and_then (call a c) (λ a'. run a' l)
