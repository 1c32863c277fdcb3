-- ===== src/Http/Tests.antt =====
-- Runs of the callbacks of crates/core/src/http.rs at concrete inputs.
use cadeloop.Prelude.{◌≡◌, refl, true, false, some, List, [], ◌∷◌, arith}
use cadeloop.Http.{
  Limits, Acc, new_acc, Callback, message_begin, url, header_field, header_value, body,
  headers_complete, message_complete, Message, request_of, run, over_cap,
}
use cadeloop.Http.Bounded.{IsBounded, none_left, fits, Keeps, run-Keeps}
use cadeloop.Http.Queue.{Taken, next_request, next_request_correct}
use cadeloop.Http.Pipeline.{before_all, run-on_message_complete}
use cadeloop.Http.Host.{done, then_body, then_field, then_value, OneHost, headers_complete-OneHost}

abbrev small : Limits
small = record { max_header_bytes = 20; max_headers = 2; max_url = 4; max_body = some 3 }

IsBounded-small : IsBounded (new_acc small)
unfolding over_cap
IsBounded-small = record {
  url_fits = omega arith;
  counted = omega arith;
  headers_fit = omega arith;
  few_headers = omega arith;
  body_fits = refl;
  completed_fit = none_left;
}

abbrev get_message : Message
get_message = record { method = 1; minor = 1; keep_alive = true; upgrade = false }

-- GET /, with "Host: a" and the body "xy".
abbrev get_root : List Callback
get_root =
    message_begin
    ∷ url (47 ∷ [])
    ∷ header_field (72 ∷ 111 ∷ [])
    ∷ header_field (115 ∷ 116 ∷ [])
    ∷ header_value (97 ∷ [])
    ∷ headers_complete 1
    ∷ body (120 ∷ 121 ∷ [])
    ∷ message_complete get_message
    ∷ []

run-Keeps_example : Keeps small (run (new_acc small) get_root)
run-Keeps_example = run-Keeps false (new_acc small) get_root IsBounded-small (λ h. cc) (refl, tt)

-- A trailer "host: b" that waits in the accumulator when the message ends.
abbrev with_trailer : Acc
with_trailer = record (new_acc small) {
  url = 47 ∷ [];
  headers = (104 ∷ 111 ∷ 115 ∷ 116 ∷ [], 97 ∷ []) ∷ [];
  field = 104 ∷ 111 ∷ 115 ∷ 116 ∷ [];
  value = 98 ∷ [];
  in_value = true;
  header_bytes = 10;
}

abbrev next_head : List Callback
next_head =
    url (47 ∷ []) ∷ header_field (65 ∷ []) ∷ header_value (66 ∷ []) ∷ headers_complete 0 ∷ []

run-on_message_complete_example :
    run with_trailer (message_complete get_message ∷ message_begin ∷ next_head)
    ≡ before_all
        (request_of with_trailer get_message ∷ [])
        (run (new_acc small) (message_begin ∷ next_head))
run-on_message_complete_example = run-on_message_complete with_trailer get_message next_head

abbrev in_head_with_host : Acc
in_head_with_host = record (new_acc small) {
  field = 72 ∷ 111 ∷ 115 ∷ 116 ∷ [];
  value = 97 ∷ [];
  in_value = true;
  header_bytes = 5;
  in_head = true;
}

abbrev tail : List Callback
tail =
    body (120 ∷ [])
    ∷ header_field (72 ∷ 111 ∷ 115 ∷ 116 ∷ [])
    ∷ header_value (98 ∷ [])
    ∷ header_field (90 ∷ [])
    ∷ []

headers_complete-OneHost_example : OneHost 1 (run in_head_with_host (headers_complete 1 ∷ tail))
headers_complete-OneHost_example =
    headers_complete-OneHost in_head_with_host 1 tail
      (then_body _ (then_field _ (then_value _ (then_field _ done))))

abbrev finished : Acc
finished = record (new_acc small) { completed = request_of with_trailer get_message ∷ [] }

IsBounded-finished : IsBounded finished
unfolding over_cap
IsBounded-finished = record {
  url_fits = omega arith;
  counted = omega arith;
  headers_fit = omega arith;
  few_headers = omega arith;
  body_fits = refl;
  completed_fit =
      fits
        (record {
          url_fits = omega arith;
          headers_fit = omega arith;
          few_headers = omega arith;
          body_fits = refl;
        })
        none_left;
}

next_request_correct_example : Taken finished 3 (next_request finished)
next_request_correct_example = next_request_correct finished 3 refl IsBounded-finished
