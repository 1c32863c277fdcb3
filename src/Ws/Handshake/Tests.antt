-- ===== src/Ws/Handshake/Tests.antt =====
-- The handshake of crates/core/src/ws.rs at concrete inputs.
use cadeloop.Prelude.{◌≡◌, ◌<◌, ◌%◌, ◌*◌, ◌^◌, ◌++◌, length, refl, [], ◌∷◌}
use cadeloop.Ws.Wire.{to_be_bytes, from_be_bytes, be_from}
use cadeloop.Ws.Handshake.{
  rotate_left, pad_loop, message, chunks, first_words, more_words, mix, round, rounds, compress,
  compress_all, sha1, letter, base64, accept_key, ws_guid,
}
use cadeloop.Ws.Handshake.Base64.{decoded}
use cadeloop.Ws.Handshake.Accept.{zeros, missing, message_padded, accept_key-decoded}

-- The vector of RFC 6455, section 1.3.
rfc_vector :
    accept_key (
      100 ∷ 71 ∷ 104 ∷ 108 ∷ 73 ∷ 72 ∷ 78 ∷ 104 ∷ 98 ∷ 88 ∷ 66 ∷ 115 ∷ 90 ∷ 83 ∷ 66 ∷ 117 ∷ 98 ∷ 50
      ∷ 53 ∷ 106 ∷ 90 ∷ 81 ∷ 61 ∷ 61 ∷ [])
    ≡ 115 ∷ 51 ∷ 112 ∷ 80 ∷ 76 ∷ 77 ∷ 66 ∷ 105 ∷ 84 ∷ 120 ∷ 97 ∷ 81 ∷ 57 ∷ 107 ∷ 89 ∷ 71 ∷ 122 ∷ 122
      ∷ 104 ∷ 90 ∷ 82 ∷ 98 ∷ 75 ∷ 43 ∷ 120 ∷ 79 ∷ 111 ∷ 61 ∷ []
unfolding rotate_left pad_loop message chunks first_words more_words mix round rounds compress
    compress_all sha1 letter base64 accept_key to_be_bytes from_be_bytes be_from
rfc_vector = refl

message_padded_example :
    (message (1 ∷ 2 ∷ [])
      ≡ ((1 ∷ 2 ∷ 0x80 ∷ []) ++ zeros (missing 3)) ++ to_be_bytes 8 (2 % 2 ^ 64 * 8 % 2 ^ 64))
    × (missing 3 < 64)
    × (length (message (1 ∷ 2 ∷ [])) % 64 ≡ 0)
message_padded_example = message_padded (1 ∷ 2 ∷ [])

accept_key-decoded_example :
    (length (accept_key (1 ∷ 2 ∷ [])) ≡ 28)
    × (decoded (accept_key (1 ∷ 2 ∷ [])) ≡ sha1 ((1 ∷ 2 ∷ []) ++ ws_guid))
accept_key-decoded_example = accept_key-decoded (1 ∷ 2 ∷ [])
