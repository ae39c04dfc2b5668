-- ===== src/Template/Tests.antt =====
-- A small request and a small diagnostic, as frames.
use caly.Base.{ℕ, ◌≡◌, refl, ◌↔◌, Bool, true, ◌&&◌, some, List, [], ◌∷◌, ◌++◌, ltb, arith}
use caly.Base.Result.{ok, err}
use caly.Template.{
  TemplateRequest, WorkerResponse, rejected, decode_request, encode_request, decode_response,
  encode_response, length_mismatch, diagnostic_rejected, frame_id, request_sizes, request_payload,
  read_array, checked_sum, utf8_from,
}
use caly.Template.Slices.{IsBytes}
use caly.Template.Request.{IsRequest}
use caly.Template.Request.Accepted.{decode_request-ok_iff}
use caly.Template.Response.{IsResponse}
use caly.Template.Response.Accepted.{decode_response-ok_iff}

are_bytes : List ℕ → Bool
are_bytes [] = true
are_bytes (b ∷ bs) = ltb b 256 && are_bytes bs

are_bytes-IsBytes : (bs : List ℕ) → are_bytes bs ≡ true → IsBytes bs
unfolding are_bytes
are_bytes-IsBytes [] h = tt
are_bytes-IsBytes (b ∷ bs) h = (ground arith, are_bytes-IsBytes bs (ground arith))

abbrev sixteen : List ℕ
sixteen = 0 ∷ 1 ∷ 2 ∷ 3 ∷ 4 ∷ 5 ∷ 6 ∷ 7 ∷ 8 ∷ 9 ∷ 10 ∷ 11 ∷ 12 ∷ 13 ∷ 14 ∷ 255 ∷ []

abbrev request : TemplateRequest
request = record { request_id = sixteen; source = 104 ∷ 105 ∷ []; context = 7 ∷ [] }

abbrev frame : List ℕ
frame =
    (67 ∷ 84 ∷ 87 ∷ 82 ∷ 0 ∷ 1 ∷ sixteen) ++ (0 ∷ 0 ∷ 0 ∷ 2 ∷ 0 ∷ 0 ∷ 0 ∷ 1 ∷ 104 ∷ 105 ∷ 7 ∷ [])

decode_request-ok_iff_example :
    (decode_request frame ≡ ok request) ↔ (IsRequest request × (encode_request request ≡ ok frame))
decode_request-ok_iff_example =
    decode_request-ok_iff frame request (unfold are_bytes in are_bytes-IsBytes frame refl)

request_is_read : decode_request frame ≡ ok request
unfolding decode_request frame_id request_sizes request_payload read_array checked_sum
request_is_read = refl

byte_too_many : decode_request (frame ++ 0 ∷ []) ≡ err length_mismatch
unfolding decode_request frame_id request_sizes request_payload read_array checked_sum
byte_too_many = refl

-- The diagnostic is a text of two characters, "é!".
abbrev refusal : WorkerResponse
refusal = rejected sixteen (some (195 ∷ 169 ∷ 33 ∷ []))

abbrev refusal_frame : List ℕ
refusal_frame = (67 ∷ 84 ∷ 87 ∷ 83 ∷ 0 ∷ 1 ∷ sixteen) ++ (1 ∷ 0 ∷ 0 ∷ 0 ∷ 3 ∷ 195 ∷ 169 ∷ 33 ∷ [])

decode_response-ok_iff_example :
    (decode_response refusal_frame ≡ ok refusal)
    ↔ (IsResponse refusal × (encode_response refusal ≡ ok refusal_frame))
decode_response-ok_iff_example =
    decode_response-ok_iff refusal_frame refusal
      (unfold are_bytes in are_bytes-IsBytes refusal_frame refl)

refusal_is_read : decode_response refusal_frame ≡ ok refusal
unfolding decode_response frame_id read_array checked_sum utf8_from
refusal_is_read = refl

-- The same frame with the character cut in the middle.
broken_text :
    decode_response ((67 ∷ 84 ∷ 87 ∷ 83 ∷ 0 ∷ 1 ∷ sixteen) ++ (1 ∷ 0 ∷ 0 ∷ 0 ∷ 2 ∷ 195 ∷ 33 ∷ []))
    ≡ err diagnostic_rejected
unfolding decode_response frame_id read_array checked_sum utf8_from
broken_text = refl
