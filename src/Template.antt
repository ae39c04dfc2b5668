-- ===== src/Template.antt =====
-- crates/caly-template/src/framing.rs, with the bounds of lib.rs: the frames between the daemon and
-- its template worker. Bytes are numbers, and a text is the list of its UTF-8 bytes.
pub mod Slices
pub mod Header
pub mod Request
pub mod Response
mod Tests
use caly.Base.{
  ℕ, zero, suc, ◌+◌, ◌-◌, ◌*◌, ◌/◌, ◌%◌, ◌^◌, Bool, true, false, not, ◌&&◌, Option, none, some,
  List, [], ◌∷◌, ◌++◌, length, take, drop, ltb, leb, ◌==◌, if◌then◌else◌,
}
use caly.Base.Result.{Result, ok, err, ok_or, ◌>>=◌}

abbrev pub max_template_source_bytes : ℕ
max_template_source_bytes = 4194304

abbrev pub max_template_context_bytes : ℕ
max_template_context_bytes = 16777216

abbrev pub max_template_output_bytes : ℕ
max_template_output_bytes = 16777216

-- The bytes of "CTWR" and "CTWS".
abbrev pub request_magic : List ℕ
request_magic = 67 ∷ 84 ∷ 87 ∷ 82 ∷ []

abbrev pub response_magic : List ℕ
response_magic = 67 ∷ 84 ∷ 87 ∷ 83 ∷ []

abbrev pub frame_version : ℕ
frame_version = 1

abbrev pub request_header_bytes : ℕ
request_header_bytes = 30

abbrev pub response_header_bytes : ℕ
response_header_bytes = 27

pub record TemplateRequest : Type 0 where
  pub request_id : List ℕ
  pub source : List ℕ
  pub context : List ℕ

pub data WorkerResponse : Type 0 where
  rendered : (request_id output : List ℕ) → WorkerResponse
  rejected : (request_id : List ℕ) (diagnostic : Option (List ℕ)) → WorkerResponse

pub data FrameError : Type 0 where
  too_short invalid_magic unsupported_version invalid_status length_overflow : FrameError
  length_mismatch source_too_large context_too_large output_too_large : FrameError
  diagnostic_rejected : FrameError

-- An early return of an error.
abbrev pub refuse_if : Bool → FrameError → Result FrameError (Unit {0})
refuse_if refused e = if refused then err e else ok tt

abbrev pub same_bytes : List ℕ → List ℕ → Bool
same_bytes [] [] = true
same_bytes (x ∷ xs) (y ∷ ys) = (x == y) && same_bytes xs ys
same_bytes _ _ = false

-- `to_be_bytes` of a u16 and of a u32, and `from_be_bytes`.
unfoldable pub u16_bytes : ℕ → List ℕ
u16_bytes n = n / 256 % 256 ∷ n % 256 ∷ []

unfoldable pub u32_bytes : ℕ → List ℕ
u32_bytes n = n / 16777216 % 256 ∷ n / 65536 % 256 ∷ n / 256 % 256 ∷ n % 256 ∷ []

abbrev pub from_be : ℕ → List ℕ → ℕ
from_be acc [] = acc
from_be acc (b ∷ bs) = from_be (256 * acc + b) bs

abbrev pub from_be_bytes : List ℕ → ℕ
from_be_bytes bs = from_be 0 bs

-- `u32::try_from` of a length.
unfoldable pub u32_length : ℕ → Result FrameError ℕ
u32_length n = if ltb (2 ^ 32 - 1) n then err length_overflow else ok n

-- `usize::checked_add`, with its error.
unfoldable pub checked_sum : ℕ → ℕ → Result FrameError ℕ
checked_sum a b = if ltb (2 ^ 64 - 1) (a + b) then err length_overflow else ok (a + b)

-- `read_array` of `n` bytes.
unfoldable pub read_array : ℕ → ℕ → List ℕ → Result FrameError (List ℕ)
read_array n offset frame =
    if leb (offset + n) (length frame) then ok (take n (drop offset frame)) else err too_short

-- `BoundedVec::try_from_vec`, with its error.
abbrev pub bounded : ℕ → FrameError → List ℕ → Result FrameError (List ℕ)
bounded max e bytes = if ltb max (length bytes) then err e else ok bytes

unfoldable pub encode_request : TemplateRequest → Result FrameError (List ℕ)
encode_request r = do
  source_len ← u32_length (length r.source)
  context_len ← u32_length (length r.context)
  partial_sum ← checked_sum request_header_bytes (length r.source)
  capacity ← checked_sum partial_sum (length r.context)
  ok (
      request_magic
      ++ (u16_bytes frame_version
          ++ (r.request_id
              ++ (u32_bytes source_len ++ (u32_bytes context_len ++ (r.source ++ r.context))))))

-- The checks with which both decoders begin, and the identity behind them.
unfoldable pub frame_id : ℕ → List ℕ → List ℕ → Result FrameError (List ℕ)
frame_id header_bytes magic frame = do
  _ ← refuse_if (ltb (length frame) header_bytes) too_short
  _ ← refuse_if (not (same_bytes (take 4 frame) magic)) invalid_magic
  version ← read_array 2 4 frame
  _ ← refuse_if (not (from_be_bytes version == frame_version)) unsupported_version
  read_array 16 6 frame

-- The two sizes that a request's header announces.
unfoldable pub request_sizes : List ℕ → Result FrameError (ℕ × ℕ)
request_sizes frame = do
  source_len ← read_array 4 22 frame
  context_len ← read_array 4 26 frame
  _ ← refuse_if (ltb max_template_source_bytes (from_be_bytes source_len)) source_too_large
  _ ← refuse_if (ltb max_template_context_bytes (from_be_bytes context_len)) context_too_large
  ok (from_be_bytes source_len, from_be_bytes context_len)

-- The two payloads behind the header.
unfoldable pub request_payload : List ℕ → List ℕ → ℕ × ℕ → Result FrameError TemplateRequest
request_payload frame request_id sizes = do
  source_end ← checked_sum request_header_bytes sizes.0
  frame_end ← checked_sum source_end sizes.1
  _ ← refuse_if (not (frame_end == length frame)) length_mismatch
  source ←
      bounded max_template_source_bytes source_too_large
        (take (source_end - request_header_bytes) (drop request_header_bytes frame))
  context ←
      bounded max_template_context_bytes context_too_large
        (take (frame_end - source_end) (drop source_end frame))
  ok (record { request_id = request_id; source = source; context = context })

unfoldable pub decode_request : List ℕ → Result FrameError TemplateRequest
decode_request frame = do
  request_id ← frame_id request_header_bytes request_magic frame
  sizes ← request_sizes frame
  request_payload frame request_id sizes

-- How many continuation bytes follow a first byte of UTF-8, and the bounds of the next one; none for
-- a byte that starts no character.
abbrev pub utf8_lead : ℕ → Option (ℕ × ℕ × ℕ)
utf8_lead b =
    if ltb b 0x80
    then some (0, 0x80, 0xBF)
    else (if ltb b 0xC2
        then none
        else (if ltb b 0xE0
            then some (1, 0x80, 0xBF)
            else (if b == 0xE0
                then some (2, 0xA0, 0xBF)
                else (if b == 0xED
                    then some (2, 0x80, 0x9F)
                    else (if ltb b 0xF0
                        then some (2, 0x80, 0xBF)
                        else (if b == 0xF0
                            then some (3, 0x90, 0xBF)
                            else (if ltb b 0xF4
                                then some (3, 0x80, 0xBF)
                                else (if b == 0xF4 then some (3, 0x80, 0x8F) else none))))))))

-- Where `n` continuation bytes are due, the first of them between `lo` and `hi`.
unfoldable pub utf8_from : ℕ → ℕ → ℕ → List ℕ → Bool
utf8_from zero lo hi [] = true
utf8_from (suc n) lo hi [] = false
utf8_from zero lo hi (b ∷ bs) = elim (utf8_lead b) [
  | none ↦ false
  | some due ↦ utf8_from due.0 due.1 due.2 bs
]
utf8_from (suc n) lo hi (b ∷ bs) = leb lo b && leb b hi && utf8_from n 0x80 0xBF bs

-- `str::from_utf8` accepts the bytes.
abbrev pub is_utf8 : List ℕ → Bool
is_utf8 bs = utf8_from 0 0x80 0xBF bs

unfoldable pub encode_response_payload : List ℕ → ℕ → List ℕ → Result FrameError (List ℕ)
encode_response_payload request_id status payload = do
  _ ← refuse_if ((status == 0) && ltb max_template_output_bytes (length payload)) output_too_large
  size ← u32_length (length payload)
  ok (
      response_magic
      ++ (u16_bytes frame_version ++ (request_id ++ (status ∷ [] ++ (u32_bytes size ++ payload)))))

abbrev pub diagnostic_bytes : Option (List ℕ) → List ℕ
diagnostic_bytes none = []
diagnostic_bytes (some text) = text

unfoldable pub encode_response : WorkerResponse → Result FrameError (List ℕ)
encode_response (rendered request_id output) = encode_response_payload request_id 0 output
encode_response (rejected request_id diagnostic) =
    encode_response_payload request_id 1 (diagnostic_bytes diagnostic)

-- The text of a diagnostic: none where it is empty, and at most 1024 bytes.
abbrev pub diagnostic_of : List ℕ → Result FrameError (Option (List ℕ))
diagnostic_of [] = ok none
diagnostic_of (b ∷ bs) =
    if ltb 1024 (length (b ∷ bs)) then err diagnostic_rejected else ok (some (b ∷ bs))

-- The `match` on the status byte.
abbrev pub response_of : ℕ → List ℕ → List ℕ → Result FrameError WorkerResponse
response_of status request_id payload =
    if status == 0
    then (do
      output ← bounded max_template_output_bytes output_too_large payload
      ok (rendered request_id output))
    else (if status == 1
        then (do
          _ ← refuse_if (not (is_utf8 payload)) diagnostic_rejected
          diagnostic ← diagnostic_of payload
          ok (rejected request_id diagnostic))
        else err invalid_status)

-- The byte at an index that the length check admits.
abbrev pub byte_at : ℕ → List ℕ → ℕ
byte_at n [] = 0
byte_at zero (b ∷ bs) = b
byte_at (suc n) (b ∷ bs) = byte_at n bs

unfoldable pub decode_response : List ℕ → Result FrameError WorkerResponse
decode_response frame = do
  request_id ← frame_id response_header_bytes response_magic frame
  size ← read_array 4 23 frame
  end ← checked_sum response_header_bytes (from_be_bytes size)
  _ ← refuse_if (not (end == length frame)) length_mismatch
  response_of (byte_at 22 frame) request_id (drop response_header_bytes frame)
