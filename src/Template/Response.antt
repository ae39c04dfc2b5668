-- ===== src/Template/Response.antt =====
-- The frames of responses: the fields of the frame that the encoder makes.
pub mod Accepted
use caly.Base.{
  ℕ, zero, suc, ◌+◌, ◌-◌, ◌^◌, ◌≤◌, ◌<◌, ◌≡◌, refl, ap, sym, ◌∙◌, ◌↔◌, inl, inr, subst, true, false,
  Option, none, some, List, [], ◌∷◌, ◌++◌, length, length-append, length-drop, take, drop, ltb, not,
  ◌==◌, ◌&&◌, ==→eq, arith, Bool-cases,
}
use caly.Base.Result.{Result, ok, err, ◌>>=◌}
use mathlib.Core.List.{append_assoc}
use caly.Template.{
  WorkerResponse, rendered, rejected, FrameError, response_magic, frame_version, u16_bytes,
  u32_bytes, from_be_bytes, u32_length, checked_sum, read_array, bounded, encode_response,
  encode_response_payload, decode_response, diagnostic_bytes, diagnostic_of, response_of, byte_at,
  is_utf8, utf8_from, frame_id, refuse_if, max_template_output_bytes, output_too_large,
  length_mismatch, diagnostic_rejected,
}
use caly.Template.Header.{frame_id-ok, rejoin}
use caly.Template.Slices.{
  IsBytes, take-IsBytes, drop-IsBytes, from_be-u32_bytes, u32_bytes-from_be, refuse_if-ok, >>=_ok,
  read_array-ok, read_array_at, drop_at, checked_sum-small, checked_sum-ok, bounded-ok,
  bounded-small, ok_inj,
}

-- The identity, status and payload that a response is sent as.
abbrev pub id_of : WorkerResponse → List ℕ
id_of (rendered id _) = id
id_of (rejected id _) = id

abbrev pub status_of : WorkerResponse → ℕ
status_of (rendered _ _) = 0
status_of (rejected _ _) = 1

abbrev pub payload_of : WorkerResponse → List ℕ
payload_of (rendered _ output) = output
payload_of (rejected _ diagnostic) = diagnostic_bytes diagnostic

-- What the types of a diagnostic and of an output say of them.
abbrev pub IsDiagnostic : Option (List ℕ) → Type 0
IsDiagnostic none = Unit {0}
IsDiagnostic (some text) = (1 ≤ length text) × (length text ≤ 1024) × (is_utf8 text ≡ true)

abbrev pub HasPayload : WorkerResponse → Type 0
HasPayload (rendered _ output) = length output ≤ max_template_output_bytes
HasPayload (rejected _ diagnostic) = IsDiagnostic diagnostic

abbrev pub IsResponse : WorkerResponse → Type 0
IsResponse r = (length (id_of r) ≡ 16) × HasPayload r

abbrev response_frame : List ℕ → ℕ → List ℕ → List ℕ
response_frame id status payload =
    response_magic
    ++ (u16_bytes frame_version ++ (id ++ (status ∷ [] ++ (u32_bytes (length payload) ++ payload))))

payload_bound :
    (r : WorkerResponse) → HasPayload r → length (payload_of r) ≤ max_template_output_bytes
payload_bound (rendered id output) h = h
payload_bound (rejected id none) h = omega arith
payload_bound (rejected id (some text)) h = omega (arith, h.1)

encode_response-frame :
    (r : WorkerResponse)
    → IsResponse r
    → encode_response r ≡ ok (response_frame (id_of r) (status_of r) (payload_of r))
unfolding encode_response encode_response_payload u32_length
encode_response-frame (rendered id output) (n, h) =
    let a : ltb max_template_output_bytes (length output) ≡ false = ground arith in
    let b : ltb (2 ^ 32 - 1) (length output) ≡ false = ground arith in rw (a, b)
encode_response-frame (rejected id diagnostic) (n, h) =
    let bound = payload_bound (rejected id diagnostic) h in
    let b : ltb (2 ^ 32 - 1) (length (diagnostic_bytes diagnostic)) ≡ false = ground arith in rw b

byte_at-append : (pre post : List ℕ) (b : ℕ) → byte_at (length pre) (pre ++ b ∷ post) ≡ b
byte_at-append [] post b = refl
byte_at-append (x ∷ pre) post b = byte_at-append pre post b

take_one :
    (n : ℕ) (frame : List ℕ) → n < length frame → take 1 (drop n frame) ≡ byte_at n frame ∷ []
take_one n [] h = absurd (omega arith)
take_one zero (b ∷ bs) h = refl
take_one (suc n) (b ∷ bs) h = take_one n bs (omega arith)

response_of-sent :
    (r : WorkerResponse) → HasPayload r → response_of (status_of r) (id_of r) (payload_of r) ≡ ok r
unfolding utf8_from
response_of-sent (rendered id output) h = rw (bounded-small _ output_too_large output h)
response_of-sent (rejected id none) h = unfold utf8_from in refl
response_of-sent (rejected id (some [])) h = absurd (omega (arith, h.0))
response_of-sent (rejected id (some (b ∷ bs))) (p, n, u) =
    let fits : ltb 1024 (length (b ∷ bs)) ≡ false = ground arith in rw (u, fits)

-- The fields that a response's frame holds at the offsets of the decoder.
record Fields (frame id : List ℕ) (status : ℕ) (payload : List ℕ) : Type 0 where
  pub total : length frame ≡ 27 + length payload
  pub magic : take 4 frame ≡ response_magic
  pub version : read_array 2 4 frame ≡ ok (0 ∷ 1 ∷ [])
  pub id_field : read_array 16 6 frame ≡ ok id
  pub status_field : byte_at 22 frame ≡ status
  pub size_field : read_array 4 23 frame ≡ ok (u32_bytes (length payload))
  pub payload_field : drop 27 frame ≡ payload

response_frame-Fields :
    (id : List ℕ) (status : ℕ) (payload : List ℕ)
    → length id ≡ 16
    → Fields (response_frame id status payload) id status payload
unfolding u16_bytes u32_bytes
response_frame-Fields id status payload n =
    let size = u32_bytes (length payload) in
    let opening = response_magic ++ (0 ∷ 1 ∷ []) in
    let frame = response_frame id status payload in
    let at_size : frame ≡ (opening ++ (id ++ status ∷ [])) ++ (size ++ payload) =
      ap (◌++◌ opening) (sym (append_assoc id (status ∷ []) (size ++ payload))) in
    let at_payload : frame ≡ (opening ++ (id ++ (status ∷ [] ++ size))) ++ payload =
      ap (◌++◌ opening) (sym (append_assoc id (status ∷ [] ++ size) payload)) in
    let n_size = length-append id (status ∷ []) in
    let n_opening : length (opening ++ id) ≡ 22 = omega arith in
    let n_payload : length (opening ++ (id ++ (status ∷ [] ++ size))) ≡ 27 =
      omega (arith, length-append id (status ∷ [] ++ size)) in
    let n_frame =
      ap length at_payload ∙ length-append (opening ++ (id ++ (status ∷ [] ++ size))) payload in
    record {
      total = omega (arith, n_frame, n_payload);
      magic = refl;
      version = read_array_at 2 4 response_magic (0 ∷ 1 ∷ []) _ frame refl refl refl;
      id_field = read_array_at 16 6 opening id _ frame refl refl n;
      status_field =
          subst (λ k. byte_at k frame ≡ status) n_opening
            (byte_at-append (opening ++ id) (size ++ payload) status);
      size_field =
          read_array_at 4 23 (opening ++ (id ++ status ∷ [])) size payload frame at_size
            (omega arith) refl;
      payload_field =
          drop_at 27 (opening ++ (id ++ (status ∷ [] ++ size))) payload frame at_payload n_payload;
    }

decode_response-Fields :
    (frame : List ℕ) (r : WorkerResponse)
    → HasPayload r
    → Fields frame (id_of r) (status_of r) (payload_of r)
    → decode_response frame ≡ ok r
unfolding decode_response frame_id
decode_response-Fields frame r h f =
    let bound = payload_bound r h in
    let total = f.total in
    let long : ltb (length frame) 27 ≡ false = ground arith in
    let n = from_be-u32_bytes (length (payload_of r)) (omega arith) in
    let whole : ((27 + length (payload_of r)) == length frame) ≡ true = ground arith in
    rw
      (
        long,
        f.magic,
        f.version,
        f.id_field,
        f.size_field,
        n,
        checked_sum-small 27 (length (payload_of r)) (omega arith),
        whole,
        f.status_field,
        f.payload_field,
      )
      (response_of-sent r h)
