-- ===== src/Template/Response/Accepted.antt =====
-- The responses that a decoder finds, against the encoder.
use caly.Base.{
  ℕ, ◌≤◌, ◌≡◌, refl, ap, sym, ◌∙◌, ◌↔◌, inl, inr, subst, true, Option, some, List, [], ◌∷◌, length,
  length-drop, drop, ltb, not, ◌==◌, ==→eq, arith, Bool-cases,
}
use caly.Base.Result.{ok, ◌>>=◌}
use caly.Template.{
  WorkerResponse, rendered, rejected, response_magic, frame_version, u16_bytes, u32_bytes,
  from_be_bytes, checked_sum, read_array, bounded, encode_response, decode_response,
  diagnostic_bytes, diagnostic_of, response_of, byte_at, is_utf8, frame_id, refuse_if,
  max_template_output_bytes, output_too_large, length_mismatch, diagnostic_rejected,
}
use caly.Template.Header.{frame_id-ok, rejoin}
use caly.Template.Slices.{
  IsBytes, take-IsBytes, drop-IsBytes, u32_bytes-from_be, refuse_if-ok, >>=_ok, read_array-ok,
  checked_sum-ok, bounded-ok, ok_inj,
}
use caly.Template.Response.{
  id_of, status_of, payload_of, IsDiagnostic, HasPayload, IsResponse, response_frame,
  encode_response-frame, take_one, response_frame-Fields, decode_response-Fields,
}

-- What a response that was read tells of the identity, the status and the payload.
abbrev Told : ℕ → List ℕ → List ℕ → WorkerResponse → Type 0
Told status id payload r =
    (id_of r ≡ id) × (status_of r ≡ status) × (payload_of r ≡ payload) × HasPayload r

diagnostic_of-ok :
    (payload : List ℕ) (d : Option (List ℕ))
    → is_utf8 payload ≡ true
    → diagnostic_of payload ≡ ok d
    → (diagnostic_bytes d ≡ payload) × IsDiagnostic d
diagnostic_of-ok [] d u h =
    subst (λ o. (diagnostic_bytes o ≡ []) × IsDiagnostic o) (ok_inj h) (refl, tt)
diagnostic_of-ok (b ∷ bs) d u h = elim (Bool-cases (ltb 1024 (length (b ∷ bs)))) [
  | inl over ↦ ground arith
  | inr fits ↦
      let made : some (b ∷ bs) ≡ d = ok_inj (rw fits at h) in
      let small : length (b ∷ bs) ≤ 1024 = ground arith in
      subst (λ o. (diagnostic_bytes o ≡ b ∷ bs) × IsDiagnostic o) made
        (refl, (omega arith, small, u))
]

rendered_response :
    (id payload : List ℕ) (r : WorkerResponse)
    → (bounded max_template_output_bytes output_too_large payload >>= λ output.
        ok (rendered id output))
      ≡ ok r
    → Told 0 id payload r
rendered_response id payload r h =
    let (output, e, h1) =
      >>=_ok (bounded max_template_output_bytes output_too_large payload)
        (λ output. ok (rendered id output)) r h in
    let (same, fits) = bounded-ok _ output_too_large payload output e in
    subst (Told 0 id payload) (ok_inj h1) (refl, refl, same, fits)

rejected_response :
    (id payload : List ℕ) (r : WorkerResponse)
    → (refuse_if (not (is_utf8 payload)) diagnostic_rejected >>= λ _.
        (diagnostic_of payload >>= λ d. ok (rejected id d)))
      ≡ ok r
    → Told 1 id payload r
rejected_response id payload r h =
    let (_, u, h1) = >>=_ok (refuse_if (not (is_utf8 payload)) diagnostic_rejected) _ r h in
    let (d, e, h2) = >>=_ok (diagnostic_of payload) (λ d. ok (rejected id d)) r h1 in
    let refused = refuse_if-ok _ diagnostic_rejected _ u in
    let (same, fits) = diagnostic_of-ok payload d (ground arith) e in
    subst (Told 1 id payload) (ok_inj h2) (refl, refl, same, fits)

response_of-ok :
    (status : ℕ) (id payload : List ℕ) (r : WorkerResponse)
    → response_of status id payload ≡ ok r
    → Told status id payload r
response_of-ok status id payload r h = elim (Bool-cases (status == 0)) [
  | inl zero_status ↦
      subst (λ k. Told k id payload r) (sym (==→eq status 0 zero_status))
        (rendered_response id payload r (rw zero_status at h))
  | inr other ↦ elim (Bool-cases (status == 1)) [
    | inl one ↦
        subst (λ k. Told k id payload r) (sym (==→eq status 1 one))
          (rejected_response id payload r (rw (other, one) at h))
    | inr unknown ↦ cc (rw (other, unknown) at h)
  ]
]

-- A frame that the decoder accepts is the frame of the response that it finds.
decode_response-frame :
    (frame : List ℕ) (r : WorkerResponse)
    → IsBytes frame
    → decode_response frame ≡ ok r
    → IsResponse r × (response_frame (id_of r) (status_of r) (payload_of r) ≡ frame)
unfolding decode_response
decode_response-frame frame r bytes h =
    let (id, id_e, h1) = >>=_ok (frame_id 27 response_magic frame) _ r h in
    let (size, size_e, h2) = >>=_ok (read_array 4 23 frame) _ r h1 in
    let sn = from_be_bytes size in
    let (end, end_e, h3) = >>=_ok (checked_sum 27 sn) _ r h2 in
    let (_, all, h4) = >>=_ok (refuse_if (not (end == length frame)) length_mismatch) _ r h3 in
    let (magic, version, id_read, id16) = frame_id-ok 27 response_magic frame id bytes id_e in
    let (size_read, size4) = read_array-ok 4 23 frame size size_e in
    let sum = checked_sum-ok 27 sn end end_e in
    let whole = refuse_if-ok _ length_mismatch _ all in
    let n : end ≡ length frame = ==→eq end (length frame) (ground arith) in
    let rest = length-drop 27 frame in
    let (same_id, same_status, same_payload, has) =
      response_of-ok (byte_at 22 frame) id (drop 27 frame) r h4 in
    let n_payload : length (payload_of r) ≡ sn = ap length same_payload ∙ omega arith in
    let size_bytes =
      subst IsBytes (sym size_read)
        (take-IsBytes 4 (drop 23 frame) (drop-IsBytes 23 frame bytes)) in
    let at23 =
      rejoin 4 23 (u32_bytes (length (payload_of r))) _ frame
        (ap u32_bytes n_payload ∙ u32_bytes-from_be size size4 size_bytes ∙ size_read)
        same_payload in
    let at22 =
      rejoin 1 22 (status_of r ∷ []) _ frame
        (ap (λ k. k ∷ []) same_status ∙ sym (take_one 22 frame (omega arith))) at23 in
    let at6 = rejoin 16 6 (id_of r) _ frame (same_id ∙ id_read) at22 in
    let at4 = rejoin 2 4 (u16_bytes frame_version) _ frame (sym version) at6 in
    ((ap length same_id ∙ id16, has), rejoin 4 0 response_magic _ frame (sym magic) at4)

-- A frame of bytes is accepted as a response that its types admit exactly where it is the frame that
-- the encoder makes of that response.
pub decode_response-ok_iff :
    (frame : List ℕ) (r : WorkerResponse)
    → IsBytes frame
    → (decode_response frame ≡ ok r) ↔ (IsResponse r × (encode_response r ≡ ok frame))
decode_response-ok_iff frame r bytes = (
  λ h.
      let (fits, same) = decode_response-frame frame r bytes h in
      (fits, encode_response-frame r fits ∙ ap ok same),
  λ h.
      let (fits, e) = h in
      let same = ok_inj (sym (encode_response-frame r fits) ∙ e) in
      subst (λ f. decode_response f ≡ ok r) same
        (decode_response-Fields (response_frame (id_of r) (status_of r) (payload_of r)) r fits.1
          (response_frame-Fields (id_of r) (status_of r) (payload_of r) fits.0)),
)
