-- ===== src/Template/Request/Accepted.antt =====
-- The requests that a decoder finds, against the encoder.
use caly.Base.{
  ℕ, ◌+◌, ◌-◌, ◌≤◌, ◌≡◌, ap, sym, ◌∙◌, ◌↔◌, subst, List, length, take, drop, take_all, length-take,
  length-drop, ltb, not, ◌==◌, ==→eq, arith,
}
use caly.Base.Result.{ok}
use caly.Template.{
  TemplateRequest, request_magic, frame_version, u16_bytes, u32_bytes, from_be_bytes, checked_sum,
  read_array, bounded, encode_request, decode_request, frame_id, request_sizes, request_payload,
  source_too_large, context_too_large, max_template_source_bytes, max_template_context_bytes,
  refuse_if, length_mismatch,
}
use caly.Template.Header.{frame_id-ok, rejoin}
use caly.Template.Slices.{
  IsBytes, take-IsBytes, drop-IsBytes, u32_bytes-from_be, refuse_if-ok, >>=_ok, read_array-ok,
  checked_sum-ok, bounded-ok, ok_inj,
}
use caly.Template.Request.{
  IsRequest, request_frame, encode_request-frame, request_frame-Fields, decode_request-Fields,
}

-- What the payloads' decoder has checked.
request_payload-ok :
    (frame id : List ℕ) (sn cn : ℕ) (r : TemplateRequest)
    → request_payload frame id (sn, cn) ≡ ok r
    → (id ≡ r.request_id)
      × (30 + sn + cn ≡ length frame)
      × (r.source ≡ take sn (drop 30 frame))
      × (r.context ≡ take cn (drop (30 + sn) frame))
unfolding request_payload
request_payload-ok frame id sn cn r h =
    let (source_end, end_e, h1) = >>=_ok (checked_sum 30 sn) _ r h in
    let (frame_end, frame_e, h2) = >>=_ok (checked_sum source_end cn) _ r h1 in
    let (_, whole, h3) =
      >>=_ok (refuse_if (not (frame_end == length frame)) length_mismatch) _ r h2 in
    let source_bytes = take (source_end - 30) (drop 30 frame) in
    let (source, source_e, h4) =
      >>=_ok (bounded max_template_source_bytes source_too_large source_bytes) _ r h3 in
    let context_bytes = take (frame_end - source_end) (drop source_end frame) in
    let (context, context_e, h5) =
      >>=_ok (bounded max_template_context_bytes context_too_large context_bytes) _ r h4 in
    let end = checked_sum-ok 30 sn source_end end_e in
    let frame_sum = checked_sum-ok source_end cn frame_end frame_e in
    let n_source : source_end - 30 ≡ sn = omega arith in
    let n_context : frame_end - source_end ≡ cn = omega arith in
    let made : record { request_id = id; source = source; context = context } ≡ r = ok_inj h5 in
    let all_read = refuse_if-ok _ length_mismatch _ whole in
    (
      ap (λ q. q.request_id) made,
      sym (frame_sum ∙ ap (λ n. n + cn) end) ∙ ==→eq frame_end (length frame) (ground arith),
      sym (ap (λ q. q.source) made)
          ∙ (bounded-ok _ source_too_large source_bytes source source_e).0
          ∙ ap (λ n. take n (drop 30 frame)) n_source,
      sym (ap (λ q. q.context) made)
          ∙ (bounded-ok _ context_too_large context_bytes context context_e).0
          ∙ ap (λ n. take n (drop source_end frame)) n_context
          ∙ ap (λ n. take cn (drop n frame)) end,
    )

-- What the sizes' decoder has checked.
request_sizes-ok :
    (frame : List ℕ) (sizes : ℕ × ℕ)
    → IsBytes frame
    → request_sizes frame ≡ ok sizes
    → (u32_bytes sizes.0 ≡ take 4 (drop 22 frame))
      × (u32_bytes sizes.1 ≡ take 4 (drop 26 frame))
      × (sizes.0 ≤ max_template_source_bytes)
      × (sizes.1 ≤ max_template_context_bytes)
unfolding request_sizes
request_sizes-ok frame sizes bytes h =
    let (sl, sl_e, h1) = >>=_ok (read_array 4 22 frame) _ sizes h in
    let (cl, cl_e, h2) = >>=_ok (read_array 4 26 frame) _ sizes h1 in
    let sn = from_be_bytes sl in
    let cn = from_be_bytes cl in
    let (_, s_small, h3) =
      >>=_ok (refuse_if (ltb max_template_source_bytes sn) source_too_large) _ sizes h2 in
    let (_, c_small, h4) =
      >>=_ok (refuse_if (ltb max_template_context_bytes cn) context_too_large) _ sizes h3 in
    let (s, s4) = read_array-ok 4 22 frame sl sl_e in
    let (c, c4) = read_array-ok 4 26 frame cl cl_e in
    let made : (sn, cn) ≡ sizes = ok_inj h4 in
    let s_bytes =
      subst IsBytes (sym s) (take-IsBytes 4 (drop 22 frame) (drop-IsBytes 22 frame bytes)) in
    let c_bytes =
      subst IsBytes (sym c) (take-IsBytes 4 (drop 26 frame) (drop-IsBytes 26 frame bytes)) in
    let s_fits = refuse_if-ok _ source_too_large _ s_small in
    let c_fits = refuse_if-ok _ context_too_large _ c_small in
    let s_bound : sn ≤ max_template_source_bytes = ground arith in
    let c_bound : cn ≤ max_template_context_bytes = ground arith in
    (
      ap (λ q. u32_bytes q.0) (sym made) ∙ u32_bytes-from_be sl s4 s_bytes ∙ s,
      ap (λ q. u32_bytes q.1) (sym made) ∙ u32_bytes-from_be cl c4 c_bytes ∙ c,
      subst (λ q. q.0 ≤ max_template_source_bytes) made s_bound,
      subst (λ q. q.1 ≤ max_template_context_bytes) made c_bound,
    )

-- A frame that the decoder accepts is the frame of the request that it finds.
decode_request-frame :
    (frame : List ℕ) (r : TemplateRequest)
    → IsBytes frame
    → decode_request frame ≡ ok r
    → IsRequest r × (request_frame r ≡ frame)
unfolding decode_request
decode_request-frame frame r bytes h =
    let (id, id_e, h1) = >>=_ok (frame_id 30 request_magic frame) _ r h in
    let ((sn, cn), sizes_e, h2) = >>=_ok (request_sizes frame) _ r h1 in
    let (magic, version, id_read, id16) = frame_id-ok 30 request_magic frame id bytes id_e in
    let (source_size, context_size, s_bound, c_bound) =
      request_sizes-ok frame (sn, cn) bytes sizes_e in
    let (same_id, whole, source, context) = request_payload-ok frame id sn cn r h2 in
    let rest = length-drop 30 frame in
    let rest' = length-drop (30 + sn) frame in
    let n_s : length r.source ≡ sn =
      ap length source ∙ length-take sn (drop 30 frame) (omega arith) in
    let n_rest : length (drop (30 + sn) frame) ≡ cn = omega arith in
    let context' : r.context ≡ drop (30 + sn) frame =
      context
      ∙ ap (λ n. take n (drop (30 + sn) frame)) (sym n_rest)
      ∙ take_all (drop (30 + sn) frame) in
    let n_c : length r.context ≡ cn = ap length context' ∙ n_rest in
    let at30 = rejoin sn 30 r.source r.context frame source context' in
    let at26 =
      rejoin 4 26 (u32_bytes (length r.context)) _ frame (ap u32_bytes n_c ∙ context_size) at30 in
    let at22 =
      rejoin 4 22 (u32_bytes (length r.source)) _ frame (ap u32_bytes n_s ∙ source_size) at26 in
    let at6 = rejoin 16 6 r.request_id _ frame (sym same_id ∙ id_read) at22 in
    let at4 = rejoin 2 4 (u16_bytes frame_version) _ frame (sym version) at6 in
    (
      (ap length (sym same_id) ∙ id16, rw n_s s_bound, rw n_c c_bound),
      rejoin 4 0 request_magic _ frame (sym magic) at4,
    )

-- A frame of bytes is accepted as a request of the right sizes exactly where it is the frame that
-- the encoder makes of that request: the request comes back as it was, and no other frame, cut short,
-- extended or with a wrong header, is accepted.
pub decode_request-ok_iff :
    (frame : List ℕ) (r : TemplateRequest)
    → IsBytes frame
    → (decode_request frame ≡ ok r) ↔ (IsRequest r × (encode_request r ≡ ok frame))
decode_request-ok_iff frame r bytes = (
  λ h.
      let (fits, same) = decode_request-frame frame r bytes h in
      (fits, encode_request-frame r fits ∙ ap ok same),
  λ h.
      let (fits, e) = h in
      let same = ok_inj (sym (encode_request-frame r fits) ∙ e) in
      ap decode_request (sym same)
      ∙ decode_request-Fields (request_frame r) r fits (request_frame-Fields r fits),
)
