-- ===== src/Template/Request.antt =====
-- The frames of requests: the fields of the frame that the encoder makes.
pub mod Accepted
use caly.Base.{
  ℕ, ◌+◌, ◌-◌, ◌^◌, ◌≤◌, ◌<◌, ◌≡◌, refl, ap, sym, ◌∙◌, ◌↔◌, subst, true, false, List, [], ◌∷◌, ◌++◌,
  length, length-append, take, drop, drop-append_length, drop-drop, take-append_length, take_all,
  length-take, length-drop, ltb, not, ◌==◌, ==_refl, ==→eq, arith, if◌then◌else◌,
}
use caly.Base.Result.{Result, ok, err, ◌>>=◌}
use mathlib.Core.List.{append_assoc}
use caly.Template.{
  TemplateRequest, FrameError, request_magic, frame_version, request_header_bytes, u16_bytes,
  u32_bytes, from_be_bytes, u32_length, checked_sum, read_array, bounded, encode_request,
  decode_request, frame_id, request_sizes, request_payload, source_too_large, context_too_large,
  max_template_source_bytes, max_template_context_bytes, refuse_if, same_bytes, too_short,
  invalid_magic, unsupported_version, length_mismatch,
}
use caly.Template.Header.{frame_id-ok, rejoin}
use caly.Template.Slices.{
  IsBytes, take-IsBytes, drop-IsBytes, from_be-u32_bytes, u32_bytes-from_be, same_bytes→eq,
  refuse_if-ok, >>=_ok, read_array-ok, drop-split, read_array_at, drop_at, take_at,
  checked_sum-small, checked_sum-ok, bounded-ok, bounded-small, ok_inj,
}

-- What the types of a request's fields say of them.
abbrev pub IsRequest : TemplateRequest → Type 0
IsRequest r =
    (length r.request_id ≡ 16)
    × (length r.source ≤ max_template_source_bytes)
    × (length r.context ≤ max_template_context_bytes)

-- The frame of a request.
abbrev request_frame : TemplateRequest → List ℕ
request_frame r =
    request_magic
    ++ (u16_bytes frame_version
        ++ (r.request_id
            ++ (u32_bytes (length r.source)
                ++ (u32_bytes (length r.context) ++ (r.source ++ r.context)))))

encode_request-frame : (r : TemplateRequest) → IsRequest r → encode_request r ≡ ok (request_frame r)
unfolding encode_request u32_length
encode_request-frame r (i, s, c) =
    let a : ltb (2 ^ 32 - 1) (length r.source) ≡ false = ground arith in
    let b : ltb (2 ^ 32 - 1) (length r.context) ≡ false = ground arith in
    rw (
      a,
      b,
      checked_sum-small 30 (length r.source) (omega arith),
      checked_sum-small (30 + length r.source) (length r.context) (omega arith),
    )

-- The fields that a request's frame holds at the offsets of the decoder.
record Fields (frame : List ℕ) (r : TemplateRequest) : Type 0 where
  pub total : length frame ≡ 30 + (length r.source + length r.context)
  pub magic : take 4 frame ≡ request_magic
  pub version : read_array 2 4 frame ≡ ok (0 ∷ 1 ∷ [])
  pub id_field : read_array 16 6 frame ≡ ok r.request_id
  pub source_size : read_array 4 22 frame ≡ ok (u32_bytes (length r.source))
  pub context_size : read_array 4 26 frame ≡ ok (u32_bytes (length r.context))
  pub payload : drop 30 frame ≡ r.source ++ r.context

request_frame-Fields : (r : TemplateRequest) → IsRequest r → Fields (request_frame r) r
unfolding u16_bytes u32_bytes
request_frame-Fields r (i, s, c) =
    let sl = u32_bytes (length r.source) in
    let cl = u32_bytes (length r.context) in
    let opening = request_magic ++ (0 ∷ 1 ∷ []) in
    let body = r.source ++ r.context in
    let frame = request_frame r in
    let at_source : frame ≡ (opening ++ r.request_id) ++ (sl ++ (cl ++ body)) = refl in
    let at_context : frame ≡ (opening ++ (r.request_id ++ sl)) ++ (cl ++ body) =
      ap (◌++◌ opening) (sym (append_assoc r.request_id sl (cl ++ body))) in
    let at_body : frame ≡ (opening ++ (r.request_id ++ (sl ++ cl))) ++ body =
      ap (◌++◌ opening) (sym (append_assoc r.request_id (sl ++ cl) body)) in
    let n_body : length (opening ++ (r.request_id ++ (sl ++ cl))) ≡ 30 =
      omega (arith, length-append r.request_id (sl ++ cl)) in
    let n_opening = length-append r.request_id sl in
    let n_whole = length-append r.source r.context in
    let n_frame =
      ap length at_body ∙ length-append (opening ++ (r.request_id ++ (sl ++ cl))) body in
    record {
      total = omega (arith, n_frame, n_body, n_whole);
      magic = refl;
      version = read_array_at 2 4 request_magic (0 ∷ 1 ∷ []) _ frame refl refl refl;
      id_field = read_array_at 16 6 opening r.request_id _ frame refl refl i;
      source_size =
          read_array_at 4 22 (opening ++ r.request_id) sl _ frame at_source (omega arith) refl;
      context_size =
          read_array_at 4 26 (opening ++ (r.request_id ++ sl)) cl body frame at_context
            (omega arith) refl;
      payload = drop_at 30 (opening ++ (r.request_id ++ (sl ++ cl))) body frame at_body n_body;
    }

decode_request-Fields :
    (frame : List ℕ) (r : TemplateRequest)
    → IsRequest r
    → Fields frame r
    → decode_request frame ≡ ok r
unfolding decode_request frame_id request_sizes request_payload
decode_request-Fields frame r (i, s, c) f =
    let total = f.total in
    let long : ltb (length frame) 30 ≡ false = ground arith in
    let sn = from_be-u32_bytes (length r.source) (omega arith) in
    let cn = from_be-u32_bytes (length r.context) (omega arith) in
    let s_fits : ltb max_template_source_bytes (length r.source) ≡ false = ground arith in
    let c_fits : ltb max_template_context_bytes (length r.context) ≡ false = ground arith in
    let whole : ((30 + length r.source + length r.context) == length frame) ≡ true = ground arith in
    let cut_s : 30 + length r.source - 30 ≡ length r.source = omega arith in
    let cut_c : 30 + length r.source + length r.context - (30 + length r.source)
        ≡ length r.context =
      omega arith in
    let tail : drop (30 + length r.source) frame ≡ r.context =
      sym (drop-drop (length r.source) 30 frame)
      ∙ ap (drop (length r.source)) f.payload
      ∙ drop-append_length r.source r.context in
    rw (
      long,
      f.magic,
      f.version,
      f.id_field,
      f.source_size,
      f.context_size,
      sn,
      cn,
      s_fits,
      c_fits,
      checked_sum-small 30 (length r.source) (omega arith),
      checked_sum-small (30 + length r.source) (length r.context) (omega arith),
      whole,
      cut_s,
      cut_c,
      f.payload,
      tail,
      take-append_length r.source r.context,
      take_all r.context,
      s_fits,
      c_fits,
    )
