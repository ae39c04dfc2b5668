-- ===== src/Template/Header.antt =====
-- What the checks of a decoder's header establish of a frame that passed them.
use caly.Base.{
  ℕ, ◌+◌, ◌≡◌, sym, ◌∙◌, subst, not, List, [], ◌∷◌, ◌++◌, length, take, drop, ltb, ◌==◌, ==→eq,
  arith,
}
use caly.Base.Result.{ok}
use caly.Template.{
  refuse_if, same_bytes, frame_id, u16_bytes, frame_version, from_be_bytes, read_array, too_short,
  invalid_magic, unsupported_version,
}
use caly.Template.Slices.{
  IsBytes, take-IsBytes, drop-IsBytes, same_bytes→eq, refuse_if-ok, >>=_ok, read_array-ok,
  drop-split,
}

one_as_u16 :
    (bs : List ℕ) → length bs ≡ 2 → IsBytes bs → from_be_bytes bs ≡ 1 → bs ≡ u16_bytes frame_version
unfolding u16_bytes
one_as_u16 [] n h e = absurd (omega arith)
one_as_u16 (a ∷ []) n h e = absurd (omega arith)
one_as_u16 (a ∷ b ∷ []) n (ha, (hb, _)) e =
    let a0 : a ≡ 0 = omega arith in let b1 : b ≡ 1 = omega arith in rw (a0, b1)
one_as_u16 (a ∷ b ∷ c ∷ bs) n h e = absurd (omega arith)

-- A field and what lies behind it make up the frame from the field's offset on.
pub rejoin :
    (n o : ℕ) (bs post frame : List ℕ)
    → bs ≡ take n (drop o frame)
    → post ≡ drop (o + n) frame
    → bs ++ post ≡ drop o frame
rejoin n o bs post frame e f = rw (e, f) (drop-split n o frame)

pub frame_id-ok :
    (header_bytes : ℕ) (magic frame id : List ℕ)
    → IsBytes frame
    → frame_id header_bytes magic frame ≡ ok id
    → (take 4 frame ≡ magic)
      × (take 2 (drop 4 frame) ≡ u16_bytes frame_version)
      × (id ≡ take 16 (drop 6 frame))
      × (length id ≡ 16)
unfolding frame_id
frame_id-ok header_bytes magic frame id bytes h =
    let (_, long, h1) = >>=_ok (refuse_if (ltb (length frame) header_bytes) too_short) _ id h in
    let (_, seen, h2) =
      >>=_ok (refuse_if (not (same_bytes (take 4 frame) magic)) invalid_magic) _ id h1 in
    let (version, version_e, h3) = >>=_ok (read_array 2 4 frame) _ id h2 in
    let (_, one, h4) =
      >>=_ok (refuse_if (not (from_be_bytes version == 1)) unsupported_version) _ id h3 in
    let same = refuse_if-ok _ invalid_magic _ seen in
    let is_one = refuse_if-ok _ unsupported_version _ one in
    let (v, n) = read_array-ok 2 4 frame version version_e in
    (
      same_bytes→eq (take 4 frame) magic (ground arith),
      sym v
          ∙ one_as_u16 version n
              (subst IsBytes (sym v) (take-IsBytes 2 (drop 4 frame) (drop-IsBytes 4 frame bytes)))
              (==→eq (from_be_bytes version) 1 (ground arith)),
      (read_array-ok 16 6 frame id h4).0,
      (read_array-ok 16 6 frame id h4).1,
    )
