-- ===== src/Domain/Identity.antt =====
-- crates/caly-domain/src/identity.rs: 128-bit identities and their hexadecimal form. A string is the
-- list of its UTF-8 bytes, an identity the list of its 16 bytes.
use caly.Base.{
  ℕ, zero, suc, ◌+◌, ◌-◌, ◌*◌, ◌/◌, ◌%◌, ◌<◌, ◌≡◌, refl, sym, ap, ◌∙◌, Bool, true, ◌&&◌, Option,
  none, some, List, [], ◌∷◌, map, inl, inr, length, ltb, leb, ◌==◌, if◌then◌else◌, arith,
  Bool-cases, Option-cases,
}
use caly.Base.Result.{Result, Result-cases, ok, err, ◌>>=◌, ok_or}

abbrev pub id_bytes : ℕ
id_bytes = 16

abbrev pub id_hex_length : ℕ
id_hex_length = 32

pub data IdentityParseError : Type 0 where
  invalid_length invalid_hex : IdentityParseError

abbrev pub in_range : ℕ → ℕ → ℕ → Bool
in_range low high c = leb low c && leb c high

-- `hex_nibble`, on `0..9`, `a..f` and `A..F`.
unfoldable pub hex_nibble : ℕ → Option ℕ
hex_nibble c =
    if in_range 48 57 c
    then some (c - 48)
    else (if in_range 97 102 c
        then some (c - 97 + 10)
        else (if in_range 65 70 c then some (c - 65 + 10) else none))

-- `parse_byte`; the high nibble is shifted by four bits.
unfoldable pub parse_byte : ℕ → ℕ → Result IdentityParseError ℕ
unfolding hex_nibble
parse_byte a b = do
  high ← ok_or (hex_nibble a) invalid_hex
  low ← ok_or (hex_nibble b) invalid_hex
  ok (high * 16 + low)

-- The loop of `parse_hex` over the pairs; `chunks_exact` leaves an odd last byte out.
unfoldable pub parse_pairs : List ℕ → Result IdentityParseError (List ℕ)
parse_pairs (a ∷ b ∷ s) = do byte ← parse_byte a b; bytes ← parse_pairs s; ok (byte ∷ bytes)
parse_pairs _ = ok []

unfoldable pub parse_hex : List ℕ → Result IdentityParseError (List ℕ)
parse_hex s = if length s == id_hex_length then parse_pairs s else err invalid_length

-- The entry of the table `HEX` at a nibble.
abbrev pub hex_digit : ℕ → ℕ
hex_digit n = if ltb n 10 then 48 + n else 87 + n

unfoldable pub to_hex : List ℕ → List ℕ
to_hex [] = []
to_hex (byte ∷ bytes) = hex_digit (byte / 16) ∷ hex_digit (byte % 16) ∷ to_hex bytes

abbrev pub AreBytes : List ℕ → Type 0
AreBytes [] = Unit {0}
AreBytes (byte ∷ bytes) = (byte < 256) × AreBytes bytes

hex_nibble-hex_digit : (n : ℕ) → n < 16 → hex_nibble (hex_digit n) ≡ some n
unfolding hex_nibble
hex_nibble-hex_digit n h = ground arith

parse_byte-hex_digit :
    (byte : ℕ) → byte < 256 → parse_byte (hex_digit (byte / 16)) (hex_digit (byte % 16)) ≡ ok byte
unfolding parse_byte
parse_byte-hex_digit byte h =
    rw
      (
        hex_nibble-hex_digit (byte / 16) (omega arith),
        hex_nibble-hex_digit (byte % 16) (omega arith),
      )
      (ap ok (omega arith))

parse_pairs-to_hex : (bytes : List ℕ) → AreBytes bytes → parse_pairs (to_hex bytes) ≡ ok bytes
unfolding parse_pairs to_hex
parse_pairs-to_hex [] h = refl
parse_pairs-to_hex (byte ∷ bytes) h =
    rw (parse_byte-hex_digit byte h.0, parse_pairs-to_hex bytes h.1) refl

length-to_hex : (bytes : List ℕ) → length (to_hex bytes) ≡ 2 * length bytes
unfolding to_hex
length-to_hex [] = refl
length-to_hex (byte ∷ bytes) = omega (arith, length-to_hex bytes)

-- The hexadecimal form of 16 bytes parses to the same bytes.
pub parse_hex-to_hex :
    (id : List ℕ) → length id ≡ id_bytes → AreBytes id → parse_hex (to_hex id) ≡ ok id
unfolding parse_hex
parse_hex-to_hex id n h =
    let size : (length (to_hex id) == id_hex_length) ≡ true = ground (arith, length-to_hex id, n) in
    rw size (parse_pairs-to_hex id h)

-- The lower case of a hexadecimal digit.
abbrev pub lower : ℕ → ℕ
lower c = if in_range 65 70 c then c + 32 else c

hex_nibble-inv : (c n : ℕ) → hex_nibble c ≡ some n → (n < 16) × (hex_digit n ≡ lower c)
unfolding hex_nibble
hex_nibble-inv c n h = (ground arith, ground arith)

parse_byte-inv :
    (a b byte : ℕ)
    → parse_byte a b ≡ ok byte
    → (byte < 256) × (hex_digit (byte / 16) ≡ lower a) × (hex_digit (byte % 16) ≡ lower b)
unfolding parse_byte
parse_byte-inv a b byte h = elim (Option-cases (hex_nibble a)) [
  | inl e ↦ ground (arith, e)
  | inr (high, e) ↦ elim (Option-cases (hex_nibble b)) [
    | inl f ↦ ground (arith, e, f)
    | inr (low, f) ↦
        let x = hex_nibble-inv a high e in
        let y = hex_nibble-inv b low f in
        let whole : high * 16 + low ≡ byte = ground (arith, e, f) in
        (
          omega (arith, x.0, y.0, whole),
          ap hex_digit (omega (arith, x.0, y.0, whole)) ∙ x.1,
          ap hex_digit (omega (arith, x.0, y.0, whole)) ∙ y.1,
        )
  ]
]

parse_pairs-inv :
    (n : ℕ) (s bytes : List ℕ)
    → length s ≡ 2 * n
    → parse_pairs s ≡ ok bytes
    → (length bytes ≡ n) × AreBytes bytes × (to_hex bytes ≡ map lower s)
unfolding parse_pairs to_hex
parse_pairs-inv zero [] bytes l h = let nothing : bytes ≡ [] = cc in rw nothing (refl, tt, refl)
parse_pairs-inv zero (a ∷ s) bytes l h = absurd (omega (arith, l))
parse_pairs-inv (suc n) [] bytes l h = absurd (omega (arith, l))
parse_pairs-inv (suc n) (a ∷ []) bytes l h = absurd (omega (arith, l))
parse_pairs-inv (suc n) (a ∷ b ∷ s) bytes l h = elim (Result-cases (parse_byte a b)) [
  | inr (x, e) ↦ ground (arith, e)
  | inl (byte, e) ↦ elim (Result-cases (parse_pairs s)) [
    | inr (x, f) ↦ ground (arith, e, f)
    | inl (rest, f) ↦
        let whole : byte ∷ rest ≡ bytes = ground (arith, e, f) in
        let (size, are, shape) = parse_pairs-inv n s rest (omega (arith, l)) f in
        let (fits, high, low) = parse_byte-inv a b byte e in
        rw (sym whole) (ap suc size, (fits, are), rw (high, low, shape) refl)
  ]
]

-- A string that parses has 16 bytes as its identity, and its lower case is their hexadecimal form.
pub to_hex-parse_hex :
    (s id : List ℕ)
    → parse_hex s ≡ ok id
    → (length id ≡ id_bytes) × AreBytes id × (to_hex id ≡ map lower s)
unfolding parse_hex
to_hex-parse_hex s id h = elim (Bool-cases (length s == id_hex_length)) [
  | inr odd ↦ ground (arith, odd)
  | inl whole ↦ parse_pairs-inv 16 s id (ground arith) (ground (arith, whole))
]
