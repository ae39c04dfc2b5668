-- ===== src/Domain/Text/Clamp.antt =====
-- `BoundedText::from_nonempty_clamped`: what it keeps, and where it panics.
use caly.Base.{
  ℕ, zero, suc, ◌+◌, ◌-◌, ◌≤◌, ◌<◌, ◌≡◌, refl, ap, ◌∙◌, ◌⊎◌, inl, inr, ◌↔◌, true, false, none, some,
  [], ◌∷◌, ◌++◌, ltb, leb, arith, Bool-cases,
}
use caly.Base.Result.{ok}
use caly.Domain.Text.{
  Text, utf8_width, len_bytes, is_char_boundary, byte_prefix, truncate, pop_to_boundary,
  from_nonempty_clamped, new_text,
}

utf8_width_bounds : (c : ℕ) → (1 ≤ utf8_width c) × (utf8_width c ≤ 4)
utf8_width_bounds c = ground arith

boundary_cons :
    (c : ℕ) (s : Text) (n m : ℕ)
    → n ≡ utf8_width c + m
    → is_char_boundary (c ∷ s) n ≡ is_char_boundary s m
unfolding is_char_boundary
boundary_cons c s zero m e = absurd (omega (arith, (utf8_width_bounds c).0))
boundary_cons c s (suc n) m e =
    let fits : leb (utf8_width c) (suc n) ≡ true = ground arith in
    let rest : suc n - utf8_width c ≡ m = omega arith in rw (fits, rest)

-- The whole text ends at a boundary, so the `while` loop of the source ends at once.
boundary_at_end : (s : Text) → is_char_boundary s (len_bytes s) ≡ true
unfolding is_char_boundary
boundary_at_end [] = refl
boundary_at_end (c ∷ s) = boundary_cons c s _ (len_bytes s) refl ∙ boundary_at_end s

pop_to_boundary_done : (fuel : ℕ) (s : Text) → pop_to_boundary fuel s ≡ s
unfolding pop_to_boundary
pop_to_boundary_done zero s = refl
pop_to_boundary_done (suc fuel) s = rw (boundary_at_end s)

len-byte_prefix-le : (s : Text) (n : ℕ) → len_bytes (byte_prefix s n) ≤ n
unfolding byte_prefix
len-byte_prefix-le [] n = omega arith
len-byte_prefix-le (c ∷ s) n = ground (arith, len-byte_prefix-le s (n - utf8_width c))

-- At a boundary the prefix has exactly that many bytes.
len-byte_prefix : (s : Text) (n : ℕ) → is_char_boundary s n ≡ true → len_bytes (byte_prefix s n) ≡ n
unfolding byte_prefix is_char_boundary
len-byte_prefix [] zero h = refl
len-byte_prefix [] (suc n) h = cc
len-byte_prefix (c ∷ s) zero h = ground arith
len-byte_prefix (c ∷ s) (suc n) h = ground (arith, len-byte_prefix s (suc n - utf8_width c))

byte_prefix_prefix : (s : Text) (n : ℕ) → (rest : Text) × (byte_prefix s n ++ rest ≡ s)
unfolding byte_prefix
byte_prefix_prefix [] n = ([], refl)
byte_prefix_prefix (c ∷ s) n = elim (Bool-cases (leb (utf8_width c) n)) [
  | inl fits ↦
      let (rest, e) = byte_prefix_prefix s (n - utf8_width c) in (rest, rw fits (ap (◌∷◌ c) e))
  | inr over ↦ (c ∷ s, rw over)
]

-- For a text that is not empty, the clamp panics exactly where the text is longer than the bound and the bound falls inside a
-- character: `String::truncate` is called at a byte that is no character boundary.
pub from_nonempty_clamped-none_iff :
    (max_bytes c : ℕ) (s fallback : Text)
    → (from_nonempty_clamped max_bytes (c ∷ s) fallback ≡ none)
      ↔ ((max_bytes < len_bytes (c ∷ s)) × (is_char_boundary (c ∷ s) max_bytes ≡ false))
unfolding from_nonempty_clamped truncate
from_nonempty_clamped-none_iff max_bytes c s fallback =
    (λ h. (ground arith, ground arith), λ h. ground arith)

cut_at :
    (max_bytes c : ℕ) (s fallback t : Text)
    → ltb max_bytes (len_bytes (c ∷ s)) ≡ true
    → is_char_boundary (c ∷ s) max_bytes ≡ true
    → from_nonempty_clamped max_bytes (c ∷ s) fallback ≡ some t
    → t ≡ byte_prefix (c ∷ s) max_bytes
unfolding from_nonempty_clamped truncate
cut_at max_bytes c s fallback t over at e =
    let cut = byte_prefix (c ∷ s) max_bytes in
    ground (arith, pop_to_boundary_done (suc (len_bytes cut)) cut)

pub from_nonempty_clamped-some :
    (max_bytes : ℕ) (s fallback t : Text)
    → from_nonempty_clamped max_bytes s fallback ≡ some t
    → ((s ≡ []) × (t ≡ fallback))
      ⊎ ((len_bytes s ≤ max_bytes) × (t ≡ s))
      ⊎ ((len_bytes t ≡ max_bytes) × ((rest : Text) × (t ++ rest ≡ s)))
unfolding from_nonempty_clamped
from_nonempty_clamped-some max_bytes [] fallback t e = ground arith
from_nonempty_clamped-some max_bytes (c ∷ s) fallback t e =
    elim (Bool-cases (ltb max_bytes (len_bytes (c ∷ s)))) [
      | inr fits ↦ inr (inl (ground arith, ground arith))
      | inl over ↦ elim (Bool-cases (is_char_boundary (c ∷ s) max_bytes)) [
        | inl at ↦
            let same = cut_at max_bytes c s fallback t over at e in
            inr (
              inr (
                rw same (len-byte_prefix (c ∷ s) max_bytes at),
                rw same (byte_prefix_prefix (c ∷ s) max_bytes),
              ))
        | inr inside ↦
            cc ((from_nonempty_clamped-none_iff max_bytes c s fallback).1 (ground arith, inside))
      ]
    ]

-- Every text that `BoundedText::new` accepts is kept as it is by the clamp.
pub new_text-clamped :
    (max_bytes : ℕ) (s fallback t : Text)
    → new_text max_bytes s ≡ ok t
    → from_nonempty_clamped max_bytes s fallback ≡ some t
unfolding new_text from_nonempty_clamped
new_text-clamped max_bytes [] fallback t e = cc
new_text-clamped max_bytes (c ∷ s) fallback t e = ground arith
