-- ===== src/Domain/Text.antt =====
-- crates/caly-domain/src/text.rs: text bounded in UTF-8 bytes. A text is the list of its characters'
-- code points; its length counts the bytes of its UTF-8 form.
pub mod Clamp
use Prim.Native.Char.{code}
use Prim.Native.String.{String}
use caly.Base.{
  ℕ, zero, suc, ◌+◌, ◌-◌, Bool, true, false, ◌&&◌, Option, none, some, List, [], ◌∷◌, ltb, leb,
  if◌then◌else◌,
}
use caly.Base.Result.{Result, ok, err}
use mathlib.Core.Option

abbrev pub Text : Type 0
Text = List ℕ

-- The text of a literal of the source.
abbrev pub codes : String → Text
codes String.[] = []
codes (String.◌∷◌ c s) = code c ∷ codes s

-- `char::len_utf8`.
abbrev pub utf8_width : ℕ → ℕ
utf8_width c = if ltb c 0x80 then 1 else if ltb c 0x800 then 2 else if ltb c 0x10000 then 3 else 4

abbrev pub len_bytes : Text → ℕ
len_bytes [] = 0
len_bytes (c ∷ s) = utf8_width c + len_bytes s

pub data TextError : Type 0 where
  empty : TextError
  too_long : ℕ → ℕ → TextError
  invalid : TextError

-- `BoundedText::<max_bytes>::new`.
unfoldable pub new_text : ℕ → Text → Result TextError Text
new_text max_bytes [] = err empty
new_text max_bytes (c ∷ s) =
    if ltb max_bytes (len_bytes (c ∷ s))
    then err (too_long max_bytes (len_bytes (c ∷ s)))
    else ok (c ∷ s)

-- `str::is_char_boundary`.
unfoldable pub is_char_boundary : Text → ℕ → Bool
is_char_boundary s zero = true
is_char_boundary [] (suc n) = false
is_char_boundary (c ∷ s) (suc n) =
    leb (utf8_width c) (suc n) && is_char_boundary s (suc n - utf8_width c)

-- The characters that lie wholly in the first `n` bytes.
unfoldable pub byte_prefix : Text → ℕ → Text
byte_prefix [] n = []
byte_prefix (c ∷ s) n = if leb (utf8_width c) n then c ∷ byte_prefix s (n - utf8_width c) else []

-- `String::truncate`: it panics (`none`) unless the new length lies on a character boundary, and does
-- nothing where the text is no longer than that.
unfoldable pub truncate : Text → ℕ → Option Text
truncate s n =
    if leb n (len_bytes s)
    then (if is_char_boundary s n then some (byte_prefix s n) else none)
    else some s

-- `String::pop`.
unfoldable pub pop : Text → Text
pop [] = []
pop (c ∷ []) = []
pop (c ∷ d ∷ s) = c ∷ pop (d ∷ s)

-- The `while` loop of `from_nonempty_clamped`, on fuel.
unfoldable pub pop_to_boundary : ℕ → Text → Text
pop_to_boundary zero s = s
pop_to_boundary (suc fuel) s =
    let rest = pop_to_boundary fuel (pop s) in if is_char_boundary s (len_bytes s) then s else rest

unfoldable pub from_nonempty_clamped : ℕ → Text → Text → Option Text
from_nonempty_clamped max_bytes [] fallback = some fallback
from_nonempty_clamped max_bytes (c ∷ s) fallback =
    if ltb max_bytes (len_bytes (c ∷ s))
    then Option.map (λ t. pop_to_boundary (suc (len_bytes t)) t) (truncate (c ∷ s) max_bytes)
    else some (c ∷ s)
