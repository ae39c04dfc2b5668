-- ===== src/Template/Slices.antt =====
-- Reading the fields of a frame, and inverting the checks of a decoder that succeeded.
use caly.Base.{
  ℕ, zero, suc, ◌+◌, ◌/◌, ◌%◌, ◌^◌, ◌≤◌, ◌<◌, ◌≡◌, refl, ap, sym, ◌∙◌, subst, inl, inr, Bool, true,
  false, List, [], ◌∷◌, ◌++◌, length, take, drop, take-append-drop, take-append_length,
  drop-append_length, drop-drop, length-take, length-drop, length-append, leb, leb→le, arith,
  Bool-cases,
}
use caly.Base.Result.{Result, ok, err, ◌>>=◌}
use caly.Template.{
  FrameError, refuse_if, same_bytes, u32_bytes, from_be_bytes, checked_sum, read_array, bounded,
}

-- Every element is a byte.
abbrev pub IsBytes : List ℕ → Type 0
IsBytes [] = Unit {0}
IsBytes (b ∷ bs) = (b < 256) × IsBytes bs

pub take-IsBytes : (n : ℕ) (bs : List ℕ) → IsBytes bs → IsBytes (take n bs)
take-IsBytes zero bs h = tt
take-IsBytes (suc n) [] h = tt
take-IsBytes (suc n) (b ∷ bs) h = (h.0, take-IsBytes n bs h.1)

pub drop-IsBytes : (n : ℕ) (bs : List ℕ) → IsBytes bs → IsBytes (drop n bs)
drop-IsBytes zero bs h = h
drop-IsBytes (suc n) [] h = tt
drop-IsBytes (suc n) (b ∷ bs) h = drop-IsBytes n bs h.1

pub from_be-u32_bytes : (n : ℕ) → n < 2 ^ 32 → from_be_bytes (u32_bytes n) ≡ n
unfolding u32_bytes
from_be-u32_bytes n h = omega arith

pub u32_bytes-from_be :
    (bs : List ℕ) → length bs ≡ 4 → IsBytes bs → u32_bytes (from_be_bytes bs) ≡ bs
unfolding u32_bytes
u32_bytes-from_be [] e h = absurd (omega arith)
u32_bytes-from_be (a ∷ []) e h = absurd (omega arith)
u32_bytes-from_be (a ∷ b ∷ []) e h = absurd (omega arith)
u32_bytes-from_be (a ∷ b ∷ c ∷ []) e h = absurd (omega arith)
u32_bytes-from_be (a ∷ b ∷ c ∷ d ∷ []) e (ha, (hb, (hc, (hd, _)))) =
    let n = from_be_bytes (a ∷ b ∷ c ∷ d ∷ []) in
    let ea : n / 16777216 % 256 ≡ a = omega arith in
    let eb : n / 65536 % 256 ≡ b = omega arith in
    let ec : n / 256 % 256 ≡ c = omega arith in
    let ed : n % 256 ≡ d = omega arith in rw (ea, eb, ec, ed)
u32_bytes-from_be (a ∷ b ∷ c ∷ d ∷ x ∷ bs) e h = absurd (omega arith)

pub from_be_bound : (bs : List ℕ) → length bs ≡ 4 → IsBytes bs → from_be_bytes bs < 2 ^ 32
from_be_bound [] e h = absurd (omega arith)
from_be_bound (a ∷ []) e h = absurd (omega arith)
from_be_bound (a ∷ b ∷ []) e h = absurd (omega arith)
from_be_bound (a ∷ b ∷ c ∷ []) e h = absurd (omega arith)
from_be_bound (a ∷ b ∷ c ∷ d ∷ []) e (ha, (hb, (hc, (hd, _)))) = omega arith
from_be_bound (a ∷ b ∷ c ∷ d ∷ x ∷ bs) e h = absurd (omega arith)

pub same_bytes→eq : (xs ys : List ℕ) → same_bytes xs ys ≡ true → xs ≡ ys
same_bytes→eq [] [] h = refl
same_bytes→eq [] (y ∷ ys) h = cc
same_bytes→eq (x ∷ xs) [] h = cc
same_bytes→eq (x ∷ xs) (y ∷ ys) h = ground (arith, same_bytes→eq xs ys)

pub refuse_if-ok : (b : Bool) (e : FrameError) (u : Unit {0}) → refuse_if b e ≡ ok u → b ≡ false
refuse_if-ok b e u h = ground arith

pub >>=_ok {ℓ κ} :
    {A : Type ℓ} {B : Type κ} (r : Result FrameError A) (f : A → Result FrameError B) (b : B)
    → (r >>= f) ≡ ok b
    → (a : A) × (r ≡ ok a) × (f a ≡ ok b)
>>=_ok (ok a) f b h = (a, refl, h)
>>=_ok (err e) f b h = cc

pub read_array-ok :
    (n offset : ℕ) (frame bs : List ℕ)
    → read_array n offset frame ≡ ok bs
    → (bs ≡ take n (drop offset frame)) × (length bs ≡ n)
unfolding read_array
read_array-ok n offset frame bs h = elim (Bool-cases (leb (offset + n) (length frame))) [
  | inr short ↦ ground arith
  | inl fits ↦
      let same : take n (drop offset frame) ≡ bs = ground arith in
      let within = leb→le _ _ fits in
      let rest = length-drop offset frame in
      (sym same, ap length (sym same) ∙ length-take n (drop offset frame) (omega arith))
]

-- The next `n` bytes of a frame, and what lies behind them.
pub drop-split :
    (n offset : ℕ) (frame : List ℕ)
    → take n (drop offset frame) ++ drop (offset + n) frame ≡ drop offset frame
drop-split n offset frame =
    ap (◌++◌ (take n (drop offset frame))) (sym (drop-drop n offset frame))
    ∙ take-append-drop n (drop offset frame)

pub drop_at :
    (o : ℕ) (pre post frame : List ℕ) → frame ≡ pre ++ post → length pre ≡ o → drop o frame ≡ post
drop_at o pre post frame e n =
    subst (λ k. drop k frame ≡ post) n (rw e (drop-append_length pre post))

pub take_at : (n : ℕ) (bs post : List ℕ) → length bs ≡ n → take n (bs ++ post) ≡ bs
take_at n bs post e = subst (λ k. take k (bs ++ post) ≡ bs) e (take-append_length bs post)

pub read_array_at :
    (n o : ℕ) (pre bs post frame : List ℕ)
    → frame ≡ pre ++ (bs ++ post)
    → length pre ≡ o
    → length bs ≡ n
    → read_array n o frame ≡ ok bs
unfolding read_array
read_array_at n o pre bs post frame e l m =
    let total = length-append pre (bs ++ post) in
    let rest = length-append bs post in
    let count = ap length e in
    let fits : leb (o + n) (length frame) ≡ true = ground arith in
    rw (fits, drop_at o pre (bs ++ post) frame e l, take_at n bs post m)

pub checked_sum-small : (a b : ℕ) → a + b < 2 ^ 64 → checked_sum a b ≡ ok (a + b)
unfolding checked_sum
checked_sum-small a b h = ground arith

pub checked_sum-ok : (a b n : ℕ) → checked_sum a b ≡ ok n → n ≡ a + b
unfolding checked_sum
checked_sum-ok a b n h = ground arith

pub bounded-ok :
    (max : ℕ) (e : FrameError) (bytes out : List ℕ)
    → bounded max e bytes ≡ ok out
    → (out ≡ bytes) × (length out ≤ max)
bounded-ok max e bytes out h = (ground arith, ground arith)

pub bounded-small :
    (max : ℕ) (e : FrameError) (bytes : List ℕ)
    → length bytes ≤ max
    → bounded max e bytes ≡ ok bytes
bounded-small max e bytes h = ground arith

payload_of {ℓ} : {A : Type ℓ} → A → Result FrameError A → A
payload_of a (ok b) = b
payload_of a (err e) = a

pub ok_inj {ℓ} : {A : Type ℓ} {a b : A} → ◌≡◌ {A = Result FrameError A} (ok a) (ok b) → a ≡ b
unfolding payload_of
ok_inj {a = a} e = ap (payload_of a) e
