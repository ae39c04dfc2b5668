-- ===== src/Protocol/Framing.antt =====
-- crates/caly-protocol/src/framing.rs: length-prefixed frames over a byte stream.
use caly.Base.{
  ℕ, zero, suc, ◌+◌, ◌-◌, ◌*◌, ◌/◌, ◌%◌, ◌^◌, ◌≤◌, ◌<◌, ◌≡◌, refl, ap, sym, inl, inr, ◌∙◌, Bool,
  false, List, [], ◌∷◌, ◌++◌, length, length-append, take, take-append_length, drop,
  drop-append_length, ltb, leb, Bool-cases, if◌then◌else◌, arith,
}
use caly.Base.Result.{Result, Result-cases, ok, err, ◌>>=◌}
use mathlib.Core.List.{append_assoc}

abbrev pub header_bytes : ℕ
header_bytes = 4

abbrev pub u32_max : ℕ
u32_max = 2 ^ 32 - 1

pub data FrameError : Type 0 where
  closed io : FrameError
  oversized : (limit actual : ℕ) → FrameError

-- What the peer has sent; behind it, the stream ends or fails.
pub record Reader : Type 0 where
  pub bytes : List ℕ
  pub broken : Bool

-- `u32::to_le_bytes`.
unfoldable pub to_le_bytes : ℕ → List ℕ
to_le_bytes n = n % 256 ∷ n / 256 % 256 ∷ n / 65536 % 256 ∷ n / 16777216 % 256 ∷ []

-- `u32::from_le_bytes`, on four bytes.
unfoldable pub from_le_bytes : List ℕ → ℕ
from_le_bytes (a ∷ b ∷ c ∷ d ∷ _) = a + 256 * b + 65536 * c + 16777216 * d
from_le_bytes _ = 0

-- `write_frame`: the bytes that it puts on the wire where the transport takes them.
unfoldable pub write_frame : List ℕ → Result FrameError (List ℕ)
write_frame payload =
    if ltb u32_max (length payload)
    then err (oversized u32_max (length payload))
    else ok (to_le_bytes (length payload) ++ payload)

-- `read_exact`, with the error that `read_frame` makes of its failure.
unfoldable pub read_exact : ℕ → Reader → Reader × Result FrameError (List ℕ)
read_exact n r =
    if leb n (length r.bytes)
    then (record r { bytes = drop n r.bytes }, ok (take n r.bytes))
    else (record r { bytes = [] }, err (if r.broken then io else closed))

abbrev pub payload_of :
    ℕ → Reader × Result FrameError (List ℕ) → Reader × Result FrameError (List ℕ)
payload_of max_bytes (r, err e) = (r, err e)
payload_of max_bytes (r, ok header) =
    let size = from_le_bytes header in
    if ltb max_bytes size then (r, err (oversized max_bytes size)) else read_exact size r

unfoldable pub read_frame : ℕ → Reader → Reader × Result FrameError (List ℕ)
read_frame max_bytes r = payload_of max_bytes (read_exact header_bytes r)

le_bytes-round : (n : ℕ) → n ≤ u32_max → from_le_bytes (to_le_bytes n) ≡ n
unfolding from_le_bytes to_le_bytes
le_bytes-round n h = omega arith

-- What the peer sends for a list of messages, written one after another.
unfoldable pub write_frames : List (List ℕ) → Result FrameError (List ℕ)
write_frames [] = ok []
write_frames (p ∷ ps) = do frame ← write_frame p; rest ← write_frames ps; ok (frame ++ rest)

-- What the reader takes off the stream by that many calls of `read_frame`, up to the first failure.
unfoldable pub read_frames : ℕ → ℕ → Reader → Reader × Result FrameError (List (List ℕ))
read_frames max_bytes zero r = (r, ok [])
read_frames max_bytes (suc n) r =
    let (r', answer) = read_frame max_bytes r in
    let (end, rest) = read_frames max_bytes n r' in
    elim answer [ ok p ↦ (end, rest >>= λ ps. ok (p ∷ ps)) | err e ↦ (r', err e) ]

abbrev pub Within : ℕ → List (List ℕ) → Type 0
Within max_bytes [] = Unit {0}
Within max_bytes (p ∷ ps) = (length p ≤ max_bytes) × Within max_bytes ps

write_frame-inv :
    (p frame : List ℕ)
    → write_frame p ≡ ok frame
    → (length p ≤ u32_max) × (frame ≡ to_le_bytes (length p) ++ p)
unfolding write_frame
write_frame-inv p frame e = (ground arith, ground arith)

-- A reader takes the message of a frame off the stream, and stands behind it.
read_frame-framed :
    (max_bytes : ℕ) (p rest : List ℕ) (broken : Bool)
    → length p ≤ max_bytes
    → length p ≤ u32_max
    → read_frame max_bytes (record { bytes = to_le_bytes (length p) ++ p ++ rest; broken = broken })
      ≡ (record { bytes = rest; broken = broken }, ok p)
unfolding read_frame read_exact to_le_bytes
read_frame-framed max_bytes p rest broken fits small = ground (
  arith,
  le_bytes-round (length p) small,
  take-append_length p rest,
  drop-append_length p rest,
  length-append p rest,
)

write_frames-inv :
    (p : List ℕ) (ps : List (List ℕ)) (wire : List ℕ)
    → write_frames (p ∷ ps) ≡ ok wire
    → (frame all : List ℕ) × (write_frame p ≡ ok frame)
      × (write_frames ps ≡ ok all)
      × (wire ≡ frame ++ all)
unfolding write_frames
write_frames-inv p ps wire e = elim (Result-cases (write_frame p)) [
  | inr (x, failed) ↦ cc
  | inl (frame, f) ↦ elim (Result-cases (write_frames ps)) [
    | inr (x, failed) ↦ ground arith
    | inl (all, a) ↦ (frame, all, f, a, ground arith)
  ]
]

read_frames-step :
    (max_bytes n : ℕ) (r r' : Reader) (p : List ℕ)
    → read_frame max_bytes r ≡ (r', ok p)
    → read_frames max_bytes (suc n) r
      ≡ ((read_frames max_bytes n r').0, (read_frames max_bytes n r').1 >>= λ ps. ok (p ∷ ps))
unfolding read_frames
read_frames-step max_bytes n r r' p h = ground (arith, h)

-- Messages that the ceiling admits, written one after another, are read back as they were and in
-- order, and the reader stands right behind them.
pub read_frames-write_frames :
    (max_bytes : ℕ) (ps : List (List ℕ)) (wire rest : List ℕ) (broken : Bool)
    → Within max_bytes ps
    → write_frames ps ≡ ok wire
    → read_frames max_bytes (length ps) (record { bytes = wire ++ rest; broken = broken })
      ≡ (record { bytes = rest; broken = broken }, ok ps)
unfolding read_frames write_frames
read_frames-write_frames max_bytes [] wire rest broken w e = ground arith
read_frames-write_frames max_bytes (p ∷ ps) wire rest broken w e =
    let (frame, all, f, a, e') = write_frames-inv p ps wire e in
    let (small, shape) = write_frame-inv p frame f in
    let front : wire ++ rest ≡ to_le_bytes (length p) ++ p ++ (all ++ rest) =
      ap (λ bs. bs ++ rest) (e' ∙ ap (λ bs. bs ++ all) shape)
      ∙ append_assoc (to_le_bytes (length p) ++ p) all rest in
    read_frames-step max_bytes (length ps) (record { bytes = wire ++ rest; broken = broken })
      (record { bytes = all ++ rest; broken = broken }) p
      (rw front (read_frame-framed max_bytes p (all ++ rest) broken w.0 small))
    ∙ rw (read_frames-write_frames max_bytes ps all rest broken w.1 a) refl

length-take-le : (n : ℕ) (xs : List ℕ) → length (take n xs) ≤ n
length-take-le zero xs = omega arith
length-take-le (suc n) [] = omega arith
length-take-le (suc n) (x ∷ xs) = omega (arith, length-take-le n xs)

-- A stream that ends inside the message of a frame.
read_frame-short :
    (max_bytes m : ℕ) (p : List ℕ)
    → length p ≤ max_bytes
    → length p ≤ u32_max
    → m < length p
    → (read_frame max_bytes
        (record { bytes = to_le_bytes (length p) ++ take m p; broken = false })).1
      ≡ err closed
unfolding read_frame read_exact to_le_bytes
read_frame-short max_bytes m p fits small short =
    ground (arith, le_bytes-round (length p) small, length-take-le m p)

take-header :
    (n k : ℕ) (p : List ℕ)
    → take (suc (suc (suc (suc n)))) (to_le_bytes k ++ p) ≡ to_le_bytes k ++ take n p
unfolding to_le_bytes
take-header n k p = refl

-- A stream that ends inside a frame whose message the ceiling admits is reported as closed.
pub read_frame-cut :
    (max_bytes n : ℕ) (p frame : List ℕ)
    → length p ≤ max_bytes
    → write_frame p ≡ ok frame
    → n < length frame
    → (read_frame max_bytes (record { bytes = take n frame; broken = false })).1 ≡ err closed
unfolding read_frame write_frame read_exact to_le_bytes
read_frame-cut max_bytes n p frame fits e short =
    let (small, shape) = write_frame-inv p frame e in
    elim (Bool-cases (leb header_bytes n)) [
      | inr few ↦ ground (arith, length-take-le n frame)
      | inl whole ↦
          let count : suc (suc (suc (suc (n - 4)))) ≡ n = ground arith in
          let bytes : take n frame ≡ to_le_bytes (length p) ++ take (n - 4) p =
            ap (λ k. take k frame) (sym count)
            ∙ ap (take (suc (suc (suc (suc (n - 4)))))) shape
            ∙ take-header (n - 4) (length p) p in
          rw bytes (
            read_frame-short max_bytes (n - 4) p fits small
              (ground (arith, ap length shape, length-append (to_le_bytes (length p)) p)))
    ]
