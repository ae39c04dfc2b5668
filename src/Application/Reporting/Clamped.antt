-- ===== src/Application/Reporting/Clamped.antt =====
-- Which failures can be built and reported, and where `String::truncate` panics.
use caly.Base.{
  ℕ, zero, suc, ◌≤◌, ◌<◌, ◌⊎◌, false, ◌≡◌, refl, inl, inr, Bool, true, ◌&&◌, Option-cases, none,
  some, [], ◌∷◌, ltb, arith, leb→le,
}
use caly.Domain.Text.{Text, codes, len_bytes, is_char_boundary, from_nonempty_clamped}
use caly.Domain.Text.Clamp.{from_nonempty_clamped-none_iff, from_nonempty_clamped-some}
use caly.Domain.Operation.{OperationFailure}
use caly.Application.Reporting.{
  ActorFailure, ActorFailureKind, clamped, infrastructure_failure, infrastructure_kind,
  operation_failure, failure_code,
}

-- What the type of a failure's texts says of them.
abbrev pub Fits : ActorFailure → Type 0
Fits f = (len_bytes f.message ≤ 512) × (len_bytes f.suggested_action ≤ 512)

abbrev pub is_ascii : Text → Bool
is_ascii [] = true
is_ascii (c ∷ s) = ltb c 128 && is_ascii s

ascii_boundary :
    (s : Text) (n : ℕ) → is_ascii s ≡ true → n ≤ len_bytes s → is_char_boundary s n ≡ true
unfolding is_char_boundary
ascii_boundary s zero a h = refl
ascii_boundary [] (suc n) a h = absurd (omega arith)
ascii_boundary (c ∷ s) (suc n) a h = ground (arith, ascii_boundary s n)

-- The bound falls inside a character of a text that is longer.
abbrev pub Splits : ℕ → Text → Type 0
Splits max_bytes s = (max_bytes < len_bytes s) × (is_char_boundary s max_bytes ≡ false)

-- A clamp panics only on such a text, and otherwise stays within its bound.
clamped-cases :
    (max_bytes : ℕ) (s fallback : Text)
    → len_bytes fallback ≤ max_bytes
    → ((from_nonempty_clamped max_bytes s fallback ≡ none) × Splits max_bytes s)
      ⊎ ((t : Text) × (from_nonempty_clamped max_bytes s fallback ≡ some t)
          × (len_bytes t ≤ max_bytes))
unfolding from_nonempty_clamped
clamped-cases max_bytes [] fallback h = inr (fallback, refl, h)
clamped-cases max_bytes (c ∷ s) fallback h =
    elim (Option-cases (from_nonempty_clamped max_bytes (c ∷ s) fallback)) [
      | inl panics ↦ inl (panics, (from_nonempty_clamped-none_iff max_bytes c s fallback).0 panics)
      | inr (t, e) ↦ inr (
        t,
        e,
        elim (from_nonempty_clamped-some max_bytes (c ∷ s) fallback t e) [
          | inl (none_given, same) ↦ rw same h
          | inr (inl (fits, same)) ↦ rw same fits
          | inr (inr (exact, prefix)) ↦ omega arith
        ],
      )
    ]

-- A clamp of an ASCII text does not panic.
clamped-ascii :
    (max_bytes : ℕ) (s fallback : Text)
    → is_ascii s ≡ true
    → len_bytes fallback ≤ max_bytes
    → (t : Text) × (from_nonempty_clamped max_bytes s fallback ≡ some t) × (len_bytes t ≤ max_bytes)
clamped-ascii max_bytes s fallback a h = elim (clamped-cases max_bytes s fallback h) [
  | inr t ↦ t
  | inl (panics, splits) ↦
      let (over, inside) = splits in let at = ascii_boundary s max_bytes a (omega arith) in cc
]

clamped-fits :
    (max_bytes : ℕ) (s fallback : Text)
    → len_bytes s ≤ max_bytes
    → (t : Text) × (from_nonempty_clamped max_bytes s fallback ≡ some t)
unfolding from_nonempty_clamped
clamped-fits max_bytes [] fallback h = (fallback, refl)
clamped-fits max_bytes (c ∷ s) fallback h = (c ∷ s, ground arith)

pub operation_failure-Fits :
    (f : ActorFailure) → Fits f → (g : OperationFailure) × (operation_failure f ≡ some g)
unfolding operation_failure
operation_failure-Fits f (m, a) =
    let (message, e) = clamped-fits 1024 f.message (codes "_") (omega arith) in
    let (action, e') = clamped-fits 512 f.suggested_action (codes "_") a in
    (
      record { code = failure_code f.kind; message = message; suggested_action = action },
      rw (e, e'),
    )

-- A failure whose advice is ASCII is built, within its bounds, or its message panics.
pub infrastructure_failure-cases :
    (message action : Text)
    → is_ascii action ≡ true
    → ((infrastructure_failure message action ≡ none) × Splits 512 message)
      ⊎ ((f : ActorFailure) × (infrastructure_failure message action ≡ some f) × Fits f)
unfolding infrastructure_failure
infrastructure_failure-cases message action b =
    let (n, e', fits') =
      clamped-ascii 512 action (codes "inspect configuration") b (leb→le _ _ refl) in
    elim (clamped-cases 512 message (codes "operation failed") (leb→le _ _ refl)) [
      | inl (panics, splits) ↦ inl (rw panics refl, splits)
      | inr (m, e, fits) ↦ inr (
        record { kind = infrastructure_kind; message = m; suggested_action = n },
        rw (e, e'),
        (fits, fits'),
      )
    ]

pub clamped_failure-Fits :
    (kind : ActorFailureKind) (message action : Text)
    → is_ascii message ≡ true
    → is_ascii action ≡ true
    → (f : ActorFailure) × (clamped kind message action ≡ some f) × Fits f
unfolding clamped
clamped_failure-Fits kind message action a b =
    let (m, e, fits) = clamped-ascii 512 message (codes "_") a (leb→le _ _ refl) in
    let (n, e', fits') = clamped-ascii 512 action (codes "_") b (leb→le _ _ refl) in
    (record { kind = kind; message = m; suggested_action = n }, rw (e, e'), (fits, fits'))
