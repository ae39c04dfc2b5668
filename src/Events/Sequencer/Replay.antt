-- ===== src/Events/Sequencer/Replay.antt =====
-- The replay window of `sequencer.rs`: consecutive numbers up to the current one, and what a client
-- that asks for the events after its cursor is given.
use caly.Base.{
  ℕ, zero, suc, ◌+◌, ◌-◌, ◌/◌, ◌≤◌, ◌<◌, ◌≡◌, ◌≢◌, refl, sym, ap, ◌∙◌, ◌⊎◌, inl, inr, true, false,
  none, some, List, [], ◌∷◌, ◌++◌, length, drop, get_elem?, ltb, leb, ◌==◌, arith, Bool-cases,
  ==_refl,
}
use native.Mathlib.Nat.{add-zero}
use caly.Domain.Event.{EventCursor, checked_next, u64_max}
use caly.Events.Sequencer.{
  SequencedEvent, EventSequencer, cut, bisect, search_step, lower_bound, replay_from, replay_after,
}

-- The events are numbered `first + 1` to `last`, all of one daemon epoch.
abbrev pub Runs : ℕ → ℕ → List SequencedEvent → ℕ → Type 0
Runs daemon first [] last = first ≡ last
Runs daemon first (e ∷ es) last =
    (e.cursor ≡ record { daemon_instance = daemon; sequence = first + 1 })
    × Runs daemon (first + 1) es last

pub length-Runs :
    (d first : ℕ) (es : List SequencedEvent) (last : ℕ)
    → Runs d first es last
    → first + length es ≡ last
length-Runs d first [] last r = omega arith
length-Runs d first (e ∷ es) last r = omega (arith, length-Runs d (first + 1) es last r.1)

get_elem?-Runs :
    (d first : ℕ) (es : List SequencedEvent) (last : ℕ) (i : ℕ)
    → Runs d first es last
    → i < length es
    → (e : SequencedEvent) × (get_elem? es i ≡ some e) × (e.cursor.sequence ≡ first + i + 1)
get_elem?-Runs d first [] last i r h = elim h [ ]
get_elem?-Runs d first (e ∷ es) last zero r h =
    (e, refl, ap (λ (c : EventCursor). c.sequence) r.0 ∙ omega arith)
get_elem?-Runs d first (e ∷ es) last (suc i) r h =
    let (x, at, seq) = get_elem?-Runs d (first + 1) es last i r.1 (omega arith) in
    (x, at, seq ∙ omega arith)

-- Each probe of the search compares with the number that stands there.
search_step-Runs :
    (d first : ℕ) (es : List SequencedEvent) (last i sequence : ℕ)
    → Runs d first es last
    → i < length es
    → search_step (get_elem? es i) sequence ≡ some (leb (first + i + 1) sequence)
unfolding search_step
search_step-Runs d first es last i sequence r h =
    let (x, at, seq) = get_elem?-Runs d first es last i r h in rw (at, seq)

-- The binary search ends at the first number above the one sought, with a round of fuel for each
-- entry.
bisect-Runs :
    (d first : ℕ) (es : List SequencedEvent) (last sequence : ℕ)
    → Runs d first es last
    → (target : ℕ) → first + target ≡ sequence
    → (fuel low high : ℕ) → low ≤ target
    → target ≤ high
    → high ≤ length es
    → high ≤ low + fuel
    → bisect fuel es sequence low high ≡ some target
unfolding bisect
bisect-Runs d first es last sequence r target e zero low high a b c f = ground arith
bisect-Runs d first es last sequence r target e (suc fuel) low high a b c f =
    elim (Bool-cases (ltb low high)) [
      | inr done ↦ rw done (ap some (ground arith))
      | inl more ↦
          let middle = low + (high - low) / 2 in
          rw (more, search_step-Runs d first es last middle sequence r (ground arith))
            (elim (Bool-cases (leb (first + middle + 1) sequence)) [
              | inl before ↦ rw before (
                  bisect-Runs d first es last sequence r target e fuel (middle + 1) high
                    (ground arith) b c (ground arith))
              | inr after ↦ rw after (
                  bisect-Runs d first es last sequence r target e fuel low middle a (ground arith)
                    (ground arith) (ground arith))
            ])
    ]

pub lower_bound-Runs :
    (d first : ℕ) (es : List SequencedEvent) (last sequence : ℕ)
    → Runs d first es last
    → first ≤ sequence
    → sequence ≤ last
    → lower_bound es sequence ≡ some (sequence - first)
unfolding lower_bound
lower_bound-Runs d first es last sequence r a b =
    bisect-Runs d first es last sequence r (sequence - first) (omega arith) (length es) 0
      (length es) (omega arith) (omega (arith, length-Runs d first es last r)) (omega arith)
      (omega arith)

pub drop-Runs :
    (d first : ℕ) (es : List SequencedEvent) (last n : ℕ)
    → Runs d first es last
    → n ≤ length es
    → Runs d (first + n) (drop n es) last
drop-Runs d first es last zero r h = rw add-zero r
drop-Runs d first [] last (suc n) r h = absurd (omega arith)
drop-Runs d first (e ∷ es) last (suc n) r h =
    let same : first + suc n ≡ first + 1 + n = omega arith in
    rw same (drop-Runs d (first + 1) es last n r.1 (omega arith))

pub append-Runs :
    (d first : ℕ) (es : List SequencedEvent) (last : ℕ) (e : SequencedEvent)
    → Runs d first es last
    → e.cursor ≡ record { daemon_instance = d; sequence = last + 1 }
    → Runs d first (es ++ e ∷ []) (last + 1)
append-Runs d first [] last e r h = rw r (h, refl)
append-Runs d first (x ∷ es) last e r h = (r.0, append-Runs d (first + 1) es last e r.1 h)

module _ {ℓ} {A : Type ℓ} where
  drop_short : (n : ℕ) (es : List A) → length es ≤ n → drop n es ≡ []
  drop_short zero [] h = refl
  drop_short zero (e ∷ es) h = absurd (omega arith)
  drop_short (suc n) [] h = refl
  drop_short (suc n) (e ∷ es) h = drop_short n es (omega arith)

  drop_pos : (n : ℕ) (e : A) (es : List A) → 0 < n → drop n (e ∷ es) ≡ drop (n - 1) es
  drop_pos zero e es h = elim h [ ]
  drop_pos (suc n) e es h = ap (λ k. drop k es) (omega arith)

  -- The eviction loop drops what is over the capacity, and no more.
  pub cut-eq-drop :
      (fuel capacity : ℕ) (es : List A)
      → length es ≤ fuel
      → cut fuel capacity es ≡ drop (length es - capacity) es
  unfolding cut
  cut-eq-drop zero capacity [] h = ground arith
  cut-eq-drop zero capacity (e ∷ es) h = absurd (omega arith)
  cut-eq-drop (suc fuel) capacity [] h =
      ground (arith, cut-eq-drop fuel capacity [], drop_short (0 - capacity) [])
  cut-eq-drop (suc fuel) capacity (e ∷ es) h =
      let n = suc (length es) - capacity in
      elim (Bool-cases (ltb capacity (suc (length es)))) [
        | inl over ↦ rw over (
            cut-eq-drop fuel capacity es (omega arith)
            ∙ ap (λ k. drop k es) (ground arith)
            ∙ sym (drop_pos n e es (ground arith)))
        | inr fits ↦ rw fits (ap (λ k. drop k (e ∷ es)) (let z : 0 ≡ n = ground arith in z))
      ]

replay_from-window :
    (d first : ℕ) (es : List SequencedEvent) (last sequence : ℕ)
    → Runs d first es last
    → first ≤ sequence
    → sequence < last
    → last ≤ u64_max
    → replay_from es (checked_next sequence) sequence ≡ some (drop (sequence - first) es)
unfolding checked_next
replay_from-window d first [] last sequence r a b m = absurd (omega arith)
replay_from-window d first (e ∷ es) last sequence r a b m =
    let starts : e.cursor.sequence ≡ first + 1 = ap (λ (c : EventCursor). c.sequence) r.0 in
    let next : ltb sequence u64_max ≡ true = ground arith in
    let near : ltb (sequence + 1) e.cursor.sequence ≡ false = ground arith in
    rw (next, near, lower_bound-Runs d first (e ∷ es) last sequence r a (omega arith))

replay_from-behind :
    (d first : ℕ) (es : List SequencedEvent) (last sequence : ℕ)
    → Runs d first es last
    → sequence < first
    → replay_from es (checked_next sequence) sequence ≡ none
unfolding checked_next
replay_from-behind d first [] last sequence r a = refl
replay_from-behind d first (e ∷ es) last sequence r a =
    let starts : e.cursor.sequence ≡ first + 1 = ap (λ (c : EventCursor). c.sequence) r.0 in
    ground arith

-- The state of a sequencer whose window starts after the event `first`.
pub record IsSound (first : ℕ) (s : EventSequencer) : Type 0 where
  pub runs : Runs s.daemon_instance first s.replay s.current
  pub bounded : length s.replay ≤ s.replay_capacity
  pub retains : 0 < s.replay_capacity
  pub representable : s.current ≤ u64_max

module _ (first : ℕ) (s : EventSequencer) (i : IsSound first s) (c : EventCursor) where
  -- On a sound sequencer, a client of the same epoch inside the window is given the events after its
  -- cursor, all of them and in order.
  pub replay_after-window :
      c.daemon_instance ≡ s.daemon_instance
      → first ≤ c.sequence
      → c.sequence ≤ s.current
      → (replay_after s c ≡ some (drop (c.sequence - first) s.replay))
        × Runs s.daemon_instance c.sequence (drop (c.sequence - first) s.replay) s.current
  unfolding replay_after
  replay_after-window d a b =
      let total = length-Runs s.daemon_instance first s.replay s.current i.runs in
      let given : replay_after s c ≡ some (drop (c.sequence - first) s.replay) =
        elim (Bool-cases (c.sequence == s.current)) [
          | inl now ↦
              rw (d, ==_refl s.daemon_instance, now)
                (ground (arith, drop_short (c.sequence - first) s.replay))
          | inr later ↦ ground (
            arith,
            replay_from-window s.daemon_instance first s.replay s.current c.sequence i.runs a
                (ground arith) i.representable,
          )
        ] in
      let at : first + (c.sequence - first) ≡ c.sequence = omega arith in
      (
        given,
        rw at at (
            drop-Runs s.daemon_instance first s.replay s.current (c.sequence - first) i.runs
              (omega (arith, total))),
      )

  -- On a sound sequencer, a client of another epoch, ahead of the stream, or behind the window gets
  -- no replay.
  pub replay_after-none :
      (c.daemon_instance ≢ s.daemon_instance) ⊎ (s.current < c.sequence) ⊎ (c.sequence < first)
      → replay_after s c ≡ none
  unfolding replay_after
  replay_after-none h =
      let total = length-Runs s.daemon_instance first s.replay s.current i.runs in
      ground
        (arith, replay_from-behind s.daemon_instance first s.replay s.current c.sequence i.runs)
