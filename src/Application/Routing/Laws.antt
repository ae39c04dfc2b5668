-- ===== src/Application/Routing/Laws.antt =====
-- Where a dispatched command goes.
use caly.Base.{
  ℕ, zero, suc, subst, ==_refl, ◌-◌, ◌≤◌, ◌<◌, ◌≡◌, refl, ap, ◌∙◌, sym, ◌⊎◌, inl, inr, true, false,
  List, [], ◌∷◌, ◌++◌, length, length-append, take, retain, ltb, arith, Bool-cases, ltb→lt,
}
use caly.Base.Result.{ok, err}
use mathlib.Core.List.{append_assoc, append-nil}
use caly.Base.Channel.{Channel}
use caly.Application.Routing.{
  CommandTarget, RoutedCommand, ActorCommandFanout, mailbox, try_dispatch, resource_exhausted,
  target_closed, core_lifecycle, config_actor, core_actor, subscription_actor, platform_actor,
  with_mailbox, same_target, position,
}

mailbox-with_mailbox :
    (f : ActorCommandFanout) (t : CommandTarget) (ch : Channel RoutedCommand)
    → mailbox (with_mailbox f t ch) t ≡ ch
mailbox-with_mailbox f core_lifecycle ch = refl
mailbox-with_mailbox f config_actor ch = refl
mailbox-with_mailbox f core_actor ch = refl
mailbox-with_mailbox f subscription_actor ch = refl
mailbox-with_mailbox f platform_actor ch = refl

with_mailbox-mailbox :
    (f : ActorCommandFanout) (t : CommandTarget) → with_mailbox f t (mailbox f t) ≡ f
with_mailbox-mailbox f core_lifecycle = refl
with_mailbox-mailbox f config_actor = refl
with_mailbox-mailbox f core_actor = refl
with_mailbox-mailbox f subscription_actor = refl
with_mailbox-mailbox f platform_actor = refl

mailbox-other :
    (f : ActorCommandFanout) (t u : CommandTarget) (ch : Channel RoutedCommand)
    → same_target u t ≡ false
    → mailbox (with_mailbox f u ch) t ≡ mailbox f t
mailbox-other f t u ch h = ground arith

-- The command goes to the end of its target's mailbox where that is open and has room, and otherwise
-- comes back whole with the reason.
pub dispatch-target :
    (f : ActorCommandFanout) (c : RoutedCommand)
    → let box = mailbox f c.target in
      ((box.is_open ≡ true)
        × (length box.queue < box.capacity)
        × (try_dispatch f c
            ≡ (with_mailbox f c.target (record box { queue = box.queue ++ c ∷ [] }), ok tt)))
      ⊎ ((box.is_open ≡ true)
          × (box.capacity ≤ length box.queue)
          × (try_dispatch f c ≡ (f, err (resource_exhausted c))))
      ⊎ ((box.is_open ≡ false) × (try_dispatch f c ≡ (f, err (target_closed c))))
unfolding try_dispatch
dispatch-target f c =
    let box = mailbox f c.target in
    let same = with_mailbox-mailbox f c.target in
    elim (Bool-cases box.is_open) [
      | inr closed ↦ inr (inr (closed, rw (closed, same)))
      | inl is_open ↦ elim (Bool-cases (ltb (length box.queue) box.capacity)) [
        | inl fits ↦ inl (is_open, ltb→lt _ _ fits, rw (is_open, fits))
        | inr over ↦ inr (inl (is_open, ground arith, rw (is_open, over, same)))
      ]
    ]

-- Dispatches commands one after another, whatever becomes of each.
unfoldable pub dispatch_all : ActorCommandFanout → List RoutedCommand → ActorCommandFanout
dispatch_all f [] = f
dispatch_all f (c ∷ cs) = dispatch_all (try_dispatch f c).0 cs

-- The room that a channel has left.
abbrev pub room : Channel RoutedCommand → ℕ
room box = box.capacity - length box.queue

abbrev pub owned_by : CommandTarget → List RoutedCommand → List RoutedCommand
owned_by t cs = retain (λ c. same_target c.target t) cs

-- A channel with more behind its queue.
abbrev pub extended : Channel RoutedCommand → List RoutedCommand → Channel RoutedCommand
extended box cs = record box { queue = box.queue ++ cs }

extended-room :
    (box : Channel RoutedCommand) (c : RoutedCommand) (cs : List RoutedCommand)
    → length box.queue < box.capacity
    → extended (extended box (c ∷ [])) (take (room (extended box (c ∷ []))) cs)
      ≡ extended box (take (room box) (c ∷ cs))
extended-room box c cs h =
    let count = length-append box.queue (c ∷ []) in
    let one_more : box.capacity - length box.queue
        ≡ suc (box.capacity - length (box.queue ++ c ∷ [])) =
      omega (arith, count) in
    ap (λ q. record box { queue = q })
      (append_assoc box.queue (c ∷ []) (take (room (extended box (c ∷ []))) cs)
        ∙ ap (λ r. box.queue ++ take r (c ∷ cs)) (sym one_more))

take_nil : (n : ℕ) → ◌≡◌ {A = List RoutedCommand} (take n []) []
take_nil zero = refl
take_nil (suc n) = refl

same_target→eq : (t u : CommandTarget) → same_target t u ≡ true → t ≡ u
same_target→eq t u h = ground arith

same_target_refl : (t : CommandTarget) → same_target t t ≡ true
same_target_refl t = ==_refl (position t)

-- What a dispatch leaves of the mailbox of the command's own target.
dispatch-own :
    (f : ActorCommandFanout) (c : RoutedCommand) (cs : List RoutedCommand)
    → (mailbox f c.target).is_open ≡ true
    → let after = mailbox (try_dispatch f c).0 c.target in
      (after.is_open ≡ true)
      × (extended after (take (room after) cs)
          ≡ extended (mailbox f c.target) (take (room (mailbox f c.target)) (c ∷ cs)))
dispatch-own f c cs h = elim (dispatch-target f c) [
  | inl (is_open, fits, e) ↦
      rw (e, mailbox-with_mailbox f c.target (extended (mailbox f c.target) (c ∷ [])))
        (h, extended-room (mailbox f c.target) c cs fits)
  | inr (inl (is_open, over, e)) ↦
      let none_left : room (mailbox f c.target) ≡ 0 = omega arith in rw e (h, rw none_left)
  | inr (inr (closed, e)) ↦ cc
]

-- A dispatch leaves the mailbox of any other target as it is.
dispatch-other :
    (f : ActorCommandFanout) (t : CommandTarget) (c : RoutedCommand)
    → same_target c.target t ≡ false
    → mailbox (try_dispatch f c).0 t ≡ mailbox f t
dispatch-other f t c h = elim (dispatch-target f c) [
  | inl (is_open, fits, e) ↦ rw e (mailbox-other f t c.target _ h)
  | inr (inl (is_open, over, e)) ↦ rw e
  | inr (inr (closed, e)) ↦ rw e
]

-- A dispatch to an open mailbox, seen from the mailbox of any target.
dispatch-mailbox :
    (f : ActorCommandFanout) (t : CommandTarget) (c : RoutedCommand) (cs : List RoutedCommand)
    → (mailbox f t).is_open ≡ true
    → (mailbox (try_dispatch f c).0 t).is_open ≡ true
      × (extended
            (mailbox (try_dispatch f c).0 t)
            (take (room (mailbox (try_dispatch f c).0 t)) (owned_by t cs))
          ≡ extended (mailbox f t) (take (room (mailbox f t)) (owned_by t (c ∷ cs))))
dispatch-mailbox f t c cs h = elim (Bool-cases (same_target c.target t)) [
  | inl same ↦
      let e = same_target→eq c.target t same in
      rw same (
        subst
          (λ u.
            (mailbox f u).is_open ≡ true
            → ((mailbox (try_dispatch f c).0 u).is_open ≡ true)
              × (extended (mailbox (try_dispatch f c).0 u)
                    (take (room (mailbox (try_dispatch f c).0 u)) (owned_by t cs))
                  ≡ extended (mailbox f u) (take (room (mailbox f u)) (c ∷ owned_by t cs))))
          e (dispatch-own f c (owned_by t cs)) h)
  | inr other ↦ let e = dispatch-other f t c other in rw (other, e) (h, refl)
]

-- After any dispatches, an open mailbox holds what it held, and behind it the first of the commands
-- that its owner is the target of, in their order and as many as it had room for: the commands of
-- other targets do not touch it, and one that found no room is left out.
pub dispatch_all-mailbox :
    (t : CommandTarget) (cs : List RoutedCommand) (f : ActorCommandFanout)
    → (mailbox f t).is_open ≡ true
    → mailbox (dispatch_all f cs) t
      ≡ extended (mailbox f t) (take (room (mailbox f t)) (owned_by t cs))
unfolding dispatch_all
dispatch_all-mailbox t [] f h =
    ap (λ q. record (mailbox f t) { queue = q })
      (sym (
        ap (◌++◌ (mailbox f t).queue) (take_nil (room (mailbox f t)))
        ∙ append-nil (mailbox f t).queue))
dispatch_all-mailbox t (c ∷ cs) f h =
    let (is_open, e) = dispatch-mailbox f t c cs h in
    dispatch_all-mailbox t cs (try_dispatch f c).0 is_open ∙ e
