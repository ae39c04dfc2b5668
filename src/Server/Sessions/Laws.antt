-- ===== src/Server/Sessions/Laws.antt =====
-- What the session registry of `session.rs` keeps through every history of calls.
use caly.Base.{
  ℕ, ◌≤◌, ◌≡◌, ◌≢◌, refl, inl, inr, Bool, none, some, List, [], ◌∷◌, ltb, leb, ◌==◌, if◌then◌else◌,
  arith, Bool-cases, Option-cases, ==_refl,
}
use caly.Base.Result.{ok, err}
use caly.Base.Table.{
  get, put, remove, keep, size, IsKeyed, get-put, get-remove, put-IsKeyed, remove-IsKeyed,
  size-put_fresh, size-put_held, size-remove-le,
}
use caly.Server.Sessions.{
  ProtocolSession, SessionRegistry, insert, refresh, validate, remove_session, contains,
  purge_expired, missing, expired, stored,
}

-- The registry holds one session for each token, under that token, never under the zero token, and no
-- more than its capacity.
pub record IsSound (r : SessionRegistry) : Type 0 where
  pub keyed : IsKeyed r.sessions
  pub bounded : size r.sessions ≤ r.capacity
  pub held : (k : ℕ) (s : ProtocolSession) → get k r.sessions ≡ some s → (s.token ≡ k) × (k ≢ 0)

module _ {V : Type 0} (p : V → Bool) where
  pub get-keep-none : (k : ℕ) (t : List (ℕ × V)) → get k t ≡ none → get k (keep p t) ≡ none
  unfolding get keep
  get-keep-none k [] h = refl
  get-keep-none k ((j, w) ∷ t) h = ground (arith, get-keep-none k t)

  pub get-keep :
      (k : ℕ) (t : List (ℕ × V))
      → IsKeyed t
      → get k (keep p t) ≡ (elim (get k t) [ none ↦ none | some v ↦ if p v then some v else none ])
  unfolding get keep IsKeyed
  get-keep k [] h = refl
  get-keep k ((j, w) ∷ t) h = ground (arith, get-keep k t h.1, get-keep-none j t h.0)

  pub keep-IsKeyed : (t : List (ℕ × V)) → IsKeyed t → IsKeyed (keep p t)
  unfolding keep IsKeyed
  keep-IsKeyed [] h = tt
  keep-IsKeyed ((j, w) ∷ t) h = ground (arith, keep-IsKeyed t h.1, get-keep-none j t h.0)

  pub size-keep-le : (t : List (ℕ × V)) → size (keep p t) ≤ size t
  unfolding keep size
  size-keep-le [] = omega arith
  size-keep-le ((j, w) ∷ t) = ground (arith, size-keep-le t)

pub data Call : Type 0 where
  inserts : (s : ProtocolSession) → Call
  refreshes : (s : ProtocolSession) → Call
  validates : (token now : ℕ) → Call
  removes : (token : ℕ) → Call
  purges : (now : ℕ) → Call

unfoldable pub step : SessionRegistry → Call → SessionRegistry
unfolding insert refresh validate remove_session purge_expired
step r (inserts s) = (insert r s).0
step r (refreshes s) = (refresh r s).0
step r (validates token now) = (validate r token now).0
step r (removes token) = (remove_session r token).0
step r (purges now) = (purge_expired r now).0

unfoldable pub run : SessionRegistry → List Call → SessionRegistry
unfolding step
run r [] = r
run r (c ∷ cs) = run (step r c) cs

stored-IsSound :
    (r : SessionRegistry) (s : ProtocolSession)
    → IsSound r
    → s.token ≢ 0
    → size (put s.token s r.sessions) ≤ r.capacity
    → IsSound (stored r s)
stored-IsSound r s i h fits = record {
  keyed = put-IsKeyed s.token s r.sessions i.keyed;
  bounded = fits;
  held = λ k v e. ground (arith, get-put k s.token s r.sessions, i.held k v);
}

removed-IsSound :
    (r : SessionRegistry) (token : ℕ)
    → IsSound r
    → IsSound (record r { sessions = remove token r.sessions })
removed-IsSound r token i = record {
  keyed = remove-IsKeyed token r.sessions i.keyed;
  bounded = omega (arith, size-remove-le token r.sessions, i.bounded);
  held = λ k v e. ground (arith, get-remove k token r.sessions, i.held k v);
}

insert-IsSound : (r : SessionRegistry) (s : ProtocolSession) → IsSound r → IsSound (insert r s).0
unfolding insert
insert-IsSound r s i = elim (Bool-cases (s.token == 0)) [
  | inl zeroed ↦ rw zeroed i
  | inr valid ↦ elim (Option-cases (get s.token r.sessions)) [
    | inr (old, e) ↦ rw (valid, contains, e) i
    | inl e ↦ elim (Bool-cases (size r.sessions == r.capacity)) [
      | inl full ↦ rw (valid, contains, e, full) i
      | inr room ↦
          rw (valid, contains, e, room)
            (stored-IsSound r s i (ground arith)
              (ground (arith, size-put_fresh s.token s r.sessions e, i.bounded)))
    ]
  ]
]

refresh-IsSound : (r : SessionRegistry) (s : ProtocolSession) → IsSound r → IsSound (refresh r s).0
unfolding refresh
refresh-IsSound r s i = elim (Bool-cases (s.token == 0)) [
  | inl zeroed ↦ rw zeroed i
  | inr valid ↦ elim (Option-cases (get s.token r.sessions)) [
    | inr (old, e) ↦
        rw (valid, contains, e)
          (stored-IsSound r s i (ground arith)
            (ground (arith, size-put_held s.token s old r.sessions e, i.bounded)))
    | inl e ↦ elim (Bool-cases (size r.sessions == r.capacity)) [
      | inl full ↦ rw (valid, contains, e, full) i
      | inr room ↦
          rw (valid, contains, e, room)
            (stored-IsSound r s i (ground arith)
              (ground (arith, size-put_fresh s.token s r.sessions e, i.bounded)))
    ]
  ]
]

validate-IsSound :
    (r : SessionRegistry) (token now : ℕ) → IsSound r → IsSound (validate r token now).0
unfolding validate
validate-IsSound r token now i = elim (Option-cases (get token r.sessions)) [
  | inl e ↦ rw e i
  | inr (s, e) ↦ elim (Bool-cases (leb s.expires_at now)) [
    | inl late ↦ rw (e, late) (removed-IsSound r token i)
    | inr live ↦ rw (e, live) i
  ]
]

purge-IsSound : (r : SessionRegistry) (now : ℕ) → IsSound r → IsSound (purge_expired r now).0
unfolding purge_expired
purge-IsSound r now i =
    let live = λ (s : ProtocolSession). ltb now s.expires_at in
    record {
      keyed = keep-IsKeyed live r.sessions i.keyed;
      bounded = omega (arith, size-keep-le live r.sessions, i.bounded);
      held = λ k v e. ground (arith, get-keep live k r.sessions i.keyed, i.held k v);
    }

step-IsSound : (r : SessionRegistry) (c : Call) → IsSound r → IsSound (step r c)
unfolding step remove_session
step-IsSound r (inserts s) i = insert-IsSound r s i
step-IsSound r (refreshes s) i = refresh-IsSound r s i
step-IsSound r (validates token now) i = validate-IsSound r token now i
step-IsSound r (removes token) i = removed-IsSound r token i
step-IsSound r (purges now) i = purge-IsSound r now i

-- A sound session registry stays sound through every list of calls of insert, refresh, validate,
-- remove and purge_expired: one session for each token, under its own token, which is not the zero
-- token, and never more sessions than the capacity.
pub registry-IsSound : (r : SessionRegistry) (cs : List Call) → IsSound r → IsSound (run r cs)
unfolding run
registry-IsSound r [] i = i
registry-IsSound r (c ∷ cs) i = registry-IsSound (step r c) cs (step-IsSound r c i)

-- In a sound registry, after a successful refresh and a purge at one time, the validation of the token
-- at another time gives the session registered where it is live at both times, reports it expired
-- where it was live at the purge only, and missing where the purge took it.
pub refresh-validate :
    (r : SessionRegistry) (s : ProtocolSession) (purged now : ℕ)
    → IsSound r
    → (refresh r s).1 ≡ ok tt
    → (validate (purge_expired (refresh r s).0 purged).0 s.token now).1 ≡ (
        if ltb purged s.expires_at
        then (if ltb now s.expires_at then ok s else err expired)
        else err missing)
unfolding validate purge_expired
refresh-validate r s purged now i done =
    let kept : (refresh r s).0 ≡ stored r s = unfold refresh in ground arith in
    let live = λ (x : ProtocolSession). ltb purged x.expires_at in
    let found =
      get-keep live s.token (put s.token s r.sessions) (put-IsKeyed s.token s r.sessions i.keyed) in
    rw kept (ground (arith, found, get-put s.token s.token s r.sessions, ==_refl s.token))
