-- ===== src/Protocol/Handshake.antt =====
-- crates/caly-protocol/src/protocol/v2: handshake.rs (versions, features) and negotiation.rs.
use caly.Base.{
  ℕ, ◌+◌, ◌≤◌, ◌≡◌, ◌≢◌, refl, ◌⊎◌, inl, inr, Bool, true, false, not, ◌&&◌, Option, none, some,
  List, [], ◌∷◌, ◌++◌, length, length-append, retain, ltb, ◌==◌, if◌then◌else◌, arith, Bool-cases,
  Option-cases, elem,
}
use caly.Domain.Text.{Text}
use caly.Protocol.Budget.{DecodeLimits}
use caly.Base.Result.{Result, ok, err, ◌>>=◌, ok_or}
use mathlib.Core.List.{append_assoc, append-nil}

abbrev pub max_handshake_features : ℕ
max_handshake_features = 64

pub record ProtocolVersion : Type 0 where
  pub major : ℕ
  pub minor : ℕ

-- `ProtocolVersion::negotiate`.
unfoldable pub negotiate : ProtocolVersion → ProtocolVersion → Option ProtocolVersion
negotiate v peer =
    if v.major == peer.major
    then some
        (record { major = v.major; minor = if ltb v.minor peer.minor then v.minor else peer.minor })
    else none

pub data Feature : Type 0 where
  operations operation_cancellation event_replay full_snapshot_recovery unknown_enum_preservation :
      Feature

-- `Feature::raw`.
unfoldable pub raw : Feature → ℕ
raw operations = 1
raw operation_cancellation = 2
raw event_replay = 3
raw full_snapshot_recovery = 4
raw unknown_enum_preservation = 5

-- `RawFeature::known`; a raw feature is the bit pattern of its i32.
unfoldable pub known : ℕ → Option Feature
known f =
    if f == 1
    then some operations
    else (if f == 2
        then some operation_cancellation
        else (if f == 3
            then some event_replay
            else (if f == 4
                then some full_snapshot_recovery
                else (if f == 5 then some unknown_enum_preservation else none))))

pub record HandshakeRequest : Type 0 where
  pub client_version : ProtocolVersion
  pub requested_features : List ℕ
  pub auth_token : Option Text

pub record HandshakeResponse : Type 0 where
  pub negotiated_version : ProtocolVersion
  pub daemon_instance_id : ℕ
  pub enabled_features : List ℕ
  pub unknown_requested_features : List ℕ
  pub limits : DecodeLimits
  pub session_token : ℕ

pub data HandshakeError : Type 0 where
  incompatible_major : (client server : ℕ) → HandshakeError
  feature_capacity_exceeded : HandshakeError

-- `push_feature`, with the capacity test of `BoundedVec::try_push`.
unfoldable pub push_feature : List ℕ → ℕ → Result HandshakeError (List ℕ)
push_feature target value =
    if length target == max_handshake_features
    then err feature_capacity_exceeded
    else ok (target ++ value ∷ [])

-- The loop over the requested features, on the two lists that it fills.
unfoldable pub sort_features :
    List ℕ → List ℕ → List ℕ → List ℕ → Result HandshakeError (List ℕ × List ℕ)
sort_features supported [] enabled unknown = ok (enabled, unknown)
sort_features supported (requested ∷ rest) enabled unknown = elim (known requested) [
  | none ↦ push_feature unknown requested >>= λ u. sort_features supported rest enabled u
  | some _ ↦
      if elem requested supported
      then (push_feature enabled requested >>= λ e. sort_features supported rest e unknown)
      else sort_features supported rest enabled unknown
]

-- `negotiate_handshake`.
unfoldable pub negotiate_handshake :
    HandshakeRequest
    → ProtocolVersion
    → List ℕ
    → ℕ
    → ℕ
    → DecodeLimits
    → Result HandshakeError HandshakeResponse
negotiate_handshake request server supported daemon_instance_id session_token limits = do
  version ←
      ok_or (negotiate server request.client_version)
        (incompatible_major request.client_version.major server.major)
  lists ← sort_features supported request.requested_features [] []
  ok (record {
    negotiated_version = version;
    daemon_instance_id = daemon_instance_id;
    enabled_features = lists.0;
    unknown_requested_features = lists.1;
    limits = limits;
    session_token = session_token;
  })

abbrev pub is_unknown : ℕ → Bool
is_unknown f = elim (known f) [ none ↦ true | some _ ↦ false ]

-- The known features among `fs` that the server supports.
abbrev pub is_enabled : List ℕ → ℕ → Bool
is_enabled supported f = not (is_unknown f) && elem f supported

sort_features-retain :
    (supported fs enabled unknown : List ℕ)
    → length enabled + length fs ≤ max_handshake_features
    → length unknown + length fs ≤ max_handshake_features
    → sort_features supported fs enabled unknown
      ≡ ok (enabled ++ retain (is_enabled supported) fs, unknown ++ retain is_unknown fs)
unfolding sort_features push_feature
sort_features-retain supported [] enabled unknown a b =
    ground (arith, append-nil enabled, append-nil unknown)
sort_features-retain supported (f ∷ fs) enabled unknown a b = elim (Option-cases (known f)) [
  | inl strange ↦ ground (
    arith,
    strange,
    sort_features-retain supported fs enabled (unknown ++ f ∷ []),
    append_assoc unknown (f ∷ []) (retain is_unknown fs),
    length-append unknown (f ∷ []),
  )
  | inr (name, usual) ↦ ground (
    arith,
    usual,
    sort_features-retain supported fs (enabled ++ f ∷ []) unknown,
    sort_features-retain supported fs enabled unknown,
    append_assoc enabled (f ∷ []) (retain (is_enabled supported) fs),
    length-append enabled (f ∷ []),
  )
]

-- The two ways in which a handshake ends.
abbrev pub HandshakeOutcome :
    HandshakeRequest → ProtocolVersion → List ℕ → ℕ → ℕ → DecodeLimits → Type 0
HandshakeOutcome q server supported id token limits =
    ((q.client_version.major ≢ server.major)
      × (negotiate_handshake q server supported id token limits
          ≡ err (incompatible_major q.client_version.major server.major)))
    ⊎ ((q.client_version.major ≡ server.major)
        × ((v : ProtocolVersion) × (v.major ≡ server.major)
            × (v.minor ≤ server.minor)
            × (v.minor ≤ q.client_version.minor)
            × ((v.minor ≡ server.minor) ⊎ (v.minor ≡ q.client_version.minor))
            × (negotiate_handshake q server supported id token limits
                ≡ ok (record {
                  negotiated_version = v;
                  daemon_instance_id = id;
                  enabled_features = retain (is_enabled supported) q.requested_features;
                  unknown_requested_features = retain is_unknown q.requested_features;
                  limits = limits;
                  session_token = token;
                }))))

-- A handshake whose request holds no more features than its bound fails exactly where the major
-- versions differ. Otherwise it settles on the lower minor version, enables the known features asked
-- for that the server supports, and gives back the unknown ones, each in the order of the request.
pub negotiate_handshake-outcome :
    (q : HandshakeRequest) (server : ProtocolVersion) (supported : List ℕ) (id token : ℕ)
    (limits : DecodeLimits)
    → length q.requested_features ≤ max_handshake_features
    → HandshakeOutcome q server supported id token limits
unfolding negotiate_handshake negotiate
negotiate_handshake-outcome q server supported id token limits h =
    let sorted =
      sort_features-retain supported q.requested_features [] [] (omega arith) (omega arith) in
    elim (Bool-cases (server.major == q.client_version.major)) [
      | inr apart ↦ inl (ground arith, rw apart refl)
      | inl same ↦
          let version : ProtocolVersion = record {
            major = server.major;
            minor =
                if ltb server.minor q.client_version.minor
                then server.minor
                else q.client_version.minor;
          } in
          inr (
            ground arith,
            (version, refl, ground arith, ground arith, ground arith, rw (same, sorted) refl),
          )
    ]
