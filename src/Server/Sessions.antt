-- ===== src/Server/Sessions.antt =====
-- crates/caly-server/src/json/session.rs: the bounded registry of handshake sessions. A token of 16
-- bytes is a number, the all-zero token is 0.
pub mod Laws
use caly.Base.{
  ℕ, ◌-◌, Bool, true, false, not, ◌&&◌, ◌||◌, Option, none, some, List, [], ltb, leb, ◌==◌,
  if◌then◌else◌,
}
use caly.Base.Result.{Result, ok, err}
use caly.Base.Table.{get, put, remove, keep, size}
use caly.Protocol.Handshake.{ProtocolVersion}

abbrev pub max_protocol_sessions : ℕ
max_protocol_sessions = 1024

pub record ProtocolSession : Type 0 where
  pub token : ℕ
  pub version : ProtocolVersion
  pub features : List ℕ
  pub expires_at : ℕ

pub data SessionError : Type 0 where
  capacity_reached token_collision invalid_token missing expired : SessionError

pub record SessionRegistry : Type 0 where
  pub sessions : List (ℕ × ProtocolSession)
  pub capacity : ℕ

abbrev pub contains : ℕ → SessionRegistry → Bool
contains token r = elim (get token r.sessions) [ none ↦ false | some _ ↦ true ]

abbrev pub stored : SessionRegistry → ProtocolSession → SessionRegistry
stored r s = record r { sessions = put s.token s r.sessions }

unfoldable pub new : ℕ → Result SessionError SessionRegistry
new capacity =
    if capacity == 0 || ltb max_protocol_sessions capacity
    then err capacity_reached
    else ok (record { sessions = []; capacity = capacity })

unfoldable pub insert :
    SessionRegistry → ProtocolSession → SessionRegistry × Result SessionError (Unit {0})
insert r s =
    if s.token == 0
    then (r, err invalid_token)
    else (if contains s.token r
        then (r, err token_collision)
        else (if size r.sessions == r.capacity
            then (r, err capacity_reached)
            else (stored r s, ok tt)))

unfoldable pub refresh :
    SessionRegistry → ProtocolSession → SessionRegistry × Result SessionError (Unit {0})
refresh r s =
    if s.token == 0
    then (r, err invalid_token)
    else (if not (contains s.token r) && size r.sessions == r.capacity
        then (r, err capacity_reached)
        else (stored r s, ok tt))

abbrev pub validated :
    Option ProtocolSession
    → SessionRegistry
    → ℕ
    → ℕ
    → SessionRegistry × Result SessionError ProtocolSession
validated none r token now = (r, err missing)
validated (some s) r token now =
    if leb s.expires_at now
    then (record r { sessions = remove token r.sessions }, err expired)
    else (r, ok s)

unfoldable pub validate :
    SessionRegistry → ℕ → ℕ → SessionRegistry × Result SessionError ProtocolSession
validate r token now = validated (get token r.sessions) r token now

unfoldable pub remove_session : SessionRegistry → ℕ → SessionRegistry × Bool
remove_session r token = (record r { sessions = remove token r.sessions }, contains token r)

unfoldable pub purge_expired : SessionRegistry → ℕ → SessionRegistry × ℕ
purge_expired r now =
    let left = keep (λ s. ltb now s.expires_at) r.sessions in
    (record r { sessions = left }, size r.sessions - size left)
