-- ===== src/Server/Tests.antt =====
-- Runs of the session registry on concrete inputs.
use caly.Base.{◌≡◌, refl, [], ◌∷◌, arith}
use caly.Base.Result.{err}
use caly.Base.Table.{get, size, IsKeyed}
use caly.Server.Sessions.{
  ProtocolSession, SessionRegistry, refresh, validate, purge_expired, expired,
}
use caly.Server.Sessions.Laws.{
  IsSound, run, inserts, refreshes, validates, purges, removes, registry-IsSound, refresh-validate,
}

abbrev fresh : SessionRegistry
fresh = record { sessions = []; capacity = 2 }

fresh-IsSound : IsSound fresh
unfolding get size IsKeyed
fresh-IsSound = record { keyed = tt; bounded = omega arith; held = λ k s e. cc }

abbrev session : ProtocolSession
session = record {
  token = 7;
  version = record { major = 2; minor = 0 };
  features = 1 ∷ [];
  expires_at = 50;
}

registry-IsSound_example :
    IsSound (
      run fresh (refreshes session ∷ inserts session ∷ purges 60 ∷ validates 7 10 ∷ removes 7 ∷ []))
registry-IsSound_example =
    registry-IsSound fresh
      (refreshes session ∷ inserts session ∷ purges 60 ∷ validates 7 10 ∷ removes 7 ∷ [])
      fresh-IsSound

refresh-validate_example :
    (validate (purge_expired (refresh fresh session).0 10).0 7 60).1 ≡ err expired
unfolding size
refresh-validate_example =
    refresh-validate fresh session 10 60 fresh-IsSound (unfold refresh in unfold get in refl)
