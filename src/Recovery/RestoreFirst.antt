-- ===== src/Recovery/RestoreFirst.antt =====
-- crates/caly-platform/src/recovery/mod.rs and store.rs: the record of a platform effect on disk, and
-- the gate that applies it again before a daemon starts. The proxy's and the TUN's records share all
-- but their parameters, `P`. The JSON codec of serde is a pair of parameters, and an error carries
-- the text of what failed.
pub mod Laws
use caly.Base.{
  ℕ, Bool, true, false, Option, none, some, List, [], ◌∷◌, length, ltb, ◌==◌, if◌then◌else◌,
}
use caly.Base.Result.{Result, ok, err, map_err, ◌>>=◌}
use caly.Domain.Text.{Text, codes}
use caly.Recovery.AtomicWrite.{
  Disk, Faults, AtomicWriteFailure, atomic_write, max_atomic_file_bytes,
}

pub data RecoveryPhase : Type 0 where
  prepared applied restoring : RecoveryPhase

-- `ProxyRecoveryRecord` and `TunRecoveryRecord`.
pub record RecoveryRecord {ℓ} (P : Type ℓ) : Type ℓ where
  pub owner_token : ℕ
  pub phase : RecoveryPhase
  pub parameters : P

pub data RecoveryStoreError : Type 0 where
  read write parse remove permission : Text → RecoveryStoreError

-- What the operating system answers: whether the file can be looked up, read, renamed away and
-- removed.
pub record StoreFaults : Type 0 where
  pub probing : Option Text
  pub reading : Option Text
  pub renaming : Option Text
  pub removing : Option Text

pub data RecoveryOutcome : Type 0 where
  nothing_pending restored : RecoveryOutcome

pub data RecoveryFailure : Type 0 where
  load_failed : RecoveryStoreError → RecoveryFailure
  mark_restoring : RecoveryStoreError → RecoveryFailure
  restore_failed : Text → RecoveryFailure
  reapply_persist : RecoveryStoreError → RecoveryFailure

-- The answers that one run of the gate meets: of the store, of its two writes, and of the action
-- that restores the effect.
pub record Boot {ℓ} (P : Type ℓ) : Type ℓ where
  pub store : StoreFaults
  pub marking : Faults
  pub restore : RecoveryRecord P → Option Text
  pub reapplying : Faults
  pub current_token : ℕ

module _ {ℓ} {P : Type ℓ} (to_vec : RecoveryRecord P → Result Text (List ℕ))
    (from_slice : List ℕ → Option (RecoveryRecord P)) where
  abbrev pub Loaded : Type ℓ
  Loaded = Disk × Result RecoveryStoreError (Option (RecoveryRecord P))

  -- A record that does not parse is renamed away, where that succeeds.
  abbrev pub quarantined : Disk → Option Text → Disk
  quarantined d none = record d { destination = none }
  quarantined d (some e) = d

  abbrev pub parsed : Disk → StoreFaults → Option (RecoveryRecord P) → Loaded
  parsed d f (some r) = (d, ok (some r))
  parsed d f none = (quarantined d f.renaming, ok none)

  abbrev pub loaded : Disk → StoreFaults → Option (List ℕ) → Option Text → Loaded
  loaded d f none fault = (d, ok none)
  loaded d f (some bytes) (some e) = (d, err (read e))
  loaded d f (some []) none = (d, ok none)
  loaded d f (some (b ∷ bs)) none = parsed d f (from_slice (b ∷ bs))

  -- `path.exists()`: a lookup that fails says that nothing is there.
  abbrev pub seen : Option (List ℕ) → Option Text → Option (List ℕ)
  seen file none = file
  seen file (some e) = none

  -- `FileRecoveryStore::load`.
  unfoldable pub load : Disk → StoreFaults → Loaded
  load d f = loaded d f (seen d.destination f.probing) f.reading

  abbrev pub Persisted : Type 0
  Persisted = Disk × Result RecoveryStoreError (Unit {0})

  -- `atomic_owner_write`.
  abbrev pub atomic_owner_write : Disk → List ℕ → Faults → Persisted
  atomic_owner_write d bytes f =
      if ltb max_atomic_file_bytes (length bytes)
      then (d, err (write (codes "record exceeds size bound")))
      else (let (d', r) = atomic_write d bytes f in (d', map_err (λ e. write e.primary) r))

  abbrev pub serialized : Disk → Faults → Result Text (List ℕ) → Persisted
  serialized d f (err e) = (d, err (write e))
  serialized d f (ok bytes) = atomic_owner_write d bytes f

  -- `FileRecoveryStore::persist`.
  unfoldable pub persist : Disk → RecoveryRecord P → Faults → Persisted
  persist d r f = serialized d f (to_vec r)

  abbrev pub removed : Disk → Option Text → Persisted
  removed d none = (record d { destination = none }, ok tt)
  removed d (some e) = (d, err (remove e))

  abbrev pub cleared : ℕ → StoreFaults → Loaded → Persisted
  cleared token f (d, err e) = (d, err e)
  cleared token f (d, ok none) = (d, ok tt)
  cleared token f (d, ok (some r)) =
      if r.owner_token == token
      then removed d f.removing
      else (d, err (permission (codes "recovery record owned by a different token")))

  -- `FileRecoveryStore::clear_if_owner`.
  unfoldable pub clear_if_owner : Disk → ℕ → StoreFaults → Persisted
  clear_if_owner d token f = cleared token f (load d f)

  abbrev pub Gated : Type 0
  Gated = Disk × Result RecoveryFailure RecoveryOutcome

  abbrev pub reapplied : Persisted → Gated
  reapplied (d, err e) = (d, err (reapply_persist e))
  reapplied (d, ok _) = (d, ok restored)

  abbrev pub taken_over : Disk → Boot P → RecoveryRecord P → Option Text → Gated
  taken_over d b r (some e) = (d, err (restore_failed e))
  taken_over d b r none =
      reapplied
        (persist d (record r { owner_token = b.current_token; phase = applied }) b.reapplying)

  abbrev pub marked : Boot P → RecoveryRecord P → Persisted → Gated
  marked b r (d, err e) = (d, err (mark_restoring e))
  marked b r (d, ok _) = taken_over d b r (b.restore r)

  abbrev pub gated : Boot P → Loaded → Gated
  gated b (d, err e) = (d, err (load_failed e))
  gated b (d, ok none) = (d, ok nothing_pending)
  gated b (d, ok (some r)) =
      let marking = record r { phase = restoring } in marked b marking (persist d marking b.marking)

  -- `proxy_restore_first` and `tun_restore_first`.
  unfoldable pub restore_first : Disk → Boot P → Gated
  restore_first d b = gated b (load d b.store)
