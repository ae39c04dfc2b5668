-- ===== src/Recovery/RestoreFirst/Laws.antt =====
-- What is on disk after the gate, whatever fails in it.
use caly.Base.{ℕ, ◌≡◌, ◌⊎◌, Option, none, some, List, []}
use caly.Base.Result.{Result, ok, err}
use caly.Domain.Text.{Text, codes}
use caly.Recovery.AtomicWrite.{Disk}
use caly.Recovery.RestoreFirst.{
  RecoveryRecord, applied, permission, StoreFaults, Boot, RecoveryOutcome, nothing_pending,
  restored, RecoveryFailure, clear_if_owner,
}

abbrev pub no_faults : StoreFaults
no_faults = record { probing = none; reading = none; renaming = none; removing = none }

module _ {ℓ} {P : Type ℓ} (to_vec : RecoveryRecord P → Result Text (List ℕ))
    (from_slice : List ℕ → Option (RecoveryRecord P)) where
  -- What the JSON codec promises: a record that it writes is read back, and no bytes are no record.
  pub record Codec : Type ℓ where
    pub reads_back :
        (r : RecoveryRecord P) (bytes : List ℕ) → to_vec r ≡ ok bytes → from_slice bytes ≡ some r
    pub empty : from_slice [] ≡ none

  -- The file on disk is a record.
  abbrev pub Holds : Disk → RecoveryRecord P → Type ℓ
  Holds d r = (bytes : List ℕ) × (d.destination ≡ some bytes) × (from_slice bytes ≡ some r)

  -- After a gate that found the record `r`, the disk holds a record of the same effect: the running
  -- daemon's own where the gate restored it, and otherwise one that the failure left.
  abbrev pub Kept :
      Boot P → RecoveryRecord P → Disk × Result RecoveryFailure RecoveryOutcome → Type ℓ
  Kept b r g =
      (r' : RecoveryRecord P) × Holds g.0 r'
      × (r'.parameters ≡ r.parameters)
      × (((g.1 ≡ ok restored) × (r'.owner_token ≡ b.current_token) × (r'.phase ≡ applied))
          ⊎ ((e : RecoveryFailure) × (g.1 ≡ err e)))

  -- The lookup of the file failed, and the gate passed as if nothing were pending, the disk as it was.
  abbrev pub Overlooked : Disk → Boot P → Disk × Result RecoveryFailure RecoveryOutcome → Type 0
  Overlooked d b g = (g ≡ (d, ok nothing_pending)) × ((e : Text) × (b.store.probing ≡ some e))

  -- After the gate, the daemon's own token removes the file, and another token is refused.
  abbrev pub Owned : Boot P → ℕ → Disk → Type 0
  Owned b other d =
      (clear_if_owner to_vec from_slice d b.current_token no_faults
        ≡ (record d { destination = none }, ok tt))
      × (clear_if_owner to_vec from_slice d other no_faults
          ≡ (d, err (permission (codes "recovery record owned by a different token"))))
