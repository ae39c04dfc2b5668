-- ===== src/Recovery/AtomicWrite.antt =====
-- crates/caly-platform/src/fs/mod.rs: a file replaced by way of a temporary one. The calls of the
-- operating system work on the two files, and each may fail.
use caly.Base.{ℕ, ◌≡◌, refl, ◌⊎◌, inl, inr, Option, none, some, List, Option-cases}
use caly.Base.Result.{Result, ok, err}
use caly.Domain.Text.{Text}

abbrev pub max_atomic_file_bytes : ℕ
max_atomic_file_bytes = 16777216

pub record Disk : Type 0 where
  pub destination : Option (List ℕ)
  pub temporary : Option (List ℕ)

-- Which calls fail, and with what; a failing write leaves `torn` in the temporary file.
pub record Faults : Type 0 where
  pub create : Option Text
  pub write : Option Text
  pub torn : List ℕ
  pub sync : Option Text
  pub replace : Option Text
  pub sync_parent : Option Text
  pub remove : Option Text

pub record AtomicWriteFailure : Type 0 where
  pub primary : Text
  pub cleanup : Option Text

abbrev pub Written : Type 0
Written = Disk × Result AtomicWriteFailure (Unit {0})

-- `clean_owned_temporary`.
abbrev pub clean_owned_temporary : Disk → Option Text → Text → Written
clean_owned_temporary d none primary =
    (record d { temporary = none }, err (record { primary = primary; cleanup = none }))
clean_owned_temporary d (some e) primary = (d, err (record { primary = primary; cleanup = some e }))

-- The directory's entry is made durable.
abbrev pub synced_parent : Disk → Option Text → Written
synced_parent d none = (d, ok tt)
synced_parent d (some e) = (d, err (record { primary = e; cleanup = none }))

abbrev pub replaced : Disk → List ℕ → Faults → Option Text → Written
replaced d contents f (some e) = clean_owned_temporary d f.remove e
replaced d contents f none =
    synced_parent (record { destination = some contents; temporary = none }) f.sync_parent

-- `write_and_sync_temporary`, and what follows it.
abbrev pub synced : Disk → List ℕ → Faults → Option Text → Written
synced d contents f (some e) = clean_owned_temporary d f.remove e
synced d contents f none = replaced d contents f f.replace

abbrev pub filled : Disk → List ℕ → Faults → Option Text → Written
filled d contents f (some e) =
    clean_owned_temporary (record d { temporary = some f.torn }) f.remove e
filled d contents f none = synced (record d { temporary = some contents }) contents f f.sync

abbrev pub created : Disk → List ℕ → Faults → Option Text → Written
created d contents f (some e) = (d, err (record { primary = e; cleanup = none }))
created d contents f none = filled d contents f f.write

unfoldable pub atomic_write : Disk → List ℕ → Faults → Written
atomic_write d contents f = created d contents f f.create

-- The destination holds what it held, and the write failed; or it holds the whole contents.
abbrev pub WholeOrOld : Option (List ℕ) → List ℕ → Written → Type 0
WholeOrOld old contents w =
    ((w.0.destination ≡ old) × ((e : AtomicWriteFailure) × (w.1 ≡ err e)))
    ⊎ (w.0.destination ≡ some contents)

clean-WholeOrOld :
    (d : Disk) (contents : List ℕ) (o : Option Text) (e : Text)
    → WholeOrOld d.destination contents (clean_owned_temporary d o e)
clean-WholeOrOld d contents none e = inl (refl, (_, refl))
clean-WholeOrOld d contents (some r) e = inl (refl, (_, refl))

replaced-WholeOrOld :
    (d : Disk) (contents : List ℕ) (f : Faults) (o : Option Text)
    → WholeOrOld d.destination contents (replaced d contents f o)
replaced-WholeOrOld d contents f (some e) = clean-WholeOrOld d contents f.remove e
replaced-WholeOrOld d contents f none = elim (Option-cases f.sync_parent) [
  | inl durable ↦ inr (rw durable)
  | inr (e, lost) ↦ inr (rw lost)
]

synced-WholeOrOld :
    (d : Disk) (contents : List ℕ) (f : Faults) (o : Option Text)
    → WholeOrOld d.destination contents (synced d contents f o)
synced-WholeOrOld d contents f (some e) = clean-WholeOrOld d contents f.remove e
synced-WholeOrOld d contents f none = replaced-WholeOrOld d contents f f.replace

filled-WholeOrOld :
    (d : Disk) (contents : List ℕ) (f : Faults) (o : Option Text)
    → WholeOrOld d.destination contents (filled d contents f o)
filled-WholeOrOld d contents f (some e) =
    clean-WholeOrOld (record d { temporary = some f.torn }) contents f.remove e
filled-WholeOrOld d contents f none =
    synced-WholeOrOld (record d { temporary = some contents }) contents f f.sync

created-WholeOrOld :
    (d : Disk) (contents : List ℕ) (f : Faults) (o : Option Text)
    → WholeOrOld d.destination contents (created d contents f o)
created-WholeOrOld d contents f (some e) = inl (refl, (_, refl))
created-WholeOrOld d contents f none = filled-WholeOrOld d contents f f.write

pub atomic_write-WholeOrOld :
    (d : Disk) (contents : List ℕ) (f : Faults)
    → WholeOrOld d.destination contents (atomic_write d contents f)
unfolding atomic_write
atomic_write-WholeOrOld d contents f = created-WholeOrOld d contents f f.create
