-- ===== src/Base/Channel.antt =====
-- `std::sync::mpsc::sync_channel` with a positive capacity, as one value that its two ends share.
use Prim.Native.Nat.{ℕ}
use mathlib.Core.Bool.{Bool, true, false}
use mathlib.Core.List.{List, [], ◌∷◌, ◌++◌}
use caly.Base.Tests.{ltb, if◌then◌else◌}
use caly.Base.Lists.{length}
use caly.Base.Result.{Result, ok, err}

pub record Channel {ℓ} (A : Type ℓ) : Type ℓ where
  pub queue : List A
  pub capacity : ℕ
  pub is_open : Bool  -- whether the receiver lives

pub data TrySendError {ℓ} (A : Type ℓ) : Type ℓ where
  full : A → TrySendError A
  disconnected : A → TrySendError A

pub data TryRecvError : Type 0 where
  nothing_queued sender_gone : TryRecvError

module _ {ℓ} {A : Type ℓ} where
  abbrev pub try_send : Channel A → A → Channel A × Result (TrySendError A) (Unit {0})
  try_send ch a =
      if ch.is_open
      then (if ltb (length ch.queue) ch.capacity
          then (record ch { queue = ch.queue ++ a ∷ [] }, ok tt)
          else (ch, err (full a)))
      else (ch, err (disconnected a))

  abbrev pub received : List A → Channel A → Bool → Channel A × Result TryRecvError A
  received (a ∷ rest) ch sender = (record ch { queue = rest }, ok a)
  received [] ch true = (ch, err nothing_queued)
  received [] ch false = (ch, err sender_gone)

  -- `sender` says whether some sender lives.
  abbrev pub try_recv : Channel A → Bool → Channel A × Result TryRecvError A
  try_recv ch sender = received ch.queue ch sender

abbrev pub sync_channel {ℓ} : {A : Type ℓ} → ℕ → Channel A
sync_channel capacity = record { queue = []; capacity = capacity; is_open = true }
