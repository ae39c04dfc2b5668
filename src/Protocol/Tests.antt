-- ===== src/Protocol/Tests.antt =====
-- Runs of the protocol on concrete inputs.
use caly.Base.{arith, ◌+◌, ◌≤◌, ◌≡◌, ◌≢◌, ◌↔◌, refl, true, false, none, [], ◌∷◌}
use caly.Base.Result.{ok, err}
use caly.Protocol.Budget.{new_budget, v2_default, charge_all, sum, charge_all-ok_iff}
use caly.Protocol.Framing.{
  to_le_bytes, closed, read_frame, read_frames, write_frame, write_frames, read_frames-write_frames,
  read_frame-cut,
}
use caly.Protocol.Handshake.{
  HandshakeOutcome, ProtocolVersion, HandshakeRequest, negotiate_handshake-outcome,
}

charge_all-ok_iff_example :
    ((charge_all (new_budget v2_default) (100 ∷ 20971421 ∷ [])).1 ≡ ok tt)
    ↔ (0 + sum (100 ∷ 20971421 ∷ []) ≤ v2_default.max_message_bytes)
charge_all-ok_iff_example =
    charge_all-ok_iff (new_budget v2_default) (100 ∷ 20971421 ∷ []) (omega arith) (omega arith)

over_budget : (charge_all (new_budget v2_default) (100 ∷ 20971421 ∷ [])).1 ≢ ok tt
unfolding charge_all
over_budget h = cc

read_frames-write_frames_example :
    read_frames 8 2 (record { bytes = 1 ∷ 0 ∷ 0 ∷ 0 ∷ 7 ∷ 0 ∷ 0 ∷ 0 ∷ 0 ∷ 9 ∷ []; broken = true })
    ≡ (record { bytes = 9 ∷ []; broken = true }, ok ((7 ∷ []) ∷ [] ∷ []))
unfolding to_le_bytes
read_frames-write_frames_example =
    read_frames-write_frames 8 ((7 ∷ []) ∷ [] ∷ []) (1 ∷ 0 ∷ 0 ∷ 0 ∷ 7 ∷ 0 ∷ 0 ∷ 0 ∷ 0 ∷ [])
      (9 ∷ []) true (omega arith, (omega arith, tt))
      (unfold write_frames in unfold write_frame in refl)

read_frame-cut_example :
    (read_frame 8 (record { bytes = 2 ∷ 0 ∷ 0 ∷ 0 ∷ 7 ∷ []; broken = false })).1 ≡ err closed
unfolding to_le_bytes
read_frame-cut_example =
    read_frame-cut 8 5 (7 ∷ 7 ∷ []) (2 ∷ 0 ∷ 0 ∷ 0 ∷ 7 ∷ 7 ∷ []) (omega arith)
      (unfold write_frame in refl) (omega arith)

abbrev client : HandshakeRequest
client = record {
  client_version = record { major = 2; minor = 1 };
  requested_features = 3 ∷ 999 ∷ 1 ∷ [];
  auth_token = none;
}

abbrev v2_0 : ProtocolVersion
v2_0 = record { major = 2; minor = 0 }

negotiate_handshake-outcome_example : HandshakeOutcome client v2_0 (1 ∷ 2 ∷ []) 7 8 v2_default
negotiate_handshake-outcome_example =
    negotiate_handshake-outcome client v2_0 (1 ∷ 2 ∷ []) 7 8 v2_default (omega arith)
