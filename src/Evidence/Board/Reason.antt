-- ===== src/Evidence/Board/Reason.antt =====
-- The reason the operator reads, and the gate it explains.
use text.Mathlib.TextEquality.{eq_iff}
use vsm_field_workstation.Prelude.{◌≡◌, ◌↔◌, true, arith}
use vsm_field_workstation.Evidence.Board.{
  BoardConnectionState, board_alive, control_capable, reason, compute_snapshot,
}

-- In every state, the snapshot's gate on host control is open exactly when the snapshot's reason is "board alive".
pub reason-control_capable :
    (s : BoardConnectionState)
    → ((compute_snapshot s).control_capable ≡ true) ↔ ((compute_snapshot s).reason ≡ "board alive")
unfolding compute_snapshot control_capable reason board_alive
reason-control_capable s = ground (
  arith,
  eq_iff "serial closed" "board alive",
  eq_iff "waiting for CAPABILITY" "board alive",
  eq_iff "protocol mismatch" "board alive",
  eq_iff "BOARD_HEALTH not advertised" "board alive",
  eq_iff "waiting for BOARD_HEALTH" "board alive",
  eq_iff "BOARD_HEALTH stale" "board alive",
  eq_iff "CAN_TX_RAW audit not advertised" "board alive",
  eq_iff "board safety state blocks control" "board alive",
  eq_iff "board fault flags active" "board alive",
)
