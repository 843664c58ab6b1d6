-- ===== src/Evidence/Board/History.antt =====
-- What the state says of the calls so far: the newest call stands first.
use vsm_field_workstation.Prelude.{
  ℕ, ◌≡◌, refl, Bool, true, false, Option, none, some, List, [], ◌∷◌, arith,
}
use vsm_field_workstation.Typed.Records.{TypedCapabilityRecord, TypedBoardHealthRecord}
use vsm_field_workstation.Evidence.Board.{
  BoardConnectionState, Call, step, after, raise, stamp, reset, set_serial_open, ingest_capability,
  ingest_board_health, advance_monotonic_time, advance_wall_time_ms,
}

-- The calls since the port was last closed or the state last reset.
abbrev pub session : List Call → List Call
session [] = []
session (Call.resets is_open ∷ earlier) = []
session (Call.sets_serial_open false ∷ earlier) = []
session (Call.sets_serial_open true ∷ earlier) = Call.sets_serial_open true ∷ session earlier
session (Call.ingests_capability c w ∷ earlier) = Call.ingests_capability c w ∷ session earlier
session (Call.ingests_board_health h w ∷ earlier) = Call.ingests_board_health h w ∷ session earlier
session (Call.advances_monotonic_time t ∷ earlier) =
    Call.advances_monotonic_time t ∷ session earlier
session (Call.advances_wall_time_ms t ∷ earlier) = Call.advances_wall_time_ms t ∷ session earlier

-- Whether the newest call on the port opened it.
abbrev pub is_open : List Call → Bool
is_open [] = false
is_open (Call.resets opened ∷ earlier) = opened
is_open (Call.sets_serial_open opened ∷ earlier) = opened
is_open (Call.ingests_capability c w ∷ earlier) = is_open earlier
is_open (Call.ingests_board_health h w ∷ earlier) = is_open earlier
is_open (Call.advances_monotonic_time t ∷ earlier) = is_open earlier
is_open (Call.advances_wall_time_ms t ∷ earlier) = is_open earlier

-- The newest capability record, and the newest health record, of these calls.
abbrev pub newest_capability : List Call → Option TypedCapabilityRecord
newest_capability [] = none
newest_capability (Call.ingests_capability c w ∷ earlier) = some c
newest_capability (Call.resets b ∷ earlier) = newest_capability earlier
newest_capability (Call.sets_serial_open b ∷ earlier) = newest_capability earlier
newest_capability (Call.ingests_board_health h w ∷ earlier) = newest_capability earlier
newest_capability (Call.advances_monotonic_time t ∷ earlier) = newest_capability earlier
newest_capability (Call.advances_wall_time_ms t ∷ earlier) = newest_capability earlier

abbrev pub newest_health : List Call → Option TypedBoardHealthRecord
newest_health [] = none
newest_health (Call.ingests_board_health h w ∷ earlier) = some h
newest_health (Call.resets b ∷ earlier) = newest_health earlier
newest_health (Call.sets_serial_open b ∷ earlier) = newest_health earlier
newest_health (Call.ingests_capability c w ∷ earlier) = newest_health earlier
newest_health (Call.advances_monotonic_time t ∷ earlier) = newest_health earlier
newest_health (Call.advances_wall_time_ms t ∷ earlier) = newest_health earlier

-- Every board time named by these calls is at most `now`, and every wall time.
abbrev call_mono : Call → ℕ
call_mono (Call.resets b) = 0
call_mono (Call.sets_serial_open b) = 0
call_mono (Call.ingests_capability c w) = c.mono_us
call_mono (Call.ingests_board_health h w) = h.mono_us
call_mono (Call.advances_monotonic_time t) = t
call_mono (Call.advances_wall_time_ms t) = 0

abbrev call_wall : Call → ℕ
call_wall (Call.resets b) = 0
call_wall (Call.sets_serial_open b) = 0
call_wall (Call.ingests_capability c w) = w
call_wall (Call.ingests_board_health h w) = w
call_wall (Call.advances_monotonic_time t) = 0
call_wall (Call.advances_wall_time_ms t) = t

abbrev pub latest_mono : List Call → ℕ
latest_mono [] = 0
latest_mono (call ∷ earlier) = raise (call_mono call) (latest_mono earlier)

abbrev pub latest_wall : List Call → ℕ
latest_wall [] = 0
latest_wall (call ∷ earlier) = raise (call_wall call) (latest_wall earlier)

-- The wall time of the newest health record: its own, or else the latest before it, or 0.
abbrev pub health_wall : List Call → ℕ
health_wall [] = 0
health_wall (Call.ingests_board_health h w ∷ earlier) =
    stamp w (latest_wall earlier) (health_wall earlier)
health_wall (Call.resets b ∷ earlier) = health_wall earlier
health_wall (Call.sets_serial_open b ∷ earlier) = health_wall earlier
health_wall (Call.ingests_capability c w ∷ earlier) = health_wall earlier
health_wall (Call.advances_monotonic_time t ∷ earlier) = health_wall earlier
health_wall (Call.advances_wall_time_ms t ∷ earlier) = health_wall earlier

abbrev pub IsCapability : Bool → TypedCapabilityRecord → Option TypedCapabilityRecord → Type 0
IsCapability seen c none = seen ≡ false
IsCapability seen c (some d) = (seen ≡ true) × (c ≡ d)

abbrev pub IsHealth : Bool → TypedBoardHealthRecord → Option TypedBoardHealthRecord → Type 0
IsHealth seen h none = seen ≡ false
IsHealth seen h (some k) = (seen ≡ true) × (h ≡ k)

-- What the state holds after `calls`.
pub record Remembers (calls : List Call) (s : BoardConnectionState) : Type 0 where
  pub port : s.serial_open ≡ is_open calls
  pub capability : IsCapability s.capability_seen s.capability (newest_capability (session calls))
  pub health : IsHealth s.health_seen s.health (newest_health (session calls))
  pub mono : s.now_mono_us ≡ latest_mono (session calls)
  pub wall : s.now_wall_ms ≡ latest_wall (session calls)
  pub stamped : s.last_health_wall_ms ≡ health_wall (session calls)

pub after-Remembers : (calls : List Call) → Remembers calls (after calls)
unfolding after step reset set_serial_open ingest_capability ingest_board_health
    advance_monotonic_time advance_wall_time_ms
after-Remembers [] = record {
  port = refl;
  capability = refl;
  health = refl;
  mono = refl;
  wall = refl;
  stamped = refl;
}
after-Remembers (Call.resets true ∷ earlier) = record {
  port = refl;
  capability = refl;
  health = refl;
  mono = refl;
  wall = refl;
  stamped = refl;
}
after-Remembers (Call.resets false ∷ earlier) = record {
  port = refl;
  capability = refl;
  health = refl;
  mono = refl;
  wall = refl;
  stamped = refl;
}
after-Remembers (Call.sets_serial_open false ∷ earlier) = record {
  port = refl;
  capability = refl;
  health = refl;
  mono = refl;
  wall = refl;
  stamped = refl;
}
after-Remembers (Call.sets_serial_open true ∷ earlier) =
    let past = after-Remembers earlier in
    record {
      port = refl;
      capability = past.capability;
      health = past.health;
      mono = ground (arith, past.mono);
      wall = ground (arith, past.wall);
      stamped = past.stamped;
    }
after-Remembers (Call.ingests_capability c w ∷ earlier) =
    let past = after-Remembers earlier in
    record {
      port = past.port;
      capability = (refl, refl);
      health = past.health;
      mono = ground (arith, past.mono);
      wall = ground (arith, past.wall);
      stamped = past.stamped;
    }
after-Remembers (Call.ingests_board_health h w ∷ earlier) =
    let past = after-Remembers earlier in
    record {
      port = past.port;
      capability = past.capability;
      health = (refl, refl);
      mono = ground (arith, past.mono);
      wall = ground (arith, past.wall);
      stamped = ground (arith, past.wall, past.stamped);
    }
after-Remembers (Call.advances_monotonic_time t ∷ earlier) =
    let past = after-Remembers earlier in
    record {
      port = past.port;
      capability = past.capability;
      health = past.health;
      mono = ground (arith, past.mono);
      wall = ground (arith, past.wall);
      stamped = past.stamped;
    }
after-Remembers (Call.advances_wall_time_ms t ∷ earlier) =
    let past = after-Remembers earlier in
    record {
      port = past.port;
      capability = past.capability;
      health = past.health;
      mono = ground (arith, past.mono);
      wall = ground (arith, past.wall);
      stamped = past.stamped;
    }
