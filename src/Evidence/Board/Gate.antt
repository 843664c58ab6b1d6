-- ===== src/Evidence/Board/Gate.antt =====
-- The gate on host control, in terms of the calls so far.
use vsm_field_workstation.Prelude.{
  ◌+◌, ◌≤◌, ◌≡◌, sym, ap, ◌∙◌, subst, ◌↔◌, ◌⊎◌, Bool, true, Option, none, some, List, arith,
}
use vsm_field_workstation.Typed.Records.{TypedCapabilityRecord, TypedBoardHealthRecord}
use vsm_field_workstation.Evidence.Board.{
  BoardConnectionState, Call, after, protocol_compatible, mono_fresh, health_is_fresh,
  safety_allows_control_standby, board_alive, control_capable,
}
use vsm_field_workstation.Evidence.Board.History.{
  session, is_open, newest_capability, newest_health, latest_mono, latest_wall, health_wall,
  IsCapability, IsHealth, Remembers, after-Remembers,
}

abbrev pub Permits : TypedCapabilityRecord → Type 0
Permits c =
    (c.protocol_version ≡ 1) × ((c.supports_board_health ≡ true) × (c.supports_can_tx_raw ≡ true))

abbrev pub IsFit : TypedBoardHealthRecord → Type 0
IsFit h = ((1 ≤ h.safety_state) × (h.safety_state ≤ 4)) × (h.fault_flags ≡ 0)

abbrev pub IsFresh : List Call → TypedBoardHealthRecord → Type 0
IsFresh calls h =
    (latest_mono calls ≤ h.mono_us + 2000000)
    × ((health_wall calls ≡ 0) ⊎ (latest_wall calls ≤ health_wall calls + 2500))

-- The evidence that control asks for: an open port, and since it was last closed a capability
-- record that permits control and a health record that is fit and fresh.
pub record Earned (calls : List Call) : Type 0 where
  pub port : is_open calls ≡ true
  pub capability :
      (c : TypedCapabilityRecord) × ((newest_capability (session calls) ≡ some c) × Permits c)
  pub health :
      (h : TypedBoardHealthRecord) × ((newest_health (session calls) ≡ some h)
        × (IsFit h × IsFresh (session calls) h))

-- The state alone: what `control_capable` asks of its fields.
pub record IsCapable (s : BoardConnectionState) : Type 0 where
  pub port : s.serial_open ≡ true
  pub capability_seen : s.capability_seen ≡ true
  pub health_seen : s.health_seen ≡ true
  pub permits : Permits s.capability
  pub fit : IsFit s.health
  pub fresh_mono : s.now_mono_us ≤ s.health.mono_us + 2000000
  pub fresh_wall : (s.last_health_wall_ms ≡ 0) ⊎ (s.now_wall_ms ≤ s.last_health_wall_ms + 2500)

pub control_capable-IsCapable : (s : BoardConnectionState) → control_capable s ≡ true → IsCapable s
unfolding control_capable board_alive protocol_compatible health_is_fresh mono_fresh
    safety_allows_control_standby
control_capable-IsCapable s e = record {
  port = ground arith;
  capability_seen = ground arith;
  health_seen = ground arith;
  permits = ground arith;
  fit = ground arith;
  fresh_mono = ground arith;
  fresh_wall = ground arith;
}

pub IsCapable-control_capable : (s : BoardConnectionState) → IsCapable s → control_capable s ≡ true
unfolding control_capable board_alive protocol_compatible health_is_fresh mono_fresh
    safety_allows_control_standby
IsCapable-control_capable s c =
    ground (
      arith, c.port, c.capability_seen, c.health_seen, c.permits, c.fit, c.fresh_mono, c.fresh_wall,
    )

capability_seen-some :
    (seen : Bool) (c : TypedCapabilityRecord) (o : Option TypedCapabilityRecord)
    → IsCapability seen c o
    → seen ≡ true
    → o ≡ some c
capability_seen-some seen c none i e = ground arith
capability_seen-some seen c (some d) i e = ground arith

health_seen-some :
    (seen : Bool) (h : TypedBoardHealthRecord) (o : Option TypedBoardHealthRecord)
    → IsHealth seen h o
    → seen ≡ true
    → o ≡ some h
health_seen-some seen h none i e = ground arith
health_seen-some seen h (some k) i e = ground arith

some-capability_seen :
    (seen : Bool) (c d : TypedCapabilityRecord) (o : Option TypedCapabilityRecord)
    → IsCapability seen c o
    → o ≡ some d
    → (seen ≡ true) × (c ≡ d)
some-capability_seen seen c d none i e = ground arith
some-capability_seen seen c d (some k) i e = ground arith

some-health_seen :
    (seen : Bool) (h k : TypedBoardHealthRecord) (o : Option TypedBoardHealthRecord)
    → IsHealth seen h o
    → o ≡ some k
    → (seen ≡ true) × (h ≡ k)
some-health_seen seen h k none i e = ground arith
some-health_seen seen h k (some j) i e = ground arith

earned :
    (calls : List Call) (s : BoardConnectionState) → Remembers calls s → IsCapable s → Earned calls
earned calls s r c = record {
  port = sym r.port ∙ c.port;
  capability = (
    s.capability,
    (
      capability_seen-some s.capability_seen s.capability (newest_capability (session calls))
          r.capability c.capability_seen,
      c.permits,
    ),
  );
  health = (
    s.health,
    (
      health_seen-some s.health_seen s.health (newest_health (session calls)) r.health
          c.health_seen,
      (c.fit, ground (arith, c.fresh_mono, c.fresh_wall, r.mono, r.wall, r.stamped)),
    ),
  );
}

granted :
    (calls : List Call) (s : BoardConnectionState) → Remembers calls s → Earned calls → IsCapable s
granted calls s r earned_now =
    let (c, (ec, permits)) = earned_now.capability in
    let (h, (eh, (fit, fresh))) = earned_now.health in
    let seen_c =
      some-capability_seen s.capability_seen s.capability c (newest_capability (session calls))
        r.capability ec in
    let seen_h =
      some-health_seen s.health_seen s.health h (newest_health (session calls)) r.health eh in
    record {
      port = r.port ∙ earned_now.port;
      capability_seen = seen_c.0;
      health_seen = seen_h.0;
      permits = subst Permits (sym seen_c.1) permits;
      fit = subst IsFit (sym seen_h.1) fit;
      fresh_mono = ground (arith, fresh, r.mono, ap (λ k. k.mono_us) seen_h.1);
      fresh_wall = ground (arith, fresh, r.wall, r.stamped);
    }

-- After any calls in any order, starting from a new state, host control is let through exactly when
-- the evidence is there: the port is open, and since it was last closed, or the state last reset,
-- the newest capability record names protocol 1 and advertises the health and the audit records,
-- and the newest health record has a safety state of 1 to 4, no fault flag, and is at most 2 s of
-- board time and (once wall times are known) 2.5 s of wall time old.
pub control_capable-Earned :
    (calls : List Call) → (control_capable (after calls) ≡ true) ↔ Earned calls
control_capable-Earned calls = (
  (λ e.
      earned calls (after calls) (after-Remembers calls)
        (control_capable-IsCapable (after calls) e)),
  λ earned_now.
      IsCapable-control_capable (after calls)
        (granted calls (after calls) (after-Remembers calls) earned_now),
)
