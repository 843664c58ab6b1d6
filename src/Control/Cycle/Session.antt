-- ===== src/Control/Cycle/Session.antt =====
-- How the cycle keeps the board's control session alive.
use vsm_field_workstation.Prelude.{
  ℕ, ◌+◌, ◌-◌, ◌^◌, ◌≤◌, ◌<◌, ◌≡◌, refl, ◌⊎◌, inl, inr, true, Bool-cases, Option, none, some, List,
  [], ◌∷◌, ◌++◌, ◌%◌, ap, ◌∙◌, subst, bit_and-mask, arith, length, length-append, leb, false,
}
use vsm_field_workstation.Foreign.{Qt}
use vsm_field_workstation.Typed.Frame.{frame}
use vsm_field_workstation.Control.Encoder.{
  heartbeat_payload, session_payload, build_host_heartbeat, build_host_control_session,
}
use vsm_field_workstation.Control.Encoder.Frames.{
  host_frame-frame, SaysHeartbeat, SaysSession, heartbeat_payload-SaysHeartbeat,
  session_payload-SaysSession,
}
use vsm_field_workstation.Control.Cycle.{
  HostFrameIntent, Keeper, next_command_id, is_due, send_heartbeat, renew_lease, maintain_session,
}
use vsm_field_workstation.Control.Cycle.Ids.{next_command_id-suc}

-- A time that was noted, if any, is not after `now_ms`.
abbrev pub IsPast : ℕ → Option ℕ → Type 0
IsPast now_ms none = Unit
IsPast now_ms (some last) = last ≤ now_ms

-- A heartbeat with the id `id`: a frame of type 11 with a payload of 12 bytes, which says the id and the
-- low 32 bits of the time.
abbrev pub IsHeartbeat : ℕ → ℕ → HostFrameIntent → Type 0
IsHeartbeat now_ms id intent =
    (payload : List ℕ) × ((intent.frame ≡ frame 1 11 0 (id % 2 ^ 16) payload)
      × SaysHeartbeat payload id (now_ms % 2 ^ 32))

-- A renewal with the id `id`: a frame of type 12 with a payload of 24 bytes, which says the id, the action
-- 2 (renew), any bus (255) and a lease of 2000 ms.
abbrev pub IsRenewal : ℕ → HostFrameIntent → Type 0
IsRenewal id intent =
    (payload : List ℕ) × ((intent.frame ≡ frame 1 12 0 (id % 2 ^ 16) payload)
      × SaysSession payload id 2 255 2000)

-- One frame is sent, and it is of the given kind.
abbrev pub SendsOne : (HostFrameIntent → Type 0) → List HostFrameIntent → Type 0
SendsOne Kind sent = (intent : HostFrameIntent) × ((sent ≡ intent ∷ []) × Kind intent)

-- The time noted after a call: the old one, kept and nothing sent, within the period; or else `now_ms`
-- itself, with one frame of the kind sent, after a full period or without an old time.
abbrev pub KeepsTime :
    ℕ → ℕ → (HostFrameIntent → Type 0) → Option ℕ → Option ℕ → List HostFrameIntent → Type 0
KeepsTime period now_ms Kind none after sent = (after ≡ some now_ms) × SendsOne Kind sent
KeepsTime period now_ms Kind (some last) after sent =
    ((now_ms < last + period) × ((after ≡ some last) × (sent ≡ [])))
    ⊎ ((last + period ≤ now_ms) × ((after ≡ some now_ms) × SendsOne Kind sent))

send_heartbeat-IsHeartbeat :
    (qt : Qt) (now_ms : ℕ) (k : Keeper)
    → 2 ^ 31 ≤ k.command_counter
    → k.command_counter + 1 < 2 ^ 32
    → is_due k.last_heartbeat_ms now_ms 50 ≡ true
    → SendsOne (IsHeartbeat now_ms (k.command_counter + 1)) (send_heartbeat qt now_ms k).0
unfolding send_heartbeat build_host_heartbeat
send_heartbeat-IsHeartbeat qt now_ms k low high due =
    let id = k.command_counter + 1 in
    let next : next_command_id k.command_counter ≡ id =
      omega (arith, next_command_id-suc k.command_counter low high) in
    let clock = bit_and-mask 32 now_ms in
    let says = heartbeat_payload-SaysHeartbeat id (now_ms % 2 ^ 32) high (omega arith) in
    rw (due, next, clock)
      (
        _,
        (
          refl,
          (
            heartbeat_payload id (now_ms % 2 ^ 32),
            (
              host_frame-frame 11 id (heartbeat_payload id (now_ms % 2 ^ 32))
                  (omega (arith, says.size)),
              says,
            ),
          ),
        ),
      )

renew_lease-IsRenewal :
    (qt : Qt) (now_ms : ℕ) (k : Keeper)
    → 2 ^ 31 ≤ k.command_counter
    → k.command_counter + 1 < 2 ^ 32
    → is_due k.last_lease_renew_ms now_ms 250 ≡ true
    → SendsOne (IsRenewal (k.command_counter + 1)) (renew_lease qt now_ms k).0
unfolding renew_lease build_host_control_session
renew_lease-IsRenewal qt now_ms k low high due =
    let id = k.command_counter + 1 in
    let next : next_command_id k.command_counter ≡ id =
      omega (arith, next_command_id-suc k.command_counter low high) in
    let says =
      session_payload-SaysSession id 2 255 2000 high (omega arith) (omega arith) (omega arith) in
    rw (due, next)
      (
        _,
        (
          refl,
          (
            session_payload id 2 255 2000,
            (
              host_frame-frame 12 id (session_payload id 2 255 2000) (omega (arith, says.size)),
              says,
            ),
          ),
        ),
      )

send_heartbeat-KeepsTime :
    (qt : Qt) (now_ms : ℕ) (last : Option ℕ) (k : Keeper)
    → k.last_heartbeat_ms ≡ last
    → IsPast now_ms last
    → 2 ^ 31 ≤ k.command_counter
    → k.command_counter + 1 < 2 ^ 32
    → KeepsTime 50 now_ms
        (IsHeartbeat now_ms (k.command_counter + 1))
        last
        (send_heartbeat qt now_ms k).1.last_heartbeat_ms
        (send_heartbeat qt now_ms k).0
unfolding send_heartbeat is_due
send_heartbeat-KeepsTime qt now_ms none k e h low high =
    (rw e refl, send_heartbeat-IsHeartbeat qt now_ms k low high (ap (λ o. is_due o now_ms 50) e))
send_heartbeat-KeepsTime qt now_ms (some last) k e h low high =
    elim (Bool-cases (leb 50 (now_ms - last))) [
      | inl f ↦
          let due : is_due k.last_heartbeat_ms now_ms 50 ≡ true =
            ap (λ o. is_due o now_ms 50) e ∙ f in
          inr
            (ground (arith, f), (rw due refl, send_heartbeat-IsHeartbeat qt now_ms k low high due))
      | inr f ↦
          let due : is_due k.last_heartbeat_ms now_ms 50 ≡ false =
            ap (λ o. is_due o now_ms 50) e ∙ f in
          inl (ground (arith, f), (rw due e, rw due refl))
    ]

renew_lease-KeepsTime :
    (qt : Qt) (now_ms : ℕ) (last : Option ℕ) (k : Keeper)
    → k.last_lease_renew_ms ≡ last
    → IsPast now_ms last
    → 2 ^ 31 ≤ k.command_counter
    → k.command_counter + 1 < 2 ^ 32
    → KeepsTime 250 now_ms
        (IsRenewal (k.command_counter + 1))
        last
        (renew_lease qt now_ms k).1.last_lease_renew_ms
        (renew_lease qt now_ms k).0
unfolding renew_lease is_due
renew_lease-KeepsTime qt now_ms none k e h low high =
    (rw e refl, renew_lease-IsRenewal qt now_ms k low high (ap (λ o. is_due o now_ms 250) e))
renew_lease-KeepsTime qt now_ms (some last) k e h low high =
    elim (Bool-cases (leb 250 (now_ms - last))) [
      | inl f ↦
          let due : is_due k.last_lease_renew_ms now_ms 250 ≡ true =
            ap (λ o. is_due o now_ms 250) e ∙ f in
          inr (ground (arith, f), (rw due refl, renew_lease-IsRenewal qt now_ms k low high due))
      | inr f ↦
          let due : is_due k.last_lease_renew_ms now_ms 250 ≡ false =
            ap (λ o. is_due o now_ms 250) e ∙ f in
          inl (ground (arith, f), (rw due e, rw due refl))
    ]

-- What a call leaves as it is, and how it counts the ids.
send_heartbeat-frame :
    (qt : Qt) (now_ms : ℕ) (k : Keeper)
    → 2 ^ 31 ≤ k.command_counter
    → k.command_counter + 1 < 2 ^ 32
    → ((send_heartbeat qt now_ms k).1.last_lease_renew_ms ≡ k.last_lease_renew_ms)
      × ((send_heartbeat qt now_ms k).1.command_counter
          ≡ k.command_counter + length (send_heartbeat qt now_ms k).0)
unfolding send_heartbeat
send_heartbeat-frame qt now_ms k low high =
    elim (Bool-cases (is_due k.last_heartbeat_ms now_ms 50)) [
      | inl f ↦ rw f (refl, ground (arith, next_command_id-suc k.command_counter low high))
      | inr f ↦ rw f (refl, omega arith)
    ]

renew_lease-frame :
    (qt : Qt) (now_ms : ℕ) (k : Keeper)
    → 2 ^ 31 ≤ k.command_counter
    → k.command_counter + 1 < 2 ^ 32
    → ((renew_lease qt now_ms k).1.last_heartbeat_ms ≡ k.last_heartbeat_ms)
      × ((renew_lease qt now_ms k).1.command_counter
          ≡ k.command_counter + length (renew_lease qt now_ms k).0)
unfolding renew_lease
renew_lease-frame qt now_ms k low high =
    elim (Bool-cases (is_due k.last_lease_renew_ms now_ms 250)) [
      | inl f ↦ rw f (refl, ground (arith, next_command_id-suc k.command_counter low high))
      | inr f ↦ rw f (refl, omega arith)
    ]

length_at_most_one : (qt : Qt) (now_ms : ℕ) (k : Keeper) → length (send_heartbeat qt now_ms k).0 ≤ 1
unfolding send_heartbeat
length_at_most_one qt now_ms k = elim (Bool-cases (is_due k.last_heartbeat_ms now_ms 50)) [
  | inl f ↦ rw f (omega arith)
  | inr f ↦ rw f (omega arith)
]

-- What a call of maintainSession does, given the state before and after and what it sends.
pub record KeepsAlive (now_ms : ℕ) (before after : Keeper) (sent : List HostFrameIntent)
    : Type 0 where
  pub beats : List HostFrameIntent
  pub renewals : List HostFrameIntent
  pub heartbeat :
      KeepsTime 50 now_ms
        (IsHeartbeat now_ms (before.command_counter + 1))
        before.last_heartbeat_ms
        after.last_heartbeat_ms
        beats
  pub lease :
      KeepsTime 250 now_ms
        (IsRenewal (before.command_counter + length beats + 1))
        before.last_lease_renew_ms
        after.last_lease_renew_ms
        renewals
  pub only : sent ≡ beats ++ renewals
  pub ids : after.command_counter ≡ before.command_counter + length sent

-- At a clock that does not run backwards, and while the command ids do not wrap, each call sends one
-- heartbeat exactly when none was sent in the last 50 ms, renews the lease exactly when it was not
-- renewed in the last 250 ms, the heartbeat first, sends nothing else, notes the times, and numbers the
-- frames on. A heartbeat is a frame of type 11 that says its id and the low 32 bits of the clock, and
-- a renewal one of type 12 that says its id, the action 2, any bus (255) and a lease of 2000 ms.
pub maintain_session-KeepsAlive :
    (qt : Qt) (now_ms : ℕ) (k : Keeper)
    → IsPast now_ms k.last_heartbeat_ms
    → IsPast now_ms k.last_lease_renew_ms
    → 2 ^ 31 ≤ k.command_counter
    → k.command_counter + 2 < 2 ^ 32
    → KeepsAlive now_ms k (maintain_session qt now_ms k).1 (maintain_session qt now_ms k).0
unfolding maintain_session
maintain_session-KeepsAlive qt now_ms k past_beat past_lease low high =
    let started : Keeper = record k { clock_is_valid = true } in
    let beaten = (send_heartbeat qt now_ms started).1 in
    let few = length_at_most_one qt now_ms started in
    let (same_lease, ids1) = send_heartbeat-frame qt now_ms started low (omega arith) in
    let (same_beat, ids2) =
      renew_lease-frame qt now_ms beaten (ground (arith, ids1)) (ground (arith, ids1, few)) in
    record {
      beats = (send_heartbeat qt now_ms started).0;
      renewals = (renew_lease qt now_ms beaten).0;
      heartbeat = rw same_beat (
          send_heartbeat-KeepsTime qt now_ms k.last_heartbeat_ms started refl past_beat low
            (omega arith));
      lease =
          subst
            (λ n.
              KeepsTime 250 now_ms (IsRenewal (n + 1)) k.last_lease_renew_ms
                (renew_lease qt now_ms beaten).1.last_lease_renew_ms
                (renew_lease qt now_ms beaten).0)
            ids1
            (renew_lease-KeepsTime qt now_ms k.last_lease_renew_ms beaten same_lease past_lease
              (ground (arith, ids1)) (ground (arith, ids1, few)));
      only = refl;
      ids = ground (
        arith,
        ids1,
        ids2,
        length-append (send_heartbeat qt now_ms started).0 (renew_lease qt now_ms beaten).0,
      );
    }
