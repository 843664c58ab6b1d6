-- ===== src/Control/Cycle/Calls.antt =====
-- Any calls of ControlCycleRuntime, in any order.
use Prim.Native.String.{String}
use vsm_field_workstation.Prelude.{
  ℕ, zero, suc, ◌<◌, ◌≡◌, refl, ap, ◌∙◌, inl, inr, Bool, true, false, List, [], ◌∷◌, ◌++◌, arith,
  length, length-append, lt→ltb, if◌then◌else◌,
}
use vsm_field_workstation.Prelude.Int.{ℤ}
use vsm_field_workstation.Foreign.{Qt, Doubles}
use vsm_field_workstation.HostTx.{is_blank}
use vsm_field_workstation.Control.Slew
use vsm_field_workstation.Control.Encoder.{make_control_burst}
use vsm_field_workstation.Control.Cycle.{
  HostFrameIntent, CycleResult, no_result, clear_pending, maintain_session, request_loop,
}
use vsm_field_workstation.Control.Cycle.Operations.{
  Command, ControlCycleRuntime, target, update, start, stop, drain, continue_paced_burst,
  prepare_burst, make_burst, begin_cycle, burst_once,
}
use vsm_field_workstation.Control.Cycle.Draining.{
  left, IsPaced, length-drop_left, drain_pending_frames-Advances,
}

nothing_left : (xs : List HostFrameIntent) → length xs ≡ 0 → [] ≡ xs
nothing_left [] h = refl
nothing_left (x ∷ xs) h = absurd (omega arith)

module _ (d : Doubles) (qt : Qt) where
  pub data Call : Type 0 where
    starts : Command d → ℤ → ℤ → Call
    updates : Command d → Call
    stops : Call
    begins : ℕ → Call
    continues : Call
    bursts : Command d → String → Bool → Bool → Call

  unfoldable pub call : Call → ControlCycleRuntime d → ControlCycleRuntime d × CycleResult
  unfolding update start stop continue_paced_burst begin_cycle burst_once
  call (Call.starts c period gap) r = (start d c period gap r, no_result)
  call (Call.updates c) r = (update d c r, no_result)
  call Call.stops r = (stop d r, no_result)
  call (Call.begins now_ms) r = begin_cycle d qt now_ms r
  call Call.continues r = continue_paced_burst d r
  call (Call.bursts c reason resets respects) r = burst_once d qt c reason resets respects r

  unfoldable pub after : List Call → ControlCycleRuntime d → ControlCycleRuntime d
  unfolding call
  after [] r = r
  after (c ∷ cs) r = after cs (call c r).0

  drain-IsPaced :
      (respects : Bool) (r : ControlCycleRuntime d)
      → IsPaced r.pending
      → IsPaced (drain d respects r).0.pending
  unfolding drain
  drain-IsPaced respects r p =
      (drain_pending_frames-Advances respects r.frame_gap_ms r.pending p).paced

  prepare_burst-IsPaced :
      (reason : String) (r : ControlCycleRuntime d) → IsPaced (prepare_burst d qt reason r).pending
  unfolding prepare_burst request_loop make_control_burst
  prepare_burst-IsPaced reason r = inr (omega arith, refl)

  make_burst-IsPaced :
      (reason : String) (respects : Bool) (r : ControlCycleRuntime d)
      → IsPaced (make_burst d qt reason respects r).0.pending
  unfolding make_burst
  make_burst-IsPaced reason respects r =
      drain-IsPaced respects (prepare_burst d qt reason r) (prepare_burst-IsPaced reason r)

  if-IsPaced :
      (b : Bool) (x y : ControlCycleRuntime d × CycleResult)
      → IsPaced x.0.pending
      → IsPaced y.0.pending
      → IsPaced (if b then x else y).0.pending
  if-IsPaced true x y p q = p
  if-IsPaced false x y p q = q

  begin_cycle-IsPaced :
      (now_ms : ℕ) (r : ControlCycleRuntime d)
      → IsPaced r.pending
      → IsPaced (begin_cycle d qt now_ms r).0.pending
  unfolding begin_cycle
  begin_cycle-IsPaced now_ms r p =
      let (session, keeper) = maintain_session qt now_ms r.keeper in
      let kept : ControlCycleRuntime d = record r { keeper = keeper } in
      let cycle =
        if r.pending.sending
        then drain d true kept
        else make_burst d qt "worker control cycle" true kept in
      if-IsPaced r.enabled (cycle.0, record cycle.1 { frames = session ++ cycle.1.frames })
        (r, no_result)
        (if-IsPaced r.pending.sending (drain d true kept)
          (make_burst d qt "worker control cycle" true kept) (drain-IsPaced true kept p)
          (make_burst-IsPaced "worker control cycle" true kept))
        p

  call-IsPaced :
      (c : Call) (r : ControlCycleRuntime d) → IsPaced r.pending → IsPaced (call c r).0.pending
  unfolding call update start stop continue_paced_burst burst_once clear_pending
  call-IsPaced (Call.starts c period gap) r p = inl (refl, (refl, refl))
  call-IsPaced (Call.updates c) r p = p
  call-IsPaced Call.stops r p = inl (refl, (refl, refl))
  call-IsPaced (Call.begins now_ms) r p = begin_cycle-IsPaced now_ms r p
  call-IsPaced Call.continues r p = drain-IsPaced true r p
  call-IsPaced (Call.bursts c reason resets respects) r p =
      make_burst-IsPaced (if is_blank reason then "worker one-shot" else reason) respects (
        if resets
        then record (update d c r) {
          slew_limiter = Slew.reset d (target d (update d c r)) (update d c r).slew_limiter;
        }
        else update d c r)

  -- Whatever calls follow, from a state whose burst is under way with a frame to send or over with
  -- nothing kept, the state is again of this kind.
  pub after-IsPaced :
      (cs : List Call) (r : ControlCycleRuntime d)
      → IsPaced r.pending
      → IsPaced (after cs r).pending
  unfolding after
  after-IsPaced [] r p = p
  after-IsPaced (c ∷ cs) r p = after-IsPaced cs (call c r).0 (call-IsPaced c r p)

  -- `n` calls of continuePacedBurst, and the frames they send.
  unfoldable pub continue_times :
      ℕ → ControlCycleRuntime d → ControlCycleRuntime d × List HostFrameIntent
  unfolding continue_paced_burst
  continue_times zero r = (r, [])
  continue_times (suc n) r =
      let (next, now) = continue_paced_burst d r in
      let (last, later) = continue_times n next in (last, now.frames ++ later)

  -- A paced burst gets through: from any state the class can be in, with a frame gap, as many calls
  -- of continuePacedBurst as there are frames left send exactly these frames in order, and then
  -- the burst is over.
  pub continue_times-sends_all :
      (n : ℕ) (r : ControlCycleRuntime d)
      → IsPaced r.pending
      → 0 < r.frame_gap_ms
      → length (left r.pending) ≡ n
      → ((continue_times n r).1 ≡ left r.pending) × ((continue_times n r).0.pending.sending ≡ false)
  unfolding continue_times continue_paced_burst drain
  continue_times-sends_all zero r (inl (e, (i, s))) gap h = (nothing_left (left r.pending) h, s)
  continue_times-sends_all zero r (inr (inside, s)) gap h =
      absurd (ground (arith, h, length-drop_left r.pending.frames r.pending.index inside))
  continue_times-sends_all (suc n) r p gap h =
      let did = drain_pending_frames-Advances true r.frame_gap_ms r.pending p in
      let rest = continue_times-sends_all n (continue_paced_burst d r).0 did.paced gap (
        ground (
          arith,
          h,
          did.one (lt→ltb 0 r.frame_gap_ms gap),
          length-append (continue_paced_burst d r).1.frames
              (left (continue_paced_burst d r).0.pending),
          ap (λ xs. length xs) did.conserves,
        )) in
      (ap (λ xs. (continue_paced_burst d r).1.frames ++ xs) rest.0 ∙ did.conserves, rest.1)
