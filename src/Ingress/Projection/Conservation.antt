-- ===== src/Ingress/Projection/Conservation.antt =====
-- The counts of src/backend/transport/LiveProjectionRuntime.cpp over its calls: the end of a batch, and
-- any calls.
use vsm_field_workstation.Prelude.{
  ℕ, ◌+◌, ◌-◌, ◌%◌, ◌^◌, ◌<◌, ◌≡◌, refl, sym, ap, ◌∙◌, Bool, true, false, Bool-cases, inl, inr,
  Option, none, some, List, [], ◌∷◌, map, arith, ltb, length, length-map, All, length-drop,
}
use vsm_field_workstation.Typed.{TypedRecord}
use vsm_field_workstation.Packet.Stream.{FrameRecord}
use vsm_field_workstation.Ingress.Projection.{
  Bucket, LiveProjectionRuntime, new_projection, reset, Projecting, note_projected_evidence,
  take_records, control_evidence_flush_due, status_due, take_sorted_records,
  flush_pending_control_evidence, cut_frames, count_output, projection_status_interval_ms, begun,
  flush_if_due, ingest,
}
use vsm_field_workstation.Ingress.Projection.Accounts.{Balanced, Tally}
use vsm_field_workstation.Ingress.Projection.Handed.{
  Handover, nothing, with_batch, Handed, reset-Handed, ingest-Handed,
}
use vsm_field_workstation.Ingress.Typed.{has_elapsed}
use vsm_field_workstation.Ingress.Projection.Batch.{take_records-Tally}

-- Every received frame was projected or sampled out, and every record of control evidence was projected,
-- replaced or waits.
pub record Accounts (p : LiveProjectionRuntime) : Type 0 where
  pub balanced : Balanced 0 p
  pub received :
      p.status.observed_can_rx_frames % 2 ^ 64
      ≡ (p.status.projected_can_rx_frames + p.status.sampled_can_rx_frames) % 2 ^ 64

new_projection-Accounts : (max_frames : ℕ) → Accounts (new_projection max_frames)
new_projection-Accounts max_frames = record {
  balanced = record { acks = tt; audits = tt; feedback = tt; evidence = refl };
  received = refl;
}

reset-Accounts : (p : LiveProjectionRuntime) → Accounts (reset p)
unfolding reset
reset-Accounts p = record {
  balanced = record { acks = tt; audits = tt; feedback = tt; evidence = refl };
  received = refl;
}

begun-Tally : (p : LiveProjectionRuntime) → Accounts p → Tally 0 (begun p)
begun-Tally p a = record {
  balanced = a.balanced;
  received = omega (arith, a.received);
  room = omega arith;
  few = omega arith;
}

-- The sorts keep the number of what they sort.
module _ (sort_frames : List FrameRecord → List FrameRecord)
    (sort_records : List TypedRecord → List TypedRecord)
    (keeps_frames : (xs : List FrameRecord) → length (sort_frames xs) ≡ length xs)
    (keeps_records : (xs : List TypedRecord) → length (sort_records xs) ≡ length xs) where
  cut_frames-Tally :
      (k : ℕ) (g : Projecting) → Tally k g → Tally k (cut_frames sort_frames sort_records g)
  unfolding cut_frames
  cut_frames-Tally k g t =
      let n = length g.coalesced_frames in
      let remove_count = n - g.runtime.max_frames_per_batch in
      elim (Bool-cases (ltb g.runtime.max_frames_per_batch n)) [
        | inl e ↦ rw e record {
          balanced = record {
            acks = t.balanced.acks;
            audits = t.balanced.audits;
            feedback = t.balanced.feedback;
            evidence = t.balanced.evidence;
          };
          received = t.received;
          room = omega (
            arith,
            t.room,
            keeps_frames g.coalesced_frames,
            length-drop remove_count (sort_frames g.coalesced_frames),
          );
          few = t.few;
        }
        | inr e ↦ rw e t
      ]

  sorted_size : (b : Bucket) → length (take_sorted_records sort_frames sort_records b) ≡ length b
  unfolding take_sorted_records
  sorted_size b = keeps_records (map (λ pair. pair.1) b) ∙ length-map b (λ pair. pair.1)

  flush_if_due-Tally :
      (k now : ℕ) (g : Projecting)
      → Tally k g
      → Tally k (flush_if_due sort_frames sort_records now g)
  unfolding flush_if_due flush_pending_control_evidence note_projected_evidence
  flush_if_due-Tally k now g t = elim (Bool-cases (control_evidence_flush_due now g.runtime)) [
    | inl e ↦ rw e record {
      balanced = record {
        acks = tt;
        audits = tt;
        feedback = tt;
        evidence = omega (
          arith,
          t.balanced.evidence,
          sorted_size g.runtime.pending_accepted_control_ack_by_key,
          sorted_size g.runtime.pending_control_tx_by_key,
          sorted_size g.runtime.pending_control_feedback_rx_by_key,
        );
      };
      received = t.received;
      room = t.room;
      few = t.few;
    }
    | inr e ↦ rw e t
  ]

  count_output-Accounts :
      (k input : ℕ) (frames : List FrameRecord) (g : Projecting)
      → length frames ≡ length g.coalesced_frames
      → Tally k g
      → Accounts (record (g.runtime) { status = count_output input frames g })
  unfolding count_output
  count_output-Accounts k input frames g same t =
      elim (Bool-cases (ltb (length frames) g.observed_can_rx_in_batch)) [
        | inl e ↦ rw e record {
          balanced = record {
            acks = t.balanced.acks;
            audits = t.balanced.audits;
            feedback = t.balanced.feedback;
            evidence = t.balanced.evidence;
          };
          received = omega (arith, t.received, t.room, same);
        }
        | inr e ↦ rw e record {
          balanced = record {
            acks = t.balanced.acks;
            audits = t.balanced.audits;
            feedback = t.balanced.feedback;
            evidence = t.balanced.evidence;
          };
          received =
              let all : g.observed_can_rx_in_batch ≡ length frames =
                ground (arith, t.room, same, e) in
              omega (arith, t.received, all);
        }
      ]

  status_due-Accounts :
      (now : ℕ) (sampled : Bool) (p : LiveProjectionRuntime)
      → Accounts p
      → Accounts (status_due now sampled p).1
  unfolding status_due
  status_due-Accounts now true p a = a
  status_due-Accounts now false p a =
      elim (Bool-cases (has_elapsed p.status_timer now projection_status_interval_ms)) [
        | inl e ↦ rw e record {
          balanced = record {
            acks = a.balanced.acks;
            audits = a.balanced.audits;
            feedback = a.balanced.feedback;
            evidence = a.balanced.evidence;
          };
          received = a.received;
        }
        | inr e ↦ rw e a
      ]

  flush_if_due-frames :
      (now : ℕ) (g : Projecting)
      → (flush_if_due sort_frames sort_records now g).coalesced_frames ≡ g.coalesced_frames
  unfolding flush_if_due flush_pending_control_evidence note_projected_evidence
  flush_if_due-frames now g = elim (Bool-cases (control_evidence_flush_due now g.runtime)) [
    | inl e ↦ rw e refl
    | inr e ↦ rw e refl
  ]

  ingest-Accounts :
      (now : ℕ) (rs : List TypedRecord) (p : LiveProjectionRuntime)
      → length rs < 2 ^ 64
      → Accounts p
      → Accounts (ingest sort_frames sort_records now rs p).1
  unfolding ingest
  ingest-Accounts now [] p small a = a
  ingest-Accounts now (r ∷ rs) p small a =
      let k = 0 + length (r ∷ rs) in
      let taken = cut_frames sort_frames sort_records (take_records (r ∷ rs) (begun p)) in
      let t =
        cut_frames-Tally k _
          (take_records-Tally 0 (r ∷ rs) (begun p) (omega arith) (begun-Tally p a)) in
      let same =
        keeps_frames taken.coalesced_frames
        ∙ ap (λ xs. length xs) (sym (flush_if_due-frames now taken)) in
      status_due-Accounts now _ _ (
        count_output-Accounts k (length (r ∷ rs)) (sort_frames taken.coalesced_frames)
          (flush_if_due sort_frames sort_records now taken) same (flush_if_due-Tally k now taken t))

  -- The calls, with the time and the records of each, and `none` for a reset.
  abbrev pub after :
      List (Option (ℕ × List TypedRecord)) → LiveProjectionRuntime → LiveProjectionRuntime
  after [] p = p
  after (none ∷ calls) p = after calls (reset p)
  after (some (now, rs) ∷ calls) p = after calls (ingest sort_frames sort_records now rs p).1

  -- What went in and came out since the last reset.
  abbrev pub handed_over :
      List (Option (ℕ × List TypedRecord)) → LiveProjectionRuntime → Handover → Handover
  handed_over [] p h = h
  handed_over (none ∷ calls) p h = handed_over calls (reset p) nothing
  handed_over (some (now, rs) ∷ calls) p h =
      handed_over calls (ingest sort_frames sort_records now rs p).1
        (with_batch rs (ingest sort_frames sort_records now rs p).0 h)

  after-Handed :
      (calls : List (Option (ℕ × List TypedRecord))) (p : LiveProjectionRuntime) (h : Handover)
      → Handed h p
      → Handed (handed_over calls p h) (after calls p)
  after-Handed [] p h v = v
  after-Handed (none ∷ calls) p h v = after-Handed calls (reset p) nothing (reset-Handed p)
  after-Handed (some (now, rs) ∷ calls) p h v =
      after-Handed calls _ _ (ingest-Handed sort_frames sort_records now rs p h v)

  abbrev pub Fits : Option (ℕ × List TypedRecord) → Type 0
  Fits none = Unit
  Fits (some (now, rs)) = length rs < 2 ^ 64

  after-Accounts :
      (calls : List (Option (ℕ × List TypedRecord))) (p : LiveProjectionRuntime)
      → All Fits calls
      → Accounts p
      → Accounts (after calls p)
  after-Accounts [] p fits a = a
  after-Accounts (none ∷ calls) p fits a = after-Accounts calls (reset p) fits.1 (reset-Accounts p)
  after-Accounts (some (now, rs) ∷ calls) p fits a =
      after-Accounts calls _ fits.1 (ingest-Accounts now rs p fits.0 a)

  -- If the two sorts keep the number of what they sort, then from a new object, over any batches and
  -- resets, modulo 2^64: the received frames that were observed are those projected and those sampled
  -- out; the records of control evidence that were observed are those projected, those replaced by a
  -- later one of their key, and those that still wait; each key waits once; and these counts are of what
  -- went in and came out since the last reset: the received frames and the control evidence among the
  -- records given to ingest are those observed, the frames that it returned are those projected, and the
  -- critical records that it returned are as many as the records of the board given to it and the
  -- evidence that was projected.
  pub after-new_projection-Accounts :
      (max_frames : ℕ) (calls : List (Option (ℕ × List TypedRecord)))
      → All Fits calls
      → Accounts (after calls (new_projection max_frames))
        × Handed
            (handed_over calls (new_projection max_frames) nothing)
            (after calls (new_projection max_frames))
  after-new_projection-Accounts max_frames calls fits = (
    after-Accounts calls (new_projection max_frames) fits (new_projection-Accounts max_frames),
    after-Handed calls (new_projection max_frames) nothing
        (record { evidence_in = refl; received_in = refl; critical_out = refl; frames_out = refl }),
  )
