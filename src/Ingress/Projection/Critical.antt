-- ===== src/Ingress/Projection/Critical.antt =====
-- The records that src/backend/transport/LiveProjectionRuntime.cpp lets through at once.
use vsm_field_workstation.Prelude.{
  ℕ, ◌≡◌, refl, sym, ap, ◌∙◌, Bool, true, false, Bool-cases, inl, inr, Option, none, some, List, [],
  ◌∷◌, ◌++◌, if◌then◌else◌, arith, ltb, leb, ◌==◌, ◌&&◌, length, append-nil, append_assoc, set,
  ◌||◌, set, find, insert,
}
use vsm_field_workstation.Typed.{TypedRecord, is_type}
use vsm_field_workstation.Typed.RecordType
use vsm_field_workstation.Typed.Records.{TypedCanRawRecord, TypedControlAckRecord}
use vsm_field_workstation.Typed.Decode.{decode_can_raw, control_ack_fields, decode_control_ack}
use vsm_field_workstation.Wire.{byte}
use vsm_field_workstation.Packet.Stream.{FrameRecord}
use vsm_field_workstation.Ingress.Projection.{
  LiveProjectionRuntime, Projecting, queue_accepted_ack, queue_control_tx, queue_control_feedback,
  observe_evidence, coalesce, observe_can_rx, take_can_rx, push_critical, note_projected_evidence,
  take_ack, take_can_tx, take_record, take_records, control_evidence_flush_due,
  flush_pending_control_evidence, cut_frames, begun, flush_if_due, ingest, projection_key,
  to_frame_record, is_control_can_id, is_always_critical_record,
}

-- A refused command.
abbrev is_rejected : Option TypedControlAckRecord → Bool
is_rejected none = false
is_rejected (some ack) = ack.status == 0

-- BoardEvent, BoardHealth and Capability, by the numbers of their types.
abbrev pub is_of_board : TypedRecord → Bool
is_of_board r =
    (r.header.record_type == 7) || ((r.header.record_type == 8) || (r.header.record_type == 9))

-- A ControlAck with all its 28 bytes, and the status 0 in byte 12.
abbrev pub is_refusal : TypedRecord → Bool
is_refusal r =
    (r.header.record_type == 6) && (leb 28 (length r.payload) && (byte r.payload 12 == 0))

abbrev pub is_urgent : TypedRecord → Bool
is_urgent r = is_of_board r || is_refusal r

abbrev pub urgent : List TypedRecord → List TypedRecord
urgent [] = []
urgent (r ∷ rs) = if is_urgent r then r ∷ urgent rs else urgent rs

-- The same, as the code tells it.
abbrev is_let_through : TypedRecord → Bool
is_let_through r = is_always_critical_record r || is_rejected (decode_control_ack r)

abbrev let_through : List TypedRecord → List TypedRecord
let_through [] = []
let_through (r ∷ rs) = if is_let_through r then r ∷ let_through rs else let_through rs

is_always_critical_record-is_of_board :
    (r : TypedRecord) → is_always_critical_record r ≡ is_of_board r
unfolding is_always_critical_record is_type
is_always_critical_record-is_of_board r = refl

decode_control_ack-is_refusal :
    (r : TypedRecord) → is_rejected (decode_control_ack r) ≡ is_refusal r
unfolding decode_control_ack control_ack_fields is_type
decode_control_ack-is_refusal r = elim (Bool-cases (r.header.record_type == 6)) [
  | inr e ↦ rw e refl
  | inl e ↦ elim (Bool-cases (ltb (length r.payload) 28)) [
    | inl f ↦
        let short : leb 28 (length r.payload) ≡ false = ground (arith, f) in rw (e, f, short) refl
    | inr f ↦
        let long : leb 28 (length r.payload) ≡ true = ground (arith, f) in rw (e, f, long) refl
  ]
]

let_through-urgent : (rs : List TypedRecord) → let_through rs ≡ urgent rs
let_through-urgent [] = refl
let_through-urgent (r ∷ rs) =
    rw
      (
        is_always_critical_record-is_of_board r,
        decode_control_ack-is_refusal r,
        let_through-urgent rs,
      )
      refl

coalesce-critical :
    (key : ℕ) (frame : FrameRecord) (g : Projecting) → (coalesce key frame g).critical ≡ g.critical
unfolding coalesce
coalesce-critical key frame g = placed (find key g.frame_index_by_key)
  where
    placed :
        (o : Option ℕ)
        → (elim o as (λ _. Projecting) [
          | some i ↦ record g { coalesced_frames = set g.coalesced_frames i frame }
          | none ↦ record g {
            frame_index_by_key = insert key (length g.coalesced_frames) g.frame_index_by_key;
            coalesced_frames = g.coalesced_frames ++ (frame ∷ []);
          }
        ]).critical
          ≡ g.critical
    placed none = refl
    placed (some i) = refl

take_can_rx-critical :
    (r : TypedRecord) (can : TypedCanRawRecord) (g : Projecting)
    → (take_can_rx r can g).critical ≡ g.critical
unfolding take_can_rx observe_can_rx queue_control_feedback observe_evidence
take_can_rx-critical r can g =
    let key = projection_key can.bus can.can_id in
    elim (Bool-cases (is_control_can_id can.can_id)) [
      | inl e ↦ rw e (coalesce-critical key (to_frame_record r can) _)
      | inr e ↦ rw e (coalesce-critical key (to_frame_record r can) _)
    ]

as_rx-critical :
    (r : TypedRecord) (g : Projecting) (o : Option TypedCanRawRecord)
    → (elim o as (λ _. Projecting) [ none ↦ g | some can ↦ take_can_rx r can g ]).critical
      ≡ g.critical
as_rx-critical r g none = refl
as_rx-critical r g (some can) = take_can_rx-critical r can g

as_tx-critical :
    (r : TypedRecord) (g : Projecting) (o : Option TypedCanRawRecord)
    → (elim o as (λ _. Projecting) [ none ↦ g | some can ↦ take_can_tx r can g ]).critical
      ≡ g.critical
unfolding take_can_tx queue_control_tx observe_evidence
as_tx-critical r g none = refl
as_tx-critical r g (some can) = refl

as_ack-critical :
    (r : TypedRecord) (g : Projecting) (o : Option TypedControlAckRecord)
    → (elim o as (λ _. Projecting) [ none ↦ g | some ack ↦ take_ack r ack g ]).critical
      ≡ g.critical ++ (if is_rejected o then r ∷ [] else [])
unfolding take_ack note_projected_evidence push_critical queue_accepted_ack observe_evidence
as_ack-critical r g none = sym (append-nil g.critical)
as_ack-critical r g (some ack) = elim (Bool-cases (ack.status == 0)) [
  | inl e ↦ rw e refl
  | inr e ↦ rw e (sym (append-nil g.critical))
]

-- Only a record of its type decodes.
no_ack :
    (r : TypedRecord)
    → is_type r RecordType.control_ack ≡ false
    → is_rejected (decode_control_ack r) ≡ false
unfolding decode_control_ack
no_ack r e = rw e refl

-- A record has one type.
rx_only :
    (r : TypedRecord)
    → is_type r RecordType.can_rx_raw ≡ true
    → (is_always_critical_record r ≡ false) × (is_type r RecordType.control_ack ≡ false)
unfolding is_always_critical_record
rx_only r e = (ground (arith, e), ground (arith, e))

tx_only :
    (r : TypedRecord) → is_type r RecordType.can_tx_raw ≡ true → is_always_critical_record r ≡ false
unfolding is_always_critical_record
tx_only r e = ground (arith, e)

ack_only :
    (r : TypedRecord)
    → is_type r RecordType.control_ack ≡ true
    → is_always_critical_record r ≡ false
unfolding is_always_critical_record
ack_only r e = ground (arith, e)

take_record-critical :
    (r : TypedRecord) (g : Projecting)
    → (take_record r g).critical ≡ g.critical ++ let_through (r ∷ [])
unfolding take_record push_critical
take_record-critical r g = elim (Bool-cases (is_type r RecordType.can_rx_raw)) [
  | inl e ↦
      let (a, b) = rx_only r e in
      rw (e, a, no_ack r b) (as_rx-critical r g (decode_can_raw r) ∙ sym (append-nil g.critical))
  | inr e1 ↦ elim (Bool-cases (is_type r RecordType.control_ack)) [
    | inl e ↦ rw (e1, e, ack_only r e) (as_ack-critical r g (decode_control_ack r))
    | inr e2 ↦ elim (Bool-cases (is_type r RecordType.can_tx_raw)) [
      | inl e ↦
          rw (e1, e2, e, tx_only r e, no_ack r e2)
            (as_tx-critical r g (decode_can_raw r) ∙ sym (append-nil g.critical))
      | inr e3 ↦ elim (Bool-cases (is_always_critical_record r)) [
        | inl e ↦ rw (e1, e2, e3, e) refl
        | inr e ↦ rw (e1, e2, e3, e, no_ack r e2) (sym (append-nil g.critical))
      ]
    ]
  ]
]

let_through-append :
    (xs ys : List TypedRecord) → let_through (xs ++ ys) ≡ let_through xs ++ let_through ys
let_through-append [] ys = refl
let_through-append (x ∷ xs) ys = elim (Bool-cases (is_let_through x)) [
  | inl e ↦ rw e (ap (λ rs. x ∷ rs) (let_through-append xs ys))
  | inr e ↦ rw e (let_through-append xs ys)
]

take_records-critical :
    (rs : List TypedRecord) (g : Projecting)
    → (take_records rs g).critical ≡ g.critical ++ let_through rs
unfolding take_records
take_records-critical [] g = sym (append-nil g.critical)
take_records-critical (r ∷ rs) g =
    take_records-critical rs (take_record r g)
    ∙ ap (λ xs. xs ++ let_through rs) (take_record-critical r g)
    ∙ append_assoc g.critical (let_through (r ∷ [])) (let_through rs)
    ∙ ap (λ xs. g.critical ++ xs) (sym (let_through-append (r ∷ []) rs))

module _ (sort_frames : List FrameRecord → List FrameRecord)
    (sort_records : List TypedRecord → List TypedRecord) where
  cut_frames-critical :
      (g : Projecting) → (cut_frames sort_frames sort_records g).critical ≡ g.critical
  unfolding cut_frames
  cut_frames-critical g =
      elim (Bool-cases (ltb g.runtime.max_frames_per_batch (length g.coalesced_frames))) [
        | inl e ↦ rw e refl
        | inr e ↦ rw e refl
      ]

  flush_if_due-critical :
      (now : ℕ) (g : Projecting)
      → (waited : List TypedRecord) × ((flush_if_due sort_frames sort_records now g).critical
          ≡ g.critical ++ waited)
  unfolding flush_if_due flush_pending_control_evidence note_projected_evidence
  flush_if_due-critical now g = elim (Bool-cases (control_evidence_flush_due now g.runtime)) [
    | inl e ↦ rw e (_, refl)
    | inr e ↦ rw e ([], sym (append-nil g.critical))
  ]

  -- Whatever the state, the records that a batch hands over at once begin with all events, health and
  -- capability records of the batch (the types 7, 8 and 9) and all its refused commands (type 6, 28 bytes
  -- at least, status 0 in byte 12), in order: none is sampled or delayed.
  pub ingest-critical :
      (now : ℕ) (rs : List TypedRecord) (p : LiveProjectionRuntime)
      → (waited : List TypedRecord) × ((ingest sort_frames sort_records now rs p).0.critical_records
          ≡ urgent rs ++ waited)
  unfolding ingest
  ingest-critical now [] p = ([], refl)
  ingest-critical now (r ∷ rs) p =
      let taken = take_records (r ∷ rs) (begun p) in
      let (waited, e) = flush_if_due-critical now (cut_frames sort_frames sort_records taken) in
      (
        waited,
        e
            ∙ ap (λ xs. xs ++ waited)
                (cut_frames-critical taken
                  ∙ take_records-critical (r ∷ rs) (begun p)
                  ∙ let_through-urgent (r ∷ rs)),
      )
