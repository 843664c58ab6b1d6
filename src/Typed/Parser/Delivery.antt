-- ===== src/Typed/Parser/Delivery.antt =====
-- takeOne on a stream with a frame behind bytes that hold no marker byte.
use vsm_field_workstation.Prelude.{
  ℕ, zero, suc, ◌+◌, ◌%◌, ◌^◌, ◌≤◌, ◌<◌, ◌≡◌, refl, sym, ap, ◌∙◌, inl, inr, Option, none, some,
  List, [], ◌∷◌, ◌++◌, arith, append-nil, length, drop, length-append, length-drop, drop-append,
  dec_lt, ◌≢◌, All, subst,
}
use vsm_field_workstation.Wire.{IsBytes, byte, read_u16_le}
use vsm_field_workstation.Typed.{TypedRecord, transport_sof0}
use vsm_field_workstation.Typed.Frame.{IsHeader, frame, frame_shape, length-frame}
use vsm_field_workstation.Typed.Frame.Reads.{frame-length_field}
use vsm_field_workstation.Typed.Frame.Unique.{
  same_version, same_type, same_flags, same_seq, same_payload, same_rest,
}
use vsm_field_workstation.Typed.Parser.{Parser, view, take_one}
use vsm_field_workstation.Typed.Parser.Outcomes.{Found, Waiting, Outcome, Noted}
use vsm_field_workstation.Typed.Parser.Skips.{Skipped}
use vsm_field_workstation.Typed.Parser.TakeOne.{take_one-Outcome}

abbrev pub NoMarker : List ℕ → Type 0
NoMarker = All (λ b. b ≢ transport_sof0)

junk_byte :
    (junk ys : List ℕ) (k : ℕ)
    → NoMarker junk
    → k < length junk
    → byte (drop k (junk ++ ys)) 0 ≢ transport_sof0
junk_byte [] ys k clean h = absurd (omega arith)
junk_byte (x ∷ junk) ys zero clean h = clean.0
junk_byte (x ∷ junk) ys (suc k) clean h = junk_byte junk ys k clean.1 (omega arith)

-- The record that a frame stands for.
abbrev pub framed : ℕ → ℕ → ℕ → ℕ → List ℕ → TypedRecord
framed v t f s payload = record {
  header = record {
    version = v;
    record_type = t;
    flags = f;
    seq = s;
    payload_length = length payload;
  };
  payload = payload;
  frame_bytes = frame v t f s payload;
}

module _ (junk : List ℕ) (v t f s : ℕ) (payload rest : List ℕ) (clean : NoMarker junk)
    (ok : IsHeader v t f s payload) where
  abbrev stream : List ℕ
  stream = junk ++ (frame v t f s payload ++ rest)

  at_frame : drop (length junk) stream ≡ frame v t f s payload ++ rest
  at_frame = drop-append junk (frame v t f s payload ++ rest) (length junk) refl

  -- Nobody skips the frame, and a marker first shows where it begins.
  stops_at : (k : ℕ) → Skipped k stream → byte (drop k stream) 0 ≡ transport_sof0 → k ≡ length junk
  stops_at k skipped marked = elim (dec_lt (length junk) k) [
    | yes over ↦ absurd (
        skipped (length junk) over [] v t f s payload rest ok
          (append-nil (drop (length junk) stream) ∙ at_frame))
    | no within ↦ elim (dec_lt k (length junk)) [
      | yes short ↦ absurd (junk_byte junk (frame v t f s payload ++ rest) k clean short marked)
      | no enough ↦ omega arith
    ]
  ]

  long_enough : length stream ≡ length junk + (11 + length payload + length rest)
  long_enough = omega (
    arith,
    length-append junk (frame v t f s payload ++ rest),
    length-append (frame v t f s payload) rest,
    length-frame v t f s payload,
  )

  never_waits : (k : ℕ) → Skipped k stream → k ≤ length stream → ¬ Waiting (drop k stream)
  never_waits k skipped room (inl short) = elim (dec_lt (length junk) k) [
    | yes over ↦ absurd (
        skipped (length junk) over [] v t f s payload rest ok
          (append-nil (drop (length junk) stream) ∙ at_frame))
    | no within ↦ omega (arith, long_enough, length-drop k stream)
  ]
  never_waits k skipped room (inr (starts, fits, short)) =
      omega (arith, size, long_enough, length-drop k stream, place)
    where
      place : k ≡ length junk
      place = stops_at k skipped starts.0

      size : read_u16_le (drop k stream) 7 ≡ length payload
      size =
          ap (λ (i : ℕ). read_u16_le (drop i stream) 7) place
          ∙ ap (λ (ys : List ℕ). read_u16_le ys 7) at_frame
          ∙ frame-length_field v t f s payload rest (omega (arith, ok.fits))

  the_record :
      (k : ℕ) (p q : Parser) (r : TypedRecord)
      → view p.window ≡ stream
      → Found k p q r
      → (k ≡ length junk) × (r ≡ framed v t f s payload) × (view q.window ≡ rest)
  the_record k p q r shown found = (
    place,
    same,
    sym (
        same_rest v t f s payload rest v' t' f' s' payload' (view q.window) ok
          found.is_record.header_ok agree),
  )
    where
      v' : ℕ
      v' = r.header.version

      t' : ℕ
      t' = r.header.record_type

      f' : ℕ
      f' = r.header.flags

      s' : ℕ
      s' = r.header.seq

      payload' : List ℕ
      payload' = r.payload

      next : drop k stream ≡ frame v' t' f' s' payload' ++ view q.window
      next =
          ap (λ (ys : List ℕ). drop k ys) (sym shown)
          ∙ found.split
          ∙ ap (λ (ys : List ℕ). ys ++ view q.window) found.is_record.bytes

      place : k ≡ length junk
      place = stops_at k (subst (Skipped k) shown found.skipped) (
          ap (λ (ys : List ℕ). byte ys 0) (next ∙ frame_shape v' t' f' s' payload' (view q.window)))

      agree : frame v t f s payload ++ rest ≡ frame v' t' f' s' payload' ++ view q.window
      agree = sym at_frame ∙ ap (λ (i : ℕ). drop i stream) (sym place) ∙ next

      same : r ≡ framed v t f s payload
      same = ground (
        arith,
        same_version v t f s payload rest v' t' f' s' payload' (view q.window) ok
            found.is_record.header_ok agree,
        same_type v t f s payload rest v' t' f' s' payload' (view q.window) ok
            found.is_record.header_ok agree,
        same_flags v t f s payload rest v' t' f' s' payload' (view q.window) ok
            found.is_record.header_ok agree,
        same_seq v t f s payload rest v' t' f' s' payload' (view q.window) ok
            found.is_record.header_ok agree,
        same_payload v t f s payload rest v' t' f' s' payload' (view q.window) ok
            found.is_record.header_ok agree,
        found.is_record.bytes,
        found.is_record.length_field,
      )

-- Whatever the state of the parser, if what it holds is bytes without the marker byte 0xA5, then a
-- frame, then anything, the next call returns the record of that frame, with its fields and payload.
-- The bytes before it were counted as dropped (modulo 2 ^ 64), the record was counted and its
-- sequence number noted, and exactly the bytes behind the frame are left.
pub take_one_delivers :
    (p : Parser) (junk : List ℕ) (v t f s : ℕ) (payload rest : List ℕ)
    → IsBytes (view p.window)
    → NoMarker junk
    → IsHeader v t f s payload
    → view p.window ≡ junk ++ (frame v t f s payload ++ rest)
    → (q : Parser) × (take_one p ≡ some (some (framed v t f s payload), q))
      × (view q.window ≡ rest)
      × (q.counters.bytes_dropped % 2 ^ 64 ≡ (p.counters.bytes_dropped + length junk) % 2 ^ 64)
      × Noted p q (framed v t f s payload)
take_one_delivers p junk v t f s payload rest bytes clean ok shown =
    deliver (take_one-Outcome p bytes)
  where
    deliver :
        ((o : Option TypedRecord) × (q : Parser) × (take_one p ≡ some (o, q)) × Outcome p o q)
        → (q : Parser) × (take_one p ≡ some (some (framed v t f s payload), q))
          × (view q.window ≡ rest)
          × (q.counters.bytes_dropped % 2 ^ 64 ≡ (p.counters.bytes_dropped + length junk) % 2 ^ 64)
          × Noted p q (framed v t f s payload)
    deliver (none, q, e, (k, adv, wait)) = absurd (
        never_waits junk v t f s payload rest clean ok k (subst (Skipped k) shown adv.skipped)
          (subst (λ (ys : List ℕ). k ≤ length ys) shown adv.room)
          (subst Waiting (adv.left ∙ ap (λ (ys : List ℕ). drop k ys) shown) wait))
    deliver (some r, q, e, (k, found)) =
        let (place, same, left) =
          the_record junk v t f s payload rest clean ok k p q r shown found in
        (
          q,
          e ∙ ap (λ (x : TypedRecord). some (some x, q)) same,
          left,
          found.counted ∙ ap (λ (i : ℕ). (p.counters.bytes_dropped + i) % 2 ^ 64) place,
          subst (Noted p q) same found.noted,
        )
