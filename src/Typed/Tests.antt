-- ===== src/Typed/Tests.antt =====
-- Examples of the parser and the decoders on concrete bytes.
use vsm_field_workstation.Prelude.{
  ℕ, ◌+◌, ◌%◌, ◌^◌, ◌≡◌, refl, false, Option, some, List, [], ◌∷◌, ◌++◌, arith, length,
}
use vsm_field_workstation.Wire.{crc_bit, crc_bits, crc_loop, crc16_ccitt, write_u16_le}
use vsm_field_workstation.Typed.{TypedRecord}
use vsm_field_workstation.Typed.RecordType
use vsm_field_workstation.Typed.Frame.{IsHeader, frame, frame_body}
use vsm_field_workstation.Typed.Parser.{Parser, view, zero_counters, take_one, append_chunk}
use vsm_field_workstation.Typed.Parser.View.{view-append_chunk}
use vsm_field_workstation.Typed.Parser.Outcomes.{Outcome, Noted}
use vsm_field_workstation.Typed.Parser.TakeOne.{take_one-Outcome}
use vsm_field_workstation.Typed.Parser.Delivery.{framed, take_one_delivers}

-- A byte of noise, a frame of type 2 with the payload 9, and the first byte of what follows.
abbrev stream : List ℕ
stream = 17 ∷ 165 ∷ 90 ∷ 1 ∷ 2 ∷ 0 ∷ 5 ∷ 0 ∷ 1 ∷ 0 ∷ 9 ∷ 64 ∷ 147 ∷ 33 ∷ []

abbrev listening : Parser
listening = record {
  window = record { buffer = stream; buffer_offset = 0 };
  counters = zero_counters;
  have_last_seq = false;
  last_seq = 0;
}

take_one-Outcome_example :
    (o : Option TypedRecord) × (q : Parser) × (take_one listening ≡ some (o, q))
    × Outcome listening o q
take_one-Outcome_example = take_one-Outcome listening (omega arith)

nine-IsHeader : IsHeader 1 2 0 5 (9 ∷ [])
nine-IsHeader = record {
  version_byte = omega arith;
  type_byte = omega arith;
  flags_byte = omega arith;
  seq_word = omega arith;
  fits = omega arith;
  payload_bytes = omega arith;
}

stream-shown : view listening.window ≡ (17 ∷ []) ++ (frame 1 2 0 5 (9 ∷ []) ++ (33 ∷ []))
unfolding frame frame_body write_u16_le crc16_ccitt crc_loop crc_bits crc_bit
stream-shown = refl

take_one_delivers_example :
    (q : Parser) × (take_one listening ≡ some (some (framed 1 2 0 5 (9 ∷ [])), q))
    × (view q.window ≡ 33 ∷ [])
    × (q.counters.bytes_dropped % 2 ^ 64
        ≡ (listening.counters.bytes_dropped + length {A = ℕ} (17 ∷ [])) % 2 ^ 64)
    × Noted listening q (framed 1 2 0 5 (9 ∷ []))
take_one_delivers_example =
    take_one_delivers listening (17 ∷ []) 1 2 0 5 (9 ∷ []) (33 ∷ []) (omega arith) (ground arith)
      nine-IsHeader stream-shown

view-append_chunk_example :
    view (append_chunk (6 ∷ 7 ∷ []) (record { buffer = 1 ∷ 2 ∷ 3 ∷ []; buffer_offset = 2 }))
    ≡ 3 ∷ 6 ∷ 7 ∷ []
view-append_chunk_example =
    view-append_chunk (6 ∷ 7 ∷ []) (record { buffer = 1 ∷ 2 ∷ 3 ∷ []; buffer_offset = 2 })

-- A received CAN frame with identifier 0x510, 8 data bytes and bus 1.
abbrev can_record : TypedRecord
can_record = record {
  header = record { version = 1; record_type = 1; flags = 0; seq = 0; payload_length = 30 };
  payload =
      100 ∷ 0 ∷ 0 ∷ 0 ∷ 0 ∷ 0 ∷ 0 ∷ 0 ∷ 16 ∷ 5 ∷ 0 ∷ 0 ∷ 8 ∷ 1 ∷ 1 ∷ 2 ∷ 3 ∷ 4 ∷ 5 ∷ 6 ∷ 7 ∷ 8 ∷ 1
      ∷ 0 ∷ 0 ∷ 0 ∷ 0 ∷ 0 ∷ 0 ∷ 0 ∷ [];
  frame_bytes = [];
}

-- A payload that announces two buses of 20 bytes each.
abbrev two_buses : List ℕ
two_buses =
    0 ∷ 0 ∷ 0 ∷ 0 ∷ 0 ∷ 0 ∷ 0 ∷ 0 ∷ 1 ∷ 0 ∷ 0 ∷ 0 ∷ 0 ∷ 0 ∷ 0 ∷ 0 ∷ 0 ∷ 0 ∷ 0 ∷ 0 ∷ 0 ∷ 0 ∷ 0 ∷ 0
    ∷ 1 ∷ 1 ∷ 0 ∷ 0 ∷ 0 ∷ 1 ∷ 0 ∷ 0 ∷ 0 ∷ 0 ∷ 0 ∷ 0 ∷ 2 ∷ 20 ∷ 0 ∷ 0 ∷ 0 ∷ 1 ∷ 0 ∷ 0 ∷ 1 ∷ 1 ∷ 1 ∷ 1
    ∷ 0 ∷ 8 ∷ 0 ∷ 0 ∷ 0 ∷ 0 ∷ 0 ∷ 0 ∷ 0 ∷ 0 ∷ 0 ∷ 0 ∷ 1 ∷ 2 ∷ 0 ∷ 0 ∷ 1 ∷ 1 ∷ 0 ∷ 1 ∷ 0 ∷ 8 ∷ 0 ∷ 0
    ∷ 0 ∷ 0 ∷ 0 ∷ 0 ∷ 0 ∷ 0 ∷ 0 ∷ 0 ∷ []
