-- ===== src/Typed/Parser.antt =====
-- The stream parser: src/backend/TypedTransportParser.h and TypedTransportParser.cpp.
-- `Window` is the pair m_buffer, m_bufferOffset; the other members are fields of `Parser`.
-- A counter is a quint64 and wraps. Buffers stay below 2 ^ 31 bytes, so that the `int` indices of
-- findSof do not overflow.
pub mod View
pub mod Skips
pub mod Outcomes
pub mod Rounds
pub mod TakeOne
pub mod Delivery
use vsm_field_workstation.Prelude.{
  ℕ, zero, suc, ◌+◌, ◌-◌, ◌*◌, ◌%◌, ◌^◌, min, Bool, true, false, not, ◌&&◌, Option, none, some,
  List, [], ◌∷◌, ◌++◌, ltb, leb, ◌==◌, if◌then◌else◌, add_u, length, take, drop,
}
use vsm_field_workstation.Wire.{byte, read_u16_le, crc16_ccitt}
use vsm_field_workstation.Typed.{
  FrameHeader, TypedRecord, transport_sof0, transport_sof1, transport_version,
  transport_header_size, transport_frame_overhead, transport_max_payload_length,
}
use mathlib.Core.Option

pub record Counters : Type 0 where
  pub frames : ℕ
  pub bytes_dropped : ℕ
  pub crc_failures : ℕ
  pub length_failures : ℕ
  pub version_warnings : ℕ
  pub seq_gaps : ℕ

abbrev pub zero_counters : Counters
zero_counters = record {
  frames = 0;
  bytes_dropped = 0;
  crc_failures = 0;
  length_failures = 0;
  version_warnings = 0;
  seq_gaps = 0;
}

pub record Window : Type 0 where
  pub buffer : List ℕ
  pub buffer_offset : ℕ

pub record Parser : Type 0 where
  pub window : Window
  pub counters : Counters
  pub have_last_seq : Bool
  pub last_seq : ℕ

unfoldable pub reset : Parser
reset = record {
  window = record { buffer = []; buffer_offset = 0 };
  counters = zero_counters;
  have_last_seq = false;
  last_seq = 0;
}

-- The bytes that are still to be read: from `m_buffer.constData() + m_bufferOffset` on.
abbrev pub view : Window → List ℕ
view w = drop w.buffer_offset w.buffer

unfoldable pub buffered_bytes : Window → ℕ
buffered_bytes w = length w.buffer - w.buffer_offset

unfoldable pub compact_buffer_if_needed : Bool → Window → Window
compact_buffer_if_needed force w =
    if leb w.buffer_offset 0
    then w
    else if leb (length w.buffer) w.buffer_offset
    then record { buffer = []; buffer_offset = 0 }
    else if not force && (ltb w.buffer_offset 65536 && ltb (w.buffer_offset * 2) (length w.buffer))
    then w
    else record { buffer = drop w.buffer_offset w.buffer; buffer_offset = 0 }

unfoldable pub append_chunk : List ℕ → Window → Window
append_chunk chunk w =
    let compacted = compact_buffer_if_needed false w in
    record compacted { buffer = compacted.buffer ++ chunk }

unfoldable pub append : Parser → List ℕ → Parser
append p chunk = record p { window = append_chunk chunk p.window }

unfoldable pub drop_buffered_bytes : ℕ → Window → Window
drop_buffered_bytes count w =
    if leb count 0
    then w
    else compact_buffer_if_needed false
        (record w { buffer_offset = w.buffer_offset + min count (buffered_bytes w) })

-- The loop of findSof over the bytes from `offset` on, counted from there.
unfoldable pub scan_sof : List ℕ → Option ℕ
scan_sof [] = none
scan_sof (b0 ∷ []) = none
scan_sof (b0 ∷ (b1 ∷ rest)) =
    let later = Option.map suc (scan_sof (b1 ∷ rest)) in
    if b0 == transport_sof0 && b1 == transport_sof1 then some 0 else later

unfoldable pub find_sof : List ℕ → ℕ → Option ℕ
find_sof buffer offset = Option.map (λ i. offset + i) (scan_sof (drop offset buffer))

unfoldable pub note_sequence : ℕ → Parser → Parser × Bool
note_sequence seq p =
    if not p.have_last_seq
    then (record p { have_last_seq = true; last_seq = seq }, true)
    else if seq == (p.last_seq + 1) % 2 ^ 16
    then (record p { last_seq = seq }, true)
    else (
      record p {
        counters = record (p.counters) { seq_gaps = add_u 64 p.counters.seq_gaps 1 };
        last_seq = seq;
      },
      false,
    )

-- `dropBufferedBytes(n)` followed by `m_counters.bytesDropped += n`.
unfoldable pub discard : ℕ → Parser → Parser
discard n p = record p {
  window = drop_buffered_bytes n p.window;
  counters = record (p.counters) { bytes_dropped = add_u 64 p.counters.bytes_dropped n };
}

-- How one round of the `while (true)` of takeOne ends.
pub data Round : Type 0 where
  returns : Option TypedRecord → Parser → Round
  continues : Parser → Round

-- The record that the bytes at `m_buffer.constData() + m_bufferOffset` make up.
unfoldable pub record_at : List ℕ → ℕ → TypedRecord
record_at p payload_length = record {
  header = record {
    version = byte p 2;
    record_type = byte p 3;
    flags = byte p 4;
    seq = read_u16_le p 5;
    payload_length = payload_length;
  };
  payload = take payload_length (drop 9 p);
  frame_bytes = take (transport_frame_overhead + payload_length) p;
}

-- The end of the round, from the accepted record on.
unfoldable pub accept : TypedRecord → ℕ → Parser → Parser
accept r frame_length p =
    let warned = if r.header.version == transport_version then p else record p {
      counters = record (p.counters) { version_warnings = add_u 64 p.counters.version_warnings 1 };
    } in
    let noted = (note_sequence r.header.seq warned).0 in
    record noted {
      window = drop_buffered_bytes frame_length noted.window;
      counters = record (noted.counters) { frames = add_u 64 noted.counters.frames 1 };
    }

-- The round from the second test of `bufferedBytes()` on: the window begins at the marker.
unfoldable pub frame_round : Parser → Round
frame_round p =
    let d = view p.window in
    let payload_length = read_u16_le d 7 in
    let frame_length = transport_frame_overhead + payload_length in
    let expected = read_u16_le d (9 + payload_length) in
    let actual = crc16_ccitt (take (transport_header_size + payload_length) (drop 2 d)) in
    let r = record_at d payload_length in
    if ltb (buffered_bytes p.window) transport_frame_overhead
    then returns none p
    else if ltb transport_max_payload_length payload_length
    then continues (
        discard 1 (record p {
          counters = record (p.counters) {
            length_failures = add_u 64 p.counters.length_failures 1;
          };
        }))
    else if ltb (buffered_bytes p.window) frame_length
    then returns none p
    else if not (expected == actual)
    then continues (
        discard 1 (record p {
          counters = record (p.counters) { crc_failures = add_u 64 p.counters.crc_failures 1 };
        }))
    else returns (some r) (accept r frame_length p)

unfoldable pub take_round : Parser → Round
take_round p =
    let held = buffered_bytes p.window in
    let offset = p.window.buffer_offset in
    if ltb held transport_frame_overhead
    then returns none p
    else elim (find_sof p.window.buffer offset) [
      | none ↦ returns none (if ltb 0 (held - 1) then discard (held - 1) p else p)
      | some sof ↦ frame_round (if ltb offset sof then discard (sof - offset) p else p)
    ]

-- The `while (true)` on fuel; `none` means that the fuel ran out.
unfoldable pub take_loop : ℕ → Parser → Option (Option TypedRecord × Parser)
take_loop zero p = none
take_loop (suc fuel) p = elim (take_round p) [
  | returns r q ↦ some (r, q)
  | continues q ↦ take_loop fuel q
]

-- Each round that goes on drops a byte, so that many rounds are enough.
unfoldable pub take_one : Parser → Option (Option TypedRecord × Parser)
take_one p = take_loop (suc (buffered_bytes p.window)) p
