-- ===== src/Typed.antt =====
-- The records of the typed stream: src/backend/TypedRecords.h, constants, header and record.
pub mod RecordType
pub mod Frame
pub mod Parser
pub mod Records
pub mod Decode
mod Tests
use vsm_field_workstation.Prelude.{ℕ, ◌+◌, List, Bool, ◌==◌}

abbrev pub transport_sof0 : ℕ
transport_sof0 = 0xA5

abbrev pub transport_sof1 : ℕ
transport_sof1 = 0x5A

abbrev pub transport_version : ℕ
transport_version = 1

abbrev pub transport_header_size : ℕ
transport_header_size = 7

abbrev pub transport_frame_overhead : ℕ
transport_frame_overhead = 2 + transport_header_size + 2

abbrev pub transport_max_payload_length : ℕ
transport_max_payload_length = 4096

pub record FrameHeader : Type 0 where
  pub version : ℕ
  pub record_type : ℕ
  pub flags : ℕ
  pub seq : ℕ
  pub payload_length : ℕ

pub record TypedRecord : Type 0 where
  pub header : FrameHeader
  pub payload : List ℕ
  pub frame_bytes : List ℕ

unfoldable pub is_type : TypedRecord → ℕ → Bool
is_type r type = r.header.record_type == type
