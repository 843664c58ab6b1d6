-- ===== src/Typed/Decode/Bounds.antt =====
-- What a decoded record holds, and where the descriptors of the buses are read.
use vsm_field_workstation.Prelude.{
  ℕ, ◌+◌, ◌/◌, ◌%◌, ◌^◌, if◌then◌else◌, ◌≤◌, ◌<◌, ◌≡◌, ◌⊎◌, true, length,
}
use vsm_field_workstation.Wire.{byte, read_u32_le, read_u64_le}
use vsm_field_workstation.Typed.{TypedRecord, is_type}
use vsm_field_workstation.Typed.RecordType
use vsm_field_workstation.Typed.Records.{TypedCanRawRecord}

-- A CAN record that is well formed, and is read from its payload at the places of the layout: the time,
-- the id with its two marks in a word of 32 bits, the length code, the bus, eight data bytes, and the two
-- totals.
pub record IsCanRaw (r : TypedRecord) (c : TypedCanRawRecord) : Type 0 where
  pub kind : (is_type r RecordType.can_rx_raw ≡ true) ⊎ (is_type r RecordType.can_tx_raw ≡ true)
  pub audit : c.tx_audit ≡ is_type r RecordType.can_tx_raw
  pub long_enough : 30 ≤ length r.payload
  pub dlc_bounded : c.dlc ≤ 8
  pub id_bounded : c.can_id < 2 ^ 29
  pub time : c.mono_us ≡ read_u64_le r.payload 0
  pub id : c.can_id ≡ read_u32_le r.payload 8 % 2 ^ 29
  pub extended : (if c.extended then 1 else 0) ≡ read_u32_le r.payload 8 / 2 ^ 29 % 2
  pub rtr : (if c.rtr then 1 else 0) ≡ read_u32_le r.payload 8 / 2 ^ 30 % 2
  pub dlc : c.dlc ≡ byte r.payload 12 % 16
  pub bus : c.bus ≡ byte r.payload 13
  pub eight : length c.bytes ≡ 8
  pub bytes : (i : ℕ) → i < 8 → byte c.bytes i ≡ byte r.payload (14 + i)
  pub total : c.total ≡ read_u32_le r.payload 22
  pub failed : c.dropped_or_failed ≡ read_u32_le r.payload 26
