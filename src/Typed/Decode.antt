-- ===== src/Typed/Decode.antt =====
-- The decoders of the records: src/backend/TypedRecords.cpp. nullopt is `none`.
pub mod Bounds
use vsm_field_workstation.Prelude.{
  ℕ, zero, suc, ◌+◌, ◌-◌, ◌*◌, ◌/◌, ◌^◌, min, bit_and, Bool, true, false, not, ◌&&◌, ◌||◌, Option,
  none, some, List, [], ◌∷◌, if◌then◌else◌, ltb, leb, ◌==◌, length, take, drop,
}
use vsm_field_workstation.Wire.{byte, read_u16_le, read_u32_le, read_u64_le, read_i64_le}
use vsm_field_workstation.Typed.{TypedRecord, is_type}
use vsm_field_workstation.Typed.RecordType
use vsm_field_workstation.Typed.Records.{
  TypedCanRawRecord, TypedAdcSampleRecord, TypedControlAckRecord, TypedBoardEventRecord,
  TypedBoardHealthRecord, TypedCapabilityBusDescriptor, TypedCapabilityRecord,
}

-- `(flags >> k) & 0x01u) != 0` and `p[i] != 0`.
abbrev pub flag_at : ℕ → ℕ → Bool
flag_at flags k = not (bit_and (flags / 2 ^ k) 1 == 0)

abbrev pub nonzero : ℕ → Bool
nonzero b = not (b == 0)

unfoldable pub record_mono_us : TypedRecord → ℕ
record_mono_us r = if ltb (length r.payload) 8 then 0 else read_u64_le r.payload 0

unfoldable pub can_raw_fields : TypedRecord → TypedCanRawRecord
unfolding is_type
can_raw_fields r =
    let p = r.payload in
    record {
      tx_audit = is_type r RecordType.can_tx_raw;
      mono_us = read_u64_le p 0;
      can_id_flags = read_u32_le p 8;
      can_id = bit_and (read_u32_le p 8) 0x1FFFFFFF;
      extended = flag_at (read_u32_le p 8) 29;
      rtr = flag_at (read_u32_le p 8) 30;
      dlc = bit_and (byte p 12) 0x0F;
      bus = byte p 13;
      bytes = take 8 (drop 14 p);
      total = read_u32_le p 22;
      dropped_or_failed = read_u32_le p 26;
    }

unfoldable pub decode_can_raw : TypedRecord → Option TypedCanRawRecord
unfolding is_type can_raw_fields
decode_can_raw r =
    if not (is_type r RecordType.can_rx_raw) && not (is_type r RecordType.can_tx_raw)
    then none
    else if ltb (length r.payload) 30
    then none
    else if ltb 8 (bit_and (byte r.payload 12) 0x0F)
    then none
    else some (can_raw_fields r)

-- `raw[index] = typedReadU16Le(p + 28 + index * 2)` for the eight indices.
unfoldable pub adc_raw : List ℕ → List ℕ
adc_raw p =
    read_u16_le p 28
    ∷ read_u16_le p 30
    ∷ read_u16_le p 32
    ∷ read_u16_le p 34
    ∷ read_u16_le p 36
    ∷ read_u16_le p 38
    ∷ read_u16_le p 40
    ∷ read_u16_le p 42
    ∷ []

unfoldable pub decode_adc_sample : TypedRecord → Option TypedAdcSampleRecord
unfolding is_type adc_raw
decode_adc_sample r =
    let p = r.payload in
    let out : TypedAdcSampleRecord = record {
      mono_us = read_u64_le p 0;
      sample_total = read_u32_le p 8;
      dropped_total = read_u32_le p 12;
      source_id = byte p 16;
      channel_count = byte p 17;
      resolution_bits = byte p 18;
      flags = byte p 19;
      channel_id = take 8 (drop 20 p);
      raw = adc_raw p;
    } in
    if not (is_type r RecordType.adc_sample)
    then none
    else if ltb (length p) 44
    then none
    else if ltb 8 (byte p 17)
    then none
    else some out

unfoldable pub control_ack_fields : List ℕ → TypedControlAckRecord
control_ack_fields p = record {
  mono_us = read_u64_le p 0;
  command_id = read_u32_le p 8;
  status = byte p 12;
  reason = byte p 13;
  target_bus = byte p 14;
  target_dlc_flags = byte p 15;
  target_can_id_flags = read_u32_le p 16;
  target_can_id = bit_and (read_u32_le p 16) 0x1FFFFFFF;
  target_extended = flag_at (read_u32_le p 16) 29;
  target_rtr = flag_at (read_u32_le p 16) 30;
  counter = read_u32_le p 20;
  rejected_total = read_u32_le p 24;
}

unfoldable pub decode_control_ack : TypedRecord → Option TypedControlAckRecord
unfolding is_type control_ack_fields
decode_control_ack r =
    if not (is_type r RecordType.control_ack)
    then none
    else if ltb (length r.payload) 28
    then none
    else some (control_ack_fields r.payload)

unfoldable pub board_event_fields : List ℕ → TypedBoardEventRecord
board_event_fields p = record {
  mono_us = read_u64_le p 0;
  code = read_u16_le p 8;
  detail = read_u16_le p 10;
  counter = read_u32_le p 12;
}

unfoldable pub decode_board_event : TypedRecord → Option TypedBoardEventRecord
unfolding is_type board_event_fields
decode_board_event r =
    if not (is_type r RecordType.board_event)
    then none
    else if ltb (length r.payload) 16
    then none
    else some (board_event_fields r.payload)

unfoldable pub board_health_fields : List ℕ → TypedBoardHealthRecord
board_health_fields p = record {
  mono_us = read_u64_le p 0;
  can_rx_total = read_u32_le p 8;
  can_dropped_total = read_u32_le p 12;
  can_fifo_overflow_total = read_u32_le p 16;
  serial_record_tx_total = read_u32_le p 20;
  queue_depth = read_u32_le p 24;
  encoder_fault_events = read_u32_le p 28;
  encoder_wrap_events = read_u32_le p 32;
  encoder_position = read_i64_le p 36;
  safety_state = byte p 44;
  inputs = byte p 45;
  encoder_timer_ok = byte p 46;
  flags = byte p 47;
  fault_flags = read_u32_le p 48;
}

unfoldable pub decode_board_health : TypedRecord → Option TypedBoardHealthRecord
unfolding is_type board_health_fields
decode_board_health r =
    if not (is_type r RecordType.board_health)
    then none
    else if ltb (length r.payload) 52
    then none
    else some (board_health_fields r.payload)

unfoldable pub bus_descriptor : List ℕ → ℕ → TypedCapabilityBusDescriptor
bus_descriptor p offset = record {
  bus_id = byte p offset;
  role_hint = byte p (offset + 1);
  backend = byte p (offset + 2);
  transceiver = byte p (offset + 3);
  rx_supported = nonzero (byte p (offset + 4));
  tx_supported = nonzero (byte p (offset + 5));
  control_tx_allowed = nonzero (byte p (offset + 6));
  classic_can_supported = nonzero (byte p (offset + 7));
  can_fd_supported = nonzero (byte p (offset + 8));
  max_live_dlc = byte p (offset + 9);
  nominal_bitrate = read_u32_le p (offset + 10);
  data_bitrate = read_u32_le p (offset + 14);
  termination_policy = byte p (offset + 18);
  isolation_policy = byte p (offset + 19);
}

-- The loop over the descriptors from `index` on, with `left` rounds to go; it breaks at the first
-- descriptor that the payload does not hold.
unfoldable pub bus_loop : ℕ → ℕ → ℕ → List ℕ → List TypedCapabilityBusDescriptor
unfolding bus_descriptor
bus_loop zero index descriptor_size p = []
bus_loop (suc left) index descriptor_size p =
    let offset = 40 + index * descriptor_size in
    let rest = bus_loop left (index + 1) descriptor_size p in
    if ltb (length p) (offset + 20) then [] else bus_descriptor p offset ∷ rest

unfoldable pub capability_buses : List ℕ → List TypedCapabilityBusDescriptor
unfolding bus_loop
capability_buses p =
    if leb 80 (length p) && leb 20 (byte p 37)
    then bus_loop (min (byte p 36) 2) 0 (byte p 37) p
    else []

unfoldable pub capability_fields : List ℕ → TypedCapabilityRecord
unfolding capability_buses
capability_fields p =
    let v2 = leb 80 (length p) in
    let v3 = leb 112 (length p) in
    record {
      mono_us = read_u64_le p 0;
      protocol_version = byte p 8;
      profile_major = byte p 9;
      profile_minor = byte p 10;
      mono_unit = byte p 11;
      can_queue_size = read_u32_le p 12;
      encoder_ppr = read_u32_le p 16;
      encoder_frequency_limit = read_u32_le p 20;
      supports_can_rx_raw = nonzero (byte p 24);
      supports_can_tx_raw = nonzero (byte p 25);
      supports_enc_edge_raw = nonzero (byte p 26);
      supports_enc_derived = nonzero (byte p 27);
      supports_adc_sample = nonzero (byte p 28);
      supports_board_health = nonzero (byte p 29);
      supports_board_event = nonzero (byte p 30);
      adc_channels = byte p 31;
      adc_resolution_bits = byte p 32;
      adc_period_ms = byte p 33;
      lane_capability_flags = byte p 34;
      limitation_flags = byte p 35;
      bus_count = if v2 then byte p 36 else 0;
      bus_descriptor_size = if v2 then byte p 37 else 0;
      capability_v2_flags = if v2 then read_u16_le p 38 else 0;
      buses = capability_buses p;
      supported_uplink_records = if v3 then read_u32_le p 80 else 0;
      supported_downlink_records = if v3 then read_u32_le p 84 else 0;
      safety_feature_flags = if v3 then read_u32_le p 88 else 0;
      policy_hash = if v3 then read_u32_le p 92 else 0;
      firmware_build_id = if v3 then read_u32_le p 96 else 0;
      host_tx_queue_size = if v3 then read_u16_le p 100 else 0;
      capability_v3_flags = if v3 then read_u16_le p 102 else 0;
    }

unfoldable pub decode_capability : TypedRecord → Option TypedCapabilityRecord
unfolding is_type capability_fields
decode_capability r =
    if not (is_type r RecordType.capability)
    then none
    else if ltb (length r.payload) 36
    then none
    else some (capability_fields r.payload)
