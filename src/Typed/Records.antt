-- ===== src/Typed/Records.antt =====
-- The decoded records: src/backend/TypedRecords.h. Machine words are numbers, `data` arrays are lists.
use vsm_field_workstation.Prelude.{ℕ, Bool, List}
use vsm_field_workstation.Prelude.Int.{ℤ}

pub record TypedCanRawRecord : Type 0 where
  pub tx_audit : Bool
  pub mono_us : ℕ
  pub can_id_flags : ℕ
  pub can_id : ℕ
  pub extended : Bool
  pub rtr : Bool
  pub dlc : ℕ
  pub bus : ℕ
  pub bytes : List ℕ
  pub total : ℕ
  pub dropped_or_failed : ℕ

pub record TypedAdcSampleRecord : Type 0 where
  pub mono_us : ℕ
  pub sample_total : ℕ
  pub dropped_total : ℕ
  pub source_id : ℕ
  pub channel_count : ℕ
  pub resolution_bits : ℕ
  pub flags : ℕ
  pub channel_id : List ℕ
  pub raw : List ℕ

pub record TypedControlAckRecord : Type 0 where
  pub mono_us : ℕ
  pub command_id : ℕ
  pub status : ℕ
  pub reason : ℕ
  pub target_bus : ℕ
  pub target_dlc_flags : ℕ
  pub target_can_id_flags : ℕ
  pub target_can_id : ℕ
  pub target_extended : Bool
  pub target_rtr : Bool
  pub counter : ℕ
  pub rejected_total : ℕ

pub record TypedBoardEventRecord : Type 0 where
  pub mono_us : ℕ
  pub code : ℕ
  pub detail : ℕ
  pub counter : ℕ

pub record TypedBoardHealthRecord : Type 0 where
  pub mono_us : ℕ
  pub can_rx_total : ℕ
  pub can_dropped_total : ℕ
  pub can_fifo_overflow_total : ℕ
  pub serial_record_tx_total : ℕ
  pub queue_depth : ℕ
  pub encoder_fault_events : ℕ
  pub encoder_wrap_events : ℕ
  pub encoder_position : ℤ
  pub safety_state : ℕ
  pub inputs : ℕ
  pub encoder_timer_ok : ℕ
  pub flags : ℕ
  pub fault_flags : ℕ

pub record TypedCapabilityBusDescriptor : Type 0 where
  pub bus_id : ℕ
  pub role_hint : ℕ
  pub backend : ℕ
  pub transceiver : ℕ
  pub rx_supported : Bool
  pub tx_supported : Bool
  pub control_tx_allowed : Bool
  pub classic_can_supported : Bool
  pub can_fd_supported : Bool
  pub max_live_dlc : ℕ
  pub nominal_bitrate : ℕ
  pub data_bitrate : ℕ
  pub termination_policy : ℕ
  pub isolation_policy : ℕ

pub record TypedCapabilityRecord : Type 0 where
  pub mono_us : ℕ
  pub protocol_version : ℕ
  pub profile_major : ℕ
  pub profile_minor : ℕ
  pub mono_unit : ℕ
  pub can_queue_size : ℕ
  pub encoder_ppr : ℕ
  pub encoder_frequency_limit : ℕ
  pub supports_can_rx_raw : Bool
  pub supports_can_tx_raw : Bool
  pub supports_enc_edge_raw : Bool
  pub supports_enc_derived : Bool
  pub supports_adc_sample : Bool
  pub supports_board_health : Bool
  pub supports_board_event : Bool
  pub adc_channels : ℕ
  pub adc_resolution_bits : ℕ
  pub adc_period_ms : ℕ
  pub lane_capability_flags : ℕ
  pub limitation_flags : ℕ
  pub bus_count : ℕ
  pub bus_descriptor_size : ℕ
  pub capability_v2_flags : ℕ
  pub buses : List TypedCapabilityBusDescriptor
  pub supported_uplink_records : ℕ
  pub supported_downlink_records : ℕ
  pub safety_feature_flags : ℕ
  pub policy_hash : ℕ
  pub firmware_build_id : ℕ
  pub host_tx_queue_size : ℕ
  pub capability_v3_flags : ℕ
