-- ===== src/Typed/RecordType.antt =====
-- src/backend/TypedRecords.h: TypedRecordType. A header keeps the record type as a byte; these are
-- the values of the enumeration.
use Prim.Native.String.{String}
use vsm_field_workstation.Prelude.{ℕ, ◌==◌, if◌then◌else◌}
use vsm_field_workstation.Foreign.{Qt}

abbrev pub unknown : ℕ
unknown = 0

abbrev pub can_rx_raw : ℕ
can_rx_raw = 1

abbrev pub can_tx_raw : ℕ
can_tx_raw = 2

abbrev pub enc_edge_raw : ℕ
enc_edge_raw = 3

abbrev pub enc_derived : ℕ
enc_derived = 4

abbrev pub adc_sample : ℕ
adc_sample = 5

abbrev pub control_ack : ℕ
control_ack = 6

abbrev pub board_event : ℕ
board_event = 7

abbrev pub board_health : ℕ
board_health = 8

abbrev pub capability : ℕ
capability = 9

abbrev pub host_can_tx_request : ℕ
host_can_tx_request = 10

abbrev pub host_heartbeat : ℕ
host_heartbeat = 11

abbrev pub host_control_session : ℕ
host_control_session = 12

-- typedRecordTypeName of src/backend/TypedRecords.cpp.
unfoldable pub record_type_name : Qt → ℕ → String
record_type_name qt type =
    if type == can_rx_raw
    then "CAN_RX_RAW"
    else if type == can_tx_raw
    then "CAN_TX_RAW"
    else if type == enc_edge_raw
    then "ENC_EDGE_RAW"
    else if type == enc_derived
    then "ENC_DERIVED"
    else if type == adc_sample
    then "ADC_SAMPLE"
    else if type == control_ack
    then "CONTROL_ACK"
    else if type == board_event
    then "BOARD_EVENT"
    else if type == board_health
    then "BOARD_HEALTH"
    else if type == capability
    then "CAPABILITY"
    else if type == host_can_tx_request
    then "HOST_CAN_TX_REQUEST"
    else if type == host_heartbeat
    then "HOST_HEARTBEAT"
    else if type == host_control_session
    then "HOST_CONTROL_SESSION"
    else qt.arg_number "TYPE_%1" type
