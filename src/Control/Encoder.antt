-- ===== src/Control/Encoder.antt =====
-- The encoder of host commands: src/backend/ControlCommandEncoder.h and ControlCommandEncoder.cpp.
-- An `int` or `qint16` is an integer; a byte array is a list of bytes. The parameters that the source
-- leaves unused (the command and the angle of makeAdcuManualFrame, the rpm of makeControlBurst) are
-- left out.

pub mod Frames
pub mod Motion
use Prim.Native.String.{String}
use vsm_field_workstation.Prelude.{
  ℕ, zero, suc, ◌+◌, ◌-◌, ◌*◌, ◌/◌, ◌%◌, ◌^◌, min, bit_and, bit_or, Bool, true, false, List, [],
  ◌∷◌, ◌++◌, if◌then◌else◌, ltb, ◌==◌, length, set, replicate,
}
use vsm_field_workstation.Prelude.Int.{ℤ, pos, negsuc, clamp}
use vsm_field_workstation.Foreign.{Qt, Doubles}
use vsm_field_workstation.Wire.{byte, write_u16_le, write_u32_le, crc16_ccitt}
use vsm_field_workstation.Typed.{transport_sof0, transport_sof1, transport_version}

abbrev pub control_session_any_bus : ℕ
control_session_any_bus = 0xFF

abbrev pub control_session_disarm : ℕ
control_session_disarm = 0

abbrev pub control_session_arm : ℕ
control_session_arm = 1

abbrev pub control_session_renew_lease : ℕ
control_session_renew_lease = 2

-- `data` is the array of eight bytes.
pub record ControlCanFrame : Type 0 where
  pub bus : ℕ
  pub can_id : ℕ
  pub extended : Bool
  pub rtr : Bool
  pub dlc : ℕ
  pub bytes : List ℕ

-- `quint16(qint16)`: the two's complement pattern.
unfoldable pub to_u16 : ℤ → ℕ
to_u16 (pos n) = n % 2 ^ 16
to_u16 (negsuc n) = 2 ^ 16 - 1 - n % 2 ^ 16

unfoldable pub set_i16_le : List ℕ → ℕ → ℤ → List ℕ
set_i16_le bytes offset value =
    let clamped = to_u16 (clamp value (negsuc 32767) (pos 32767)) in
    set (set bytes offset (bit_and clamped 0xFF)) (offset + 1) (bit_and (clamped / 2 ^ 8) 0xFF)

unfoldable pub make_adcu_manual_frame : ℕ → ℕ → ℕ → ControlCanFrame
make_adcu_manual_frame driving_mode alive_counter bus = record {
  bus = bus;
  can_id = 0x503;
  extended = false;
  rtr = false;
  dlc = 8;
  bytes =
      set
        (set (set (replicate 8 0) 0 (2 * 2 ^ 6 % 256)) 5 (bit_and driving_mode 0x07 * 2 ^ 5 % 256))
        7 (bit_and alive_counter 0x0F * 2 ^ 4 % 256);
}

module _ (d : Doubles) where
  open d use {Double, milli, lt, times, lround}

  unfoldable pub clamp_double : Double → Double → Double → Double
  clamp_double x lo hi = if lt x lo then lo else if lt hi x then hi else x

  -- int(std::lround(std::clamp(steeringDeg, -90.0, 90.0) * 10.0))
  unfoldable pub steering_raw_01_deg : Double → ℤ
  steering_raw_01_deg steering_deg = lround (
      times (clamp_double steering_deg (milli (negsuc 89999)) (milli (pos 90000)))
        (milli (pos 10000)))

  unfoldable pub make_vcu_auto_frame : ℕ → ℤ → Double → ℕ → ℕ → ControlCanFrame
  make_vcu_auto_frame can_id signed_command steering_deg motor_mode bus = record {
    bus = bus;
    can_id = can_id;
    extended = false;
    rtr = false;
    dlc = 8;
    bytes =
        set_i16_le
          (set_i16_le (set (replicate 8 0) 0 (bit_and motor_mode 0x03 * 2 ^ 6 % 256)) 1
            (clamp signed_command (negsuc 9999) (pos 10000)))
          3 (steering_raw_01_deg steering_deg);
  }

  unfoldable pub make_control_burst : ℤ → Double → ℕ → ℕ → ℕ → ℕ → List ControlCanFrame
  make_control_burst signed_command steering_deg motor_mode driving_mode alive_counter bus =
      let vcu =
        λ (can_id : ℕ). make_vcu_auto_frame can_id signed_command steering_deg motor_mode bus in
      make_adcu_manual_frame driving_mode alive_counter bus
      ∷ vcu 0x510
      ∷ vcu 0x512
      ∷ vcu 0x511
      ∷ vcu 0x513
      ∷ []

-- headerAndPayload and out, which the three build functions assemble in the same way.
unfoldable pub host_frame : ℕ → ℕ → List ℕ → List ℕ
host_frame record_type command_id payload =
    let header_and_payload =
      transport_version
      ∷ record_type
      ∷ 0
      ∷ (write_u16_le (bit_and command_id 0xFFFF)
          ++ (write_u16_le (length payload % 2 ^ 16) ++ payload)) in
    transport_sof0
    ∷ transport_sof1
    ∷ (header_and_payload ++ write_u16_le (crc16_ccitt header_and_payload))

-- `for (int i = 0; i < 8; ++i) payload.append(char(frame.data[i]))`
unfoldable pub eight_bytes : List ℕ → List ℕ
eight_bytes p =
    byte p 0 ∷ byte p 1 ∷ byte p 2 ∷ byte p 3 ∷ byte p 4 ∷ byte p 5 ∷ byte p 6 ∷ byte p 7 ∷ []

unfoldable pub can_tx_payload : ℕ → ControlCanFrame → List ℕ
can_tx_payload command_id frame =
    write_u32_le command_id
    ++ (frame.bus
        ∷ bit_or (if frame.extended then 0x01 else 0x00) (if frame.rtr then 0x02 else 0x00)
        ∷ (write_u32_le frame.can_id ++ (min frame.dlc 8 ∷ eight_bytes frame.bytes)))

unfoldable pub build_host_can_tx_request : ℕ → ControlCanFrame → List ℕ
build_host_can_tx_request command_id frame =
    host_frame 10 command_id (can_tx_payload command_id frame)

unfoldable pub heartbeat_payload : ℕ → ℕ → List ℕ
heartbeat_payload command_id host_mono_ms =
    write_u32_le command_id ++ (write_u32_le host_mono_ms ++ (write_u16_le 0 ++ write_u16_le 0))

unfoldable pub build_host_heartbeat : ℕ → ℕ → List ℕ
build_host_heartbeat command_id host_mono_ms =
    host_frame 11 command_id (heartbeat_payload command_id host_mono_ms)

unfoldable pub session_payload : ℕ → ℕ → ℕ → ℕ → List ℕ
session_payload command_id action requested_bus lease_ms =
    write_u32_le command_id
    ++ (action
        ∷ requested_bus
        ∷ (write_u16_le 0
            ++ (write_u16_le lease_ms
                ++ (write_u16_le 0 ++ (write_u32_le 0 ++ (write_u32_le 0 ++ write_u32_le 0))))))

unfoldable pub build_host_control_session : ℕ → ℕ → ℕ → ℕ → List ℕ
build_host_control_session command_id action requested_bus lease_ms =
    host_frame 12 command_id (session_payload command_id action requested_bus lease_ms)

-- idText, hexBytes of src/backend/CanTypes.h, and frameSummary.
module _ (qt : Qt) where
  unfoldable pub id_text : ℕ → String
  id_text id = qt.to_upper (qt.arg_hex "0x%1" id 3)

  -- The loop of hexBytes from index i on, with `left` rounds to go.
  unfoldable pub hex_loop : ℕ → ℕ → List ℕ → String → String
  hex_loop zero count d s = s
  hex_loop (suc left) count d s =
      let with_byte = qt.join s (qt.to_upper (qt.arg_hex "%1" (byte d (count - suc left)) 2)) in
      hex_loop left count d (if left == 0 then with_byte else qt.join with_byte " ")

  unfoldable pub hex_bytes : List ℕ → ℕ → String
  hex_bytes d len = let count = min len 8 in hex_loop count count d ""

  unfoldable pub frame_summary : ControlCanFrame → String
  frame_summary f =
      qt.arg
        (qt.arg_number (qt.arg (qt.arg_number "BUS %1 %2 DLC %3 %4" f.bus) (id_text f.can_id))
          f.dlc)
        (hex_bytes f.bytes f.dlc)
