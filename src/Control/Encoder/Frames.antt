-- ===== src/Control/Encoder/Frames.antt =====
-- The host commands of src/backend/ControlCommandEncoder.cpp against the frames of the typed stream
-- and against the parser.
use vsm_field_workstation.Prelude.{
  ℕ, ◌+◌, ◌/◌, ◌%◌, ◌^◌, ◌≤◌, ◌<◌, ◌≡◌, refl, ap, ◌∙◌, min, bit_or, Bool, true, false, some, List,
  [], ◌∷◌, ◌++◌, arith, if◌then◌else◌, bit_and-mask, replicate, length, drop,
}
use vsm_field_workstation.Wire.{IsBytes, byte, read_u16_le, read_u32_le, write_u16_le, write_u32_le}
use vsm_field_workstation.Wire.Laws.{
  read_u16_le-word, read_u32_le-word, write_u16_le-bytes, write_u32_le-bytes,
}
use vsm_field_workstation.Typed.Frame.{frame, frame_body}
use vsm_field_workstation.Typed.Parser.{Parser, view, take_one}
use vsm_field_workstation.Typed.Parser.Delivery.{framed, take_one_delivers}
use vsm_field_workstation.Control.Encoder.{
  ControlCanFrame, host_frame, eight_bytes, can_tx_payload, build_host_can_tx_request,
  heartbeat_payload, session_payload, build_host_control_session,
}

pub host_frame-frame :
    (t cmd : ℕ) (payload : List ℕ)
    → length payload ≤ 4096
    → host_frame t cmd payload ≡ frame 1 t 0 (cmd % 2 ^ 16) payload
unfolding host_frame frame frame_body
host_frame-frame t cmd payload fits =
    let size : length payload % 2 ^ 16 ≡ length payload = omega arith in
    rw (bit_and-mask 16 cmd, size)

-- The frame as it arrives: its record and what is left behind it.
abbrev pub Arrives : Parser → ℕ → ℕ → List ℕ → List ℕ → Type 0
Arrives p t cmd payload rest =
    (q : Parser) × (take_one p ≡ some (some (framed 1 t 0 (cmd % 2 ^ 16) payload), q))
    × (view q.window ≡ rest)

host_frame-Arrives :
    (p : Parser) (t cmd : ℕ) (payload rest : List ℕ)
    → IsBytes (view p.window)
    → t < 256
    → length payload ≤ 4096
    → IsBytes payload
    → view p.window ≡ host_frame t cmd payload ++ rest
    → Arrives p t cmd payload rest
host_frame-Arrives p t cmd payload rest bytes small fits ok shown =
    let (q, taken, left, counted, noted) =
      take_one_delivers p [] 1 t 0 (cmd % 2 ^ 16) payload rest bytes tt
        (record {
          version_byte = omega arith;
          type_byte = small;
          flags_byte = omega arith;
          seq_word = omega arith;
          fits = fits;
          payload_bytes = ok;
        })
        (shown ∙ ap (λ (ys : List ℕ). ys ++ rest) (host_frame-frame t cmd payload fits)) in
    (q, taken, left)

pub record IsCanFrame (f : ControlCanFrame) : Type 0 where
  pub bus_byte : f.bus < 256
  pub id_word : f.can_id < 2 ^ 32
  pub eight : length f.bytes ≡ 8
  pub all_bytes : IsBytes f.bytes

-- The payload of HOST_CAN_TX_REQUEST says what was asked for.
pub record Requests (payload : List ℕ) (cmd : ℕ) (f : ControlCanFrame) : Type 0 where
  pub size : length payload ≡ 19
  pub command_id : read_u32_le payload 0 ≡ cmd
  pub bus : byte payload 4 ≡ f.bus
  pub flags : byte payload 5 ≡ (if f.extended then 1 else 0) + (if f.rtr then 2 else 0)
  pub can_id : read_u32_le payload 6 ≡ f.can_id
  pub dlc : byte payload 10 ≡ min f.dlc 8
  pub bytes : drop 11 payload ≡ f.bytes

eight_bytes_lem : (p : List ℕ) → length p ≡ 8 → eight_bytes p ≡ p
unfolding eight_bytes
eight_bytes_lem [] h = absurd (omega arith)
eight_bytes_lem (a ∷ []) h = absurd (omega arith)
eight_bytes_lem (a ∷ (b ∷ [])) h = absurd (omega arith)
eight_bytes_lem (a ∷ (b ∷ (c ∷ []))) h = absurd (omega arith)
eight_bytes_lem (a ∷ (b ∷ (c ∷ (d ∷ [])))) h = absurd (omega arith)
eight_bytes_lem (a ∷ (b ∷ (c ∷ (d ∷ (e ∷ []))))) h = absurd (omega arith)
eight_bytes_lem (a ∷ (b ∷ (c ∷ (d ∷ (e ∷ (f ∷ [])))))) h = absurd (omega arith)
eight_bytes_lem (a ∷ (b ∷ (c ∷ (d ∷ (e ∷ (f ∷ (g ∷ []))))))) h = absurd (omega arith)
eight_bytes_lem (a ∷ (b ∷ (c ∷ (d ∷ (e ∷ (f ∷ (g ∷ (i ∷ [])))))))) h = refl
eight_bytes_lem (a ∷ (b ∷ (c ∷ (d ∷ (e ∷ (f ∷ (g ∷ (i ∷ (j ∷ r))))))))) h = absurd (omega arith)

module _ (cmd : ℕ) (f : ControlCanFrame) (ok : IsCanFrame f) where
  abbrev flag_byte : ℕ
  flag_byte = bit_or (if f.extended then 0x01 else 0x00) (if f.rtr then 0x02 else 0x00)

  abbrev plain : List ℕ
  plain =
      cmd % 256
      ∷ cmd / 2 ^ 8 % 256
      ∷ cmd / 2 ^ 16 % 256
      ∷ cmd / 2 ^ 24 % 256
      ∷ f.bus
      ∷ flag_byte
      ∷ f.can_id % 256
      ∷ f.can_id / 2 ^ 8 % 256
      ∷ f.can_id / 2 ^ 16 % 256
      ∷ f.can_id / 2 ^ 24 % 256
      ∷ min f.dlc 8
      ∷ f.bytes

  flag_sum :
      (x r : Bool)
      → bit_or (if x then 0x01 else 0x00) (if r then 0x02 else 0x00)
        ≡ (if x then 1 else 0) + (if r then 2 else 0)
  flag_sum true true = refl
  flag_sum true false = refl
  flag_sum false true = refl
  flag_sum false false = refl

  flag_small : (x r : Bool) → bit_or (if x then 0x01 else 0x00) (if r then 0x02 else 0x00) < 256
  flag_small x r = rw (flag_sum x r) (ground arith)

  can_tx_payload-plain : can_tx_payload cmd f ≡ plain
  unfolding can_tx_payload
  can_tx_payload-plain =
      rw (write_u32_le-bytes cmd, write_u32_le-bytes f.can_id, eight_bytes_lem f.bytes ok.eight)

  plain-IsBytes : IsBytes plain
  plain-IsBytes = (
    omega arith,
    (
      omega arith,
      (
        omega arith,
        (
          omega arith,
          (
            ok.bus_byte,
            (
              flag_small f.extended f.rtr,
              (
                omega arith,
                (omega arith, (omega arith, (omega arith, (omega arith, ok.all_bytes)))),
              ),
            ),
          ),
        ),
      ),
    ),
  )

  can_tx_payload-Requests : cmd < 2 ^ 32 → Requests (can_tx_payload cmd f) cmd f
  can_tx_payload-Requests small = rw can_tx_payload-plain (record {
    size = omega (arith, ok.eight);
    command_id = read_u32_le-word plain 0 cmd plain-IsBytes small refl refl refl refl;
    bus = refl;
    flags = flag_sum f.extended f.rtr;
    can_id = read_u32_le-word plain 6 f.can_id plain-IsBytes ok.id_word refl refl refl refl;
    dlc = refl;
    bytes = refl;
  })

-- A request that the encoder builds from a command id and a CAN frame (bus one byte, id and command
-- id 32 bits, eight data bytes) is returned by the parser as a version 1 record of type 10 with the
-- low half of the command id for its sequence number, the bytes behind it stay, and its payload of 19
-- bytes gives back the command id, bus, flags, CAN id, dlc (8 at most) and data.
pub host_can_tx_request-Arrives :
    (p : Parser) (cmd : ℕ) (f : ControlCanFrame) (rest : List ℕ)
    → IsBytes (view p.window)
    → cmd < 2 ^ 32
    → IsCanFrame f
    → view p.window ≡ build_host_can_tx_request cmd f ++ rest
    → Arrives p 10 cmd (can_tx_payload cmd f) rest × Requests (can_tx_payload cmd f) cmd f
unfolding build_host_can_tx_request
host_can_tx_request-Arrives p cmd f rest bytes small ok shown =
    let request : Requests (can_tx_payload cmd f) cmd f = can_tx_payload-Requests cmd f ok small in
    (
      host_frame-Arrives p 10 cmd (can_tx_payload cmd f) rest bytes (omega arith)
          (omega (arith, request.size))
          (rw (can_tx_payload-plain cmd f ok) (plain-IsBytes cmd f ok)) shown,
      request,
    )

-- HOST_HEARTBEAT: what the payload says, and zeros in all its other bytes.
pub record SaysHeartbeat (payload : List ℕ) (cmd host_ms : ℕ) : Type 0 where
  pub size : length payload ≡ 12
  pub command_id : read_u32_le payload 0 ≡ cmd
  pub host_mono_ms : read_u32_le payload 4 ≡ host_ms
  pub spare : drop 8 payload ≡ replicate 4 0

module _ (cmd host_ms : ℕ) where
  abbrev plain_heartbeat : List ℕ
  plain_heartbeat =
      cmd % 256
      ∷ cmd / 2 ^ 8 % 256
      ∷ cmd / 2 ^ 16 % 256
      ∷ cmd / 2 ^ 24 % 256
      ∷ host_ms % 256
      ∷ host_ms / 2 ^ 8 % 256
      ∷ host_ms / 2 ^ 16 % 256
      ∷ host_ms / 2 ^ 24 % 256
      ∷ replicate 4 0

  heartbeat_payload-plain : heartbeat_payload cmd host_ms ≡ plain_heartbeat
  unfolding heartbeat_payload
  heartbeat_payload-plain =
      rw (write_u32_le-bytes cmd, write_u32_le-bytes host_ms) (unfold write_u16_le in refl)

  plain_heartbeat-IsBytes : IsBytes plain_heartbeat
  plain_heartbeat-IsBytes = omega arith

  pub heartbeat_payload-SaysHeartbeat :
      cmd < 2 ^ 32 → host_ms < 2 ^ 32 → SaysHeartbeat (heartbeat_payload cmd host_ms) cmd host_ms
  heartbeat_payload-SaysHeartbeat small fits = rw heartbeat_payload-plain (record {
    size = refl;
    command_id =
        read_u32_le-word plain_heartbeat 0 cmd plain_heartbeat-IsBytes small refl refl refl refl;
    host_mono_ms =
        read_u32_le-word plain_heartbeat 4 host_ms plain_heartbeat-IsBytes fits refl refl refl refl;
    spare = refl;
  })

-- HOST_CONTROL_SESSION: what the payload says, and zeros in all its other bytes.
pub record SaysSession (payload : List ℕ) (cmd action bus lease : ℕ) : Type 0 where
  pub size : length payload ≡ 24
  pub command_id : read_u32_le payload 0 ≡ cmd
  pub action_byte : byte payload 4 ≡ action
  pub requested_bus : byte payload 5 ≡ bus
  pub flags : (byte payload 6 ≡ 0) × (byte payload 7 ≡ 0)
  pub lease_ms : read_u16_le payload 8 ≡ lease
  pub spare : drop 10 payload ≡ replicate 14 0

module _ (cmd action bus lease : ℕ) where
  abbrev plain_session : List ℕ
  plain_session =
      cmd % 256
      ∷ cmd / 2 ^ 8 % 256
      ∷ cmd / 2 ^ 16 % 256
      ∷ cmd / 2 ^ 24 % 256
      ∷ action
      ∷ bus
      ∷ 0
      ∷ 0
      ∷ lease % 256
      ∷ lease / 256 % 256
      ∷ replicate 14 0

  session_payload-plain : session_payload cmd action bus lease ≡ plain_session
  unfolding session_payload
  session_payload-plain =
      rw (write_u32_le-bytes cmd, write_u16_le-bytes lease)
        (unfold write_u16_le write_u32_le in refl)

  plain_session-IsBytes : action < 256 → bus < 256 → IsBytes plain_session
  plain_session-IsBytes ha hb = omega arith

  pub session_payload-SaysSession :
      cmd < 2 ^ 32
      → action < 256
      → bus < 256
      → lease < 2 ^ 16
      → SaysSession (session_payload cmd action bus lease) cmd action bus lease
  session_payload-SaysSession small ha hb hl = rw session_payload-plain (record {
    size = refl;
    command_id =
        read_u32_le-word plain_session 0 cmd (plain_session-IsBytes ha hb) small refl refl refl
          refl;
    action_byte = refl;
    requested_bus = refl;
    flags = (refl, refl);
    lease_ms = read_u16_le-word plain_session 8 lease hl refl refl;
    spare = refl;
  })

-- A session command (arm, disarm, renew) reaches the parser as a record of type 12 whose payload of
-- 24 bytes gives back the command id, the action, the requested bus and the lease, and has zeros in its
-- other 16 bytes.
pub host_control_session-Arrives :
    (p : Parser) (cmd action bus lease : ℕ) (rest : List ℕ)
    → IsBytes (view p.window)
    → cmd < 2 ^ 32
    → action < 256
    → bus < 256
    → lease < 2 ^ 16
    → view p.window ≡ build_host_control_session cmd action bus lease ++ rest
    → Arrives p 12 cmd (session_payload cmd action bus lease) rest
      × SaysSession (session_payload cmd action bus lease) cmd action bus lease
unfolding build_host_control_session
host_control_session-Arrives p cmd action bus lease rest bytes small ha hb hl shown =
    let says : SaysSession (session_payload cmd action bus lease) cmd action bus lease =
      session_payload-SaysSession cmd action bus lease small ha hb hl in
    (
      host_frame-Arrives p 12 cmd (session_payload cmd action bus lease) rest bytes (omega arith)
          (omega (arith, says.size))
          (rw (session_payload-plain cmd action bus lease)
            (plain_session-IsBytes cmd action bus lease ha hb))
          shown,
      says,
    )
