-- ===== src/Packet/Stream.antt =====
-- The stream of legacy packets: the records of src/backend/CanTypes.h, and reset, append, decode20 and
-- takeOne of src/backend/PacketParser.h and PacketParser.cpp. rdU32Le is read_u32_le. decode20 extends
-- the time in the way of extendTus. The buffer stays below 2 ^ 31 bytes.
pub mod Outcome
pub mod Delivery
use vsm_field_workstation.Prelude.{
  ℕ, zero, suc, ◌+◌, ◌-◌, ◌*◌, ◌/◌, ◌%◌, ◌^◌, min, bit_and, bit_or, Bool, true, false, not, Option,
  none, some, List, [], ◌∷◌, ◌++◌, if◌then◌else◌, ltb, leb, ◌==◌, length, take, drop,
}
use vsm_field_workstation.Wire.{byte, read_u32_le}
use vsm_field_workstation.Packet.{TimeState, crc8_atm, is_plausible, extend_tus}

pub record FrameRecord : Type 0 where
  pub t_ext_us : ℕ
  pub can_id : ℕ
  pub ext : Bool
  pub rtr : Bool
  pub dlc : ℕ
  pub bytes : List ℕ
  pub bus : ℕ
  pub seq : ℕ
  pub has_observed_gap : Bool
  pub observed_gap_us : ℕ
  pub raw20 : List ℕ

pub record StatsRecord : Type 0 where
  pub t_ext_us : ℕ
  pub dropped_total : ℕ
  pub fifo_overflow_total : ℕ
  pub rx_fps_1s : ℕ
  pub tx_fps_1s : ℕ
  pub err_passive_1s : ℕ
  pub bus_off_1s : ℕ
  pub seq : ℕ
  pub raw20 : List ℕ

-- PacketRecord: `isStats` says which of the two members is set.
pub data PacketRecord : Type 0 where
  frame : FrameRecord → PacketRecord
  stats : StatsRecord → PacketRecord

unfoldable pub frame_fields : ℕ → List ℕ → FrameRecord
frame_fields t_ext_us p = record {
  t_ext_us = t_ext_us;
  can_id = bit_and (read_u32_le p 4) 0x1FFFFFFF;
  ext = not (bit_and (read_u32_le p 4 / 2 ^ 29) 1 == 0);
  rtr = not (bit_and (read_u32_le p 4 / 2 ^ 30) 1 == 0);
  dlc = bit_and (byte p 8) 0x0F;
  bytes = take 8 (drop 9 p);
  bus = bit_and (byte p 17) 0x03;
  seq = byte p 18;
  has_observed_gap = false;
  observed_gap_us = 0;
  raw20 = p;
}

unfoldable pub stats_fields : ℕ → List ℕ → StatsRecord
stats_fields t_ext_us p = record {
  t_ext_us = t_ext_us;
  dropped_total = read_u32_le p 4;
  fifo_overflow_total = read_u32_le p 8;
  rx_fps_1s = bit_or (byte p 12) (byte p 13 * 2 ^ 8);
  tx_fps_1s = bit_or (byte p 14) (byte p 15 * 2 ^ 8);
  err_passive_1s = byte p 16;
  bus_off_1s = bit_and (byte p 17) 0x7F;
  seq = byte p 18;
  raw20 = p;
}

unfoldable pub packet_fields : ℕ → List ℕ → PacketRecord
unfolding frame_fields stats_fields
packet_fields t_ext_us p =
    if bit_and (byte p 17) 0x80 == 0
    then PacketRecord.frame (frame_fields t_ext_us p)
    else PacketRecord.stats (stats_fields t_ext_us p)

unfoldable pub decode20 : List ℕ → TimeState → Option PacketRecord × TimeState
unfolding packet_fields
decode20 rec20 s =
    let (t_ext_us, after) = extend_tus (read_u32_le rec20 0) s in
    if not (length rec20 == 20)
    then (none, s)
    else if not (crc8_atm (take 19 rec20) == byte rec20 19)
    then (none, s)
    else (some (packet_fields t_ext_us rec20), after)

pub record PacketParser : Type 0 where
  pub buffer : List ℕ
  pub time : TimeState

unfoldable pub reset : PacketParser
reset = record {
  buffer = [];
  time = record { have_last_tus = false; last_tus = 0; wrap_count = 0 };
}

unfoldable pub append : List ℕ → PacketParser → PacketParser
append chunk p = record p { buffer = p.buffer ++ chunk }

-- The first plausible offset among `left` ones from `i` on.
unfoldable pub scan : ℕ → ℕ → List ℕ → Option ℕ
scan zero i buffer = none
scan (suc left) i buffer =
    let further = scan left (i + 1) buffer in if is_plausible buffer i then some i else further

-- A round of the loop returns a record or nothing, or goes on.
pub data Round : Type 0 where
  returns : Option PacketRecord → PacketParser → Round
  continues : PacketParser → Round

unfoldable pub take_packet : PacketParser → Round
take_packet p =
    let (decoded, time) = decode20 (take 20 p.buffer) p.time in
    let after : PacketParser = record { buffer = drop 20 p.buffer; time = time } in
    elim decoded [ none ↦ continues after | some record_ ↦ returns (some record_) after ]

unfoldable pub resume_at : PacketParser → Option ℕ → Round
unfolding take_packet
resume_at p none = returns none (record p { buffer = drop (length p.buffer - 19) p.buffer })
resume_at p (some found) =
    let moved : PacketParser = record p { buffer = drop found p.buffer } in
    if ltb (length moved.buffer) 20 then returns none moved else take_packet moved

unfoldable pub take_round : PacketParser → Round
unfolding scan resume_at take_packet
take_round p =
    if ltb (length p.buffer) 20
    then returns none p
    else if not (is_plausible p.buffer 0)
    then resume_at p (scan (min (length p.buffer - 20) 512) 1 p.buffer)
    else take_packet p

unfoldable pub take_loop : ℕ → PacketParser → Option (Option PacketRecord × PacketParser)
unfolding take_round
take_loop zero p = none
take_loop (suc rounds) p = elim (take_round p) [
  | returns o q ↦ some (o, q)
  | continues q ↦ take_loop rounds q
]

-- A packet takes 20 bytes, so the loop has fewer rounds than bytes.
unfoldable pub take_one : PacketParser → Option (Option PacketRecord × PacketParser)
unfolding take_loop
take_one p = take_loop (suc (length p.buffer)) p
