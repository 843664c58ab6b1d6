-- ===== src/Packet/Tests.antt =====
-- Examples of the extension of the time and of the stream of packets.
use vsm_field_workstation.Prelude.{
  ℕ, zero, suc, ◌+◌, ◌-◌, ◌%◌, ◌^◌, ◌<◌, ◌≡◌, refl, ◌∙◌, true, false, Option, none, some, List, [],
  ◌∷◌, ◌++◌, arith, length, drop, replicate, get_or, get_or-drop, length-replicate,
}
use vsm_field_workstation.Packet.{
  TimeState, crc8_bit, crc8_bits, crc8_loop, crc8_atm, is_plausible, extend_tus,
}
use vsm_field_workstation.Packet.Stream.{PacketRecord, PacketParser, take_one}
use vsm_field_workstation.Packet.Stream.Outcome.{
  NonePlausible, PacketOutcome, take_one-PacketOutcome,
}
use vsm_field_workstation.Packet.Stream.Delivery.{
  packet_body, packet, IsFrame, Delivered, take_one_delivers_packet, take_one_skips_far,
}
use vsm_field_workstation.Wire.{write_u32_le}
use vsm_field_workstation.Packet.Clock.{Knows, extend_tus-Knows}

-- Ten microseconds before the 32-bit time wraps.
abbrev late : TimeState
late = record { have_last_tus = true; last_tus = 4294967286; wrap_count = 0 }

late-Knows : Knows 4294967286 late
late-Knows = record { seen = refl; last = refl; wraps = omega arith }

extend_tus-Knows_example :
    ((extend_tus (4294967300 % 2 ^ 32) late).0 ≡ 4294967300)
    × Knows 4294967300 (extend_tus (4294967300 % 2 ^ 32) late).1
extend_tus-Knows_example =
    extend_tus-Knows 4294967286 4294967300 late late-Knows (omega arith) (omega arith) (omega arith)

-- The id 0x510 on bus 1 with two data bytes at 1000 us, and the first byte of what follows.
abbrev stream : List ℕ
stream =
    232 ∷ 3 ∷ 0 ∷ 0 ∷ 16 ∷ 5 ∷ 0 ∷ 0 ∷ 2 ∷ 7 ∷ 9 ∷ 0 ∷ 0 ∷ 0 ∷ 0 ∷ 0 ∷ 0 ∷ 1 ∷ 5 ∷ 201 ∷ 33 ∷ []

abbrev data8 : List ℕ
data8 = 7 ∷ 9 ∷ 0 ∷ 0 ∷ 0 ∷ 0 ∷ 0 ∷ 0 ∷ []

abbrev listening : PacketParser
listening = record { buffer = stream; time = late }

take_one-PacketOutcome_example :
    (o : Option PacketRecord) × (q : PacketParser) × (take_one listening ≡ some (o, q))
    × PacketOutcome listening o q
take_one-PacketOutcome_example = take_one-PacketOutcome listening

data8-IsFrame : IsFrame 1000 1296 2 data8 1 5
data8-IsFrame = record {
  time_word = omega arith;
  id_bits = omega arith;
  dlc_bounded = omega arith;
  eight = refl;
  payload_bytes = omega arith;
  bus_bits = omega arith;
  seq_byte = omega arith;
}

stream-shown : listening.buffer ≡ [] ++ (packet 1000 1296 false false 2 data8 1 5 ++ (33 ∷ []))
unfolding packet packet_body write_u32_le crc8_atm crc8_loop crc8_bits crc8_bit
stream-shown = refl

take_one_delivers_packet_example :
    (q : PacketParser) × Delivered 1000 1296 false false 2 data8 1 5 data8-IsFrame
      (33 ∷ [])
      listening
      []
      (omega arith)
      stream-shown
      (λ j low high. absurd (omega arith))
      q
take_one_delivers_packet_example =
    take_one_delivers_packet 1000 1296 false false 2 data8 1 5 data8-IsFrame (33 ∷ []) listening []
      (omega arith) stream-shown (λ j low high. absurd (omega arith))

-- A long run of one byte.
get_or-replicate : (n i b d : ℕ) → i < n → get_or (replicate n b) i d ≡ b
get_or-replicate zero i b d h = absurd (omega arith)
get_or-replicate (suc n) zero b d h = refl
get_or-replicate (suc n) (suc i) b d h = get_or-replicate n i b d (omega arith)

-- A length code of 9 is none.
nines_clear : (n : ℕ) → NonePlausible 0 n (replicate (n + 19) 9)
unfolding is_plausible
nines_clear n j low high =
    let at_8 : get_or (drop j (replicate (n + 19) 9)) 8 0 ≡ 9 =
      get_or-drop (replicate (n + 19) 9) j 8 0
      ∙ get_or-replicate (n + 19) (j + 8) 9 0 (omega arith) in
    let at_17 : get_or (drop j (replicate (n + 19) 9)) 17 0 ≡ 9 =
      get_or-drop (replicate (n + 19) 9) j 17 0
      ∙ get_or-replicate (n + 19) (j + 17) 9 0 (omega arith) in
    ground (arith, at_8, at_17)

abbrev nines : PacketParser
nines = record { buffer = replicate 532 9; time = late }

take_one_skips_far_example :
    (q : PacketParser) × (take_one nines ≡ some (none, q))
    × (q.buffer ≡ drop (length nines.buffer - 19) nines.buffer)
take_one_skips_far_example =
    take_one_skips_far nines (omega (arith, length-replicate {A = ℕ} 532 9)) (nines_clear 513)
