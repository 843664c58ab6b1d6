-- ===== src/Packet/Stream/Delivery.antt =====
-- The layout of a packet with a CAN frame, and takeOne of src/backend/PacketParser.cpp on a stream that
-- holds one.
use vsm_field_workstation.Prelude.{
  ℕ, ◌+◌, ◌-◌, ◌/◌, ◌%◌, ◌^◌, ◌≤◌, ◌<◌, ◌≡◌, refl, sym, ap, ◌∙◌, inl, inr, bit_and, bit_and-mask,
  Bool, true, false, not, Option, none, some, List, [], ◌∷◌, ◌++◌, append_assoc, arith, ◌==◌,
  ==_iff, length, take, drop, length-append, drop-append, take-append, get_or-drop, get_or-append,
  drop-drop, All-append, dec_lt,
}
use vsm_field_workstation.Wire.{IsBytes, byte, read_u32_le, write_u32_le}
use vsm_field_workstation.Wire.Laws.{write_u32_le-bytes, read_u32_le-word}
use vsm_field_workstation.Packet.Laws.{
  crc8_atm-lt, id_flags, id_flags-ext, id_flags-rtr, id_flags-id, bus_unmarked,
}
use vsm_field_workstation.Packet.{crc8_atm, is_plausible, extend_tus}
use vsm_field_workstation.Packet.Stream.{
  FrameRecord, PacketRecord, frame_fields, packet_fields, PacketParser, take_one,
}
use vsm_field_workstation.Packet.Stream.Outcome.{
  NonePlausible, Finds, PacketOutcome, packet_at, take_one-PacketOutcome,
}

plausible_of :
    (b d : List ℕ) (k : ℕ)
    → drop k b ≡ d
    → k + 20 ≤ length b
    → (crc8_atm (take 19 d) == byte d 19) ≡ true
    → bit_and (byte d 8) 0x0F ≤ 8
    → is_plausible b k ≡ true
unfolding is_plausible
plausible_of b d k e room crc dlc = rw e (ground (arith, room, crc, dlc))

-- The 19 bytes that the checksum covers: time, id and flags, dlc, data, bus, sequence number.
unfoldable pub packet_body : ℕ → ℕ → Bool → Bool → ℕ → List ℕ → ℕ → ℕ → List ℕ
packet_body t id ext rtr dlc payload bus seq =
    write_u32_le t ++ (write_u32_le (id_flags id ext rtr) ++ (dlc ∷ (payload ++ (bus ∷ seq ∷ []))))

unfoldable pub packet : ℕ → ℕ → Bool → Bool → ℕ → List ℕ → ℕ → ℕ → List ℕ
unfolding packet_body
packet t id ext rtr dlc payload bus seq =
    let body = packet_body t id ext rtr dlc payload bus seq in body ++ (crc8_atm body ∷ [])

pub record IsFrame (t id dlc : ℕ) (payload : List ℕ) (bus seq : ℕ) : Type 0 where
  pub time_word : t < 2 ^ 32
  pub id_bits : id < 2 ^ 29
  pub dlc_bounded : dlc ≤ 8
  pub eight : length payload ≡ 8
  pub payload_bytes : IsBytes payload
  pub bus_bits : bus < 4
  pub seq_byte : seq < 256

module _ (t id : ℕ) (ext rtr : Bool) (dlc : ℕ) (payload : List ℕ) (bus seq : ℕ)
    (ok : IsFrame t id dlc payload bus seq) (rest : List ℕ) where
  abbrev word : ℕ
  word = id_flags id ext rtr

  abbrev crc : ℕ
  crc = crc8_atm (packet_body t id ext rtr dlc payload bus seq)

  abbrev plain : List ℕ
  plain =
      t % 256
      ∷ t / 2 ^ 8 % 256
      ∷ t / 2 ^ 16 % 256
      ∷ t / 2 ^ 24 % 256
      ∷ word % 256
      ∷ word / 2 ^ 8 % 256
      ∷ word / 2 ^ 16 % 256
      ∷ word / 2 ^ 24 % 256
      ∷ dlc
      ∷ (payload ++ (bus ∷ seq ∷ []))

  body-plain : packet_body t id ext rtr dlc payload bus seq ≡ plain
  unfolding packet_body
  body-plain = rw (write_u32_le-bytes t, write_u32_le-bytes word)

  word_small : word < 2 ^ 31
  word_small = ground (arith, ok.id_bits)

  plain-IsBytes : IsBytes plain
  plain-IsBytes =
      let tail : IsBytes (payload ++ (bus ∷ seq ∷ [])) =
        All-append (λ b. b < 256) payload (bus ∷ seq ∷ []) ok.payload_bytes
          (omega (arith, ok.bus_bits, ok.seq_byte)) in
      (
        omega arith,
        (
          omega arith,
          (
            omega arith,
            (
              omega arith,
              (
                omega arith,
                (omega arith, (omega arith, (omega arith, (omega (arith, ok.dlc_bounded), tail)))),
              ),
            ),
          ),
        ),
      )

  length-plain : length plain ≡ 19
  length-plain = omega (arith, length-append payload (bus ∷ seq ∷ []), ok.eight)

  -- The packet, byte by byte, and what follows it.
  abbrev shown : List ℕ
  shown = plain ++ (crc ∷ [])

  packet-shown : packet t id ext rtr dlc payload bus seq ≡ shown
  unfolding packet
  packet-shown = ap (λ (xs : List ℕ). xs ++ (crc ∷ [])) body-plain

  length-shown : length shown ≡ 20
  length-shown = omega (arith, length-append plain (crc ∷ []), length-plain)

  shown-IsBytes : IsBytes shown
  shown-IsBytes =
      All-append (λ b. b < 256) plain (crc ∷ []) plain-IsBytes
        (omega (arith, crc8_atm-lt (packet_body t id ext rtr dlc payload bus seq)))

  -- Behind the nine bytes of the head stand the data, the bus, the sequence number and the checksum.
  tail_at : drop 17 shown ≡ bus ∷ seq ∷ crc ∷ []
  tail_at =
      ap (λ xs. drop 8 xs) (append_assoc payload (bus ∷ seq ∷ []) (crc ∷ []))
      ∙ drop-append payload (bus ∷ seq ∷ crc ∷ []) 8 (sym ok.eight)

  data_at : take 8 (drop 9 shown) ≡ payload
  data_at =
      ap (λ xs. take 8 xs) (append_assoc payload (bus ∷ seq ∷ []) (crc ∷ []))
      ∙ take-append payload (bus ∷ seq ∷ crc ∷ []) 8 (sym ok.eight)

  bus_at : byte shown 17 ≡ bus
  bus_at = sym (get_or-drop shown 17 0 0) ∙ ap (λ xs. byte xs 0) tail_at

  seq_at : byte shown 18 ≡ seq
  seq_at = sym (get_or-drop shown 17 1 0) ∙ ap (λ xs. byte xs 1) tail_at

  crc_at : byte shown 19 ≡ crc
  crc_at = sym (get_or-drop shown 17 2 0) ∙ ap (λ xs. byte xs 2) tail_at

  time_at : read_u32_le shown 0 ≡ t
  time_at = read_u32_le-word shown 0 t shown-IsBytes ok.time_word refl refl refl refl

  word_at : read_u32_le shown 4 ≡ word
  word_at =
      read_u32_le-word shown 4 word shown-IsBytes (omega (arith, word_small)) refl refl refl refl

  -- What the packet says.
  abbrev said : ℕ → FrameRecord
  said t_ext_us = record {
    t_ext_us = t_ext_us;
    can_id = id;
    ext = ext;
    rtr = rtr;
    dlc = dlc;
    bytes = payload;
    bus = bus;
    seq = seq;
    has_observed_gap = false;
    observed_gap_us = 0;
    raw20 = packet t id ext rtr dlc payload bus seq;
  }

  fields_at : (t_ext_us : ℕ) → frame_fields t_ext_us shown ≡ said t_ext_us
  unfolding frame_fields
  fields_at t_ext_us =
      let dlc_field : bit_and (byte shown 8) 0x0F ≡ dlc =
        omega (arith, bit_and-mask 4 dlc, ok.dlc_bounded) in
      let bus_field : bit_and (byte shown 17) 0x03 ≡ bus =
        ap (λ b. bit_and b 0x03) bus_at ∙ omega (arith, bit_and-mask 2 bus, ok.bus_bits) in
      cc (
        ap (λ w. bit_and w 0x1FFFFFFF) word_at ∙ id_flags-id id ext rtr ok.id_bits,
        ap (λ w. not (bit_and (w / 2 ^ 29) 1 == 0)) word_at ∙ id_flags-ext id ext rtr ok.id_bits,
        ap (λ w. not (bit_and (w / 2 ^ 30) 1 == 0)) word_at ∙ id_flags-rtr id ext rtr ok.id_bits,
        dlc_field,
        data_at,
        bus_field,
        seq_at,
        packet-shown,
      )

  packet_fields_at :
      (t_ext_us : ℕ) → packet_fields t_ext_us shown ≡ PacketRecord.frame (said t_ext_us)
  unfolding packet_fields
  packet_fields_at t_ext_us =
      let unmarked : bit_and (byte shown 17) 0x80 ≡ 0 =
        ap (λ b. bit_and b 0x80) bus_at ∙ bus_unmarked bus ok.bus_bits in
      rw unmarked (ap (λ f. PacketRecord.frame f) (fields_at t_ext_us))

  covered_at : (crc8_atm (take 19 (shown ++ rest)) == byte (shown ++ rest) 19) ≡ true
  covered_at =
      let covered : take 19 (shown ++ rest) ≡ plain =
        ap (λ xs. take 19 xs) (append_assoc plain (crc ∷ []) rest)
        ∙ take-append plain (crc ∷ rest) 19 (sym length-plain) in
      let sum : crc8_atm (take 19 (shown ++ rest)) ≡ crc =
        ap (λ xs. crc8_atm xs) (covered ∙ sym body-plain) in
      let last : byte (shown ++ rest) 19 ≡ crc =
        get_or-append shown rest 19 0 (omega (arith, length-shown)) ∙ crc_at in
      (==_iff (crc8_atm (take 19 (shown ++ rest))) (byte (shown ++ rest) 19)).1 (sum ∙ sym last)

  module _ (p : PacketParser) (junk : List ℕ) (near : length junk ≤ 512)
      (seen : p.buffer ≡ junk ++ (packet t id ext rtr dlc payload bus seq ++ rest))
      (clean : NonePlausible 0 (length junk) p.buffer) where
    here : drop (length junk) p.buffer ≡ packet t id ext rtr dlc payload bus seq ++ rest
    here =
        ap (λ xs. drop (length junk) xs) seen
        ∙ drop-append junk (packet t id ext rtr dlc payload bus seq ++ rest) (length junk) refl

    size : length p.buffer ≡ length junk + (20 + length rest)
    size = omega (
      arith,
      ap (λ xs. length xs) seen,
      length-append junk (packet t id ext rtr dlc payload bus seq ++ rest),
      length-append (packet t id ext rtr dlc payload bus seq) rest,
      ap (λ xs. length xs) packet-shown,
      length-shown,
    )

    plausible_here : is_plausible p.buffer (length junk) ≡ true
    plausible_here =
        plausible_of p.buffer (shown ++ rest) (length junk)
          (here ∙ ap (λ xs. xs ++ rest) packet-shown) (omega (arith, size)) covered_at
          (omega (arith, bit_and-mask 4 dlc, ok.dlc_bounded))

    packet_here : packet_at (length junk) p.buffer ≡ shown
    packet_here =
        ap (λ xs. take 20 xs) (here ∙ ap (λ xs. xs ++ rest) packet-shown)
        ∙ take-append shown rest 20 (sym length-shown)

    -- The first plausible offset is that of the packet.
    first : (k : ℕ) → is_plausible p.buffer k ≡ true → NonePlausible 0 k p.buffer → k ≡ length junk
    first k yes_ before = elim (dec_lt k (length junk)) [
      | yes low ↦ absurd (ground (arith, clean k (omega arith) low, yes_))
      | no high ↦ elim (dec_lt (length junk) k) [
        | yes over ↦
            absurd (ground (arith, before (length junk) (omega arith) over, plausible_here))
        | no under ↦ omega arith
      ]
    ]

    abbrev pub Delivered : PacketParser → Type 0
    Delivered q =
        (take_one p ≡ some (some (PacketRecord.frame (said (extend_tus t p.time).0)), q))
        × ((q.buffer ≡ rest) × (q.time ≡ (extend_tus t p.time).1))

    finds :
        (k : ℕ) (q : PacketParser) (r : PacketRecord)
        → take_one p ≡ some (some r, q)
        → Finds k p q r
        → Delivered q
    finds k q r e f =
        let at_junk = first k f.plausible f.before in
        let packet_k : packet_at k p.buffer ≡ shown =
          ap (λ n. packet_at n p.buffer) at_junk ∙ packet_here in
        let time_k : read_u32_le (packet_at k p.buffer) 0 ≡ t =
          ap (λ xs. read_u32_le xs 0) packet_k ∙ time_at in
        let says : r ≡ PacketRecord.frame (said (extend_tus t p.time).0) =
          f.decoded
          ∙ ap (λ w. packet_fields (extend_tus w p.time).0 (packet_at k p.buffer)) time_k
          ∙ ap (λ xs. packet_fields (extend_tus t p.time).0 xs) packet_k
          ∙ packet_fields_at (extend_tus t p.time).0 in
        (
          e ∙ ap (λ x. some (some x, q)) says,
          (
            f.left
                ∙ ap (λ n. drop (n + 20) p.buffer) at_junk
                ∙ sym (drop-drop 20 (length junk) p.buffer)
                ∙ ap (λ xs. drop 20 xs) (here ∙ ap (λ xs. xs ++ rest) packet-shown)
                ∙ drop-append shown rest 20 (sym length-shown),
            f.time ∙ ap (λ w. (extend_tus w p.time).1) time_k,
          ),
        )

    delivered :
        (o : Option PacketRecord) (q : PacketParser)
        → take_one p ≡ some (o, q)
        → PacketOutcome p o q
        → Delivered q
    delivered none q e w = elim w.kept [
      | inl (short, same) ↦ absurd (omega (arith, size))
      | inr (enough, (clear, same)) ↦
          absurd (
            ground (arith, clear (length junk) (omega arith) (omega (arith, size)), plausible_here))
    ]
    delivered (some r) q e (k, f) = finds k q r e f

    -- If at most 512 bytes, at none of which a packet seems to begin, stand before a packet with a CAN
    -- frame, the next call returns the frame with the fields of the packet and its time extended, and
    -- leaves exactly what stands behind the packet.
    pub take_one_delivers_packet : (q : PacketParser) × Delivered q
    take_one_delivers_packet =
        let (o, q, e, outcome) = take_one-PacketOutcome p in (q, delivered o q e outcome)

-- If no packet seems to begin at the first 513 offsets, a call on a buffer of 532 bytes or more returns
-- nothing and keeps the last 19 bytes alone, whatever packets stand beyond these offsets.
pub take_one_skips_far :
    (p : PacketParser)
    → 532 ≤ length p.buffer
    → NonePlausible 0 513 p.buffer
    → (q : PacketParser) × (take_one p ≡ some (none, q))
      × (q.buffer ≡ drop (length p.buffer - 19) p.buffer)
take_one_skips_far p long clear = out (take_one-PacketOutcome p)
  where
    out :
        ((o : Option PacketRecord) × (q : PacketParser) × (take_one p ≡ some (o, q))
          × PacketOutcome p o q)
        → (q : PacketParser) × (take_one p ≡ some (none, q))
          × (q.buffer ≡ drop (length p.buffer - 19) p.buffer)
    out (none, q, e, w) = elim w.kept [
      | inl (short, same) ↦ absurd (omega arith)
      | inr (enough, (clear_too, same)) ↦ (q, e, same)
    ]
    out (some r, q, e, (k, f)) =
        absurd (ground (arith, clear k (omega arith) (omega (arith, f.near)), f.plausible))
