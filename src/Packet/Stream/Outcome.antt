-- ===== src/Packet/Stream/Outcome.antt =====
-- What takeOne of src/backend/PacketParser.cpp answers.
use vsm_field_workstation.Prelude.{
  ℕ, zero, suc, ◌+◌, ◌-◌, ◌≤◌, ◌<◌, ◌≡◌, refl, sym, ap, ◌∙◌, ◌⊎◌, inl, inr, min, true, false,
  Bool-cases, Option, none, some, List, arith, ltb, ◌==◌, length, take, drop, length-take,
  length-drop, take-append-drop, take-append_le, get_or-append, drop-drop, dec_lt,
}
use vsm_field_workstation.Wire.{byte, read_u32_le}
use vsm_field_workstation.Packet.{TimeState, crc8_atm, is_plausible, extend_tus}
use vsm_field_workstation.Packet.Stream.{
  PacketRecord, packet_fields, decode20, PacketParser, scan, Round, returns, continues, take_packet,
  resume_at, take_round, take_loop, take_one,
}

-- The offsets from `i` to before `k` are those of no packet.
abbrev pub NonePlausible : ℕ → ℕ → List ℕ → Type 0
NonePlausible i k b = (j : ℕ) → i ≤ j → j < k → is_plausible b j ≡ false

abbrev ScanSpec : ℕ → ℕ → List ℕ → Option ℕ → Type 0
ScanSpec i k b none = NonePlausible i k b
ScanSpec i k b (some found) =
    (i ≤ found) × (found < k) × (is_plausible b found ≡ true) × NonePlausible i found b

-- One more offset before those that are known.
NonePlausible-cons :
    (i k : ℕ) (b : List ℕ)
    → is_plausible b i ≡ false
    → NonePlausible (i + 1) k b
    → NonePlausible i k b
NonePlausible-cons i k b e h j low high = elim (dec_lt i j) [
  | yes later ↦ h j (omega arith) high
  | no same ↦ let here : j ≡ i = omega arith in rw here e
]

scan-ScanSpec : (left i : ℕ) (b : List ℕ) → ScanSpec i (i + left) b (scan left i b)
unfolding scan
scan-ScanSpec zero i b = λ j low high. absurd (omega arith)
scan-ScanSpec (suc left) i b = elim (Bool-cases (is_plausible b i)) [
  | inl e ↦ rw e (omega arith, omega arith, e, λ j low high. absurd (omega arith))
  | inr e ↦ rw e (further (scan left (i + 1) b) e (scan-ScanSpec left (i + 1) b))
]
  where
    further :
        (o : Option ℕ)
        → is_plausible b i ≡ false
        → ScanSpec (i + 1) (i + 1 + left) b o
        → ScanSpec i (i + suc left) b o
    further none e h = NonePlausible-cons i (i + suc left) b e (λ j low high. h j low (omega arith))
    further (some found) e (low, high, ok, before) =
        (omega arith, omega arith, ok, NonePlausible-cons i found b e before)

-- What a plausible offset promises.
record Plausible (b : List ℕ) (k : ℕ) : Type 0 where
  room : k + 20 ≤ length b
  crc : (crc8_atm (take 19 (drop k b)) == byte (drop k b) 19) ≡ true

is_plausible-Plausible : (b : List ℕ) (k : ℕ) → is_plausible b k ≡ true → Plausible b k
unfolding is_plausible
is_plausible-Plausible b k h = record { room = ground arith; crc = ground arith }

-- The packet that stands at offset k, at the time state s.
abbrev pub packet_at : ℕ → List ℕ → List ℕ
packet_at k b = take 20 (drop k b)

abbrev pub decoded_at : ℕ → List ℕ → TimeState → PacketRecord
decoded_at k b s = packet_fields (extend_tus (read_u32_le (packet_at k b) 0) s).0 (packet_at k b)

decode20_packet :
    (d : List ℕ) (s : TimeState)
    → 20 ≤ length d
    → (crc8_atm (take 19 d) == byte d 19) ≡ true
    → decode20 (take 20 d) s ≡ (
      some (packet_fields (extend_tus (read_u32_le (take 20 d) 0) s).0 (take 20 d)),
      (extend_tus (read_u32_le (take 20 d) 0) s).1,
    )
unfolding decode20
decode20_packet d s room crc =
    let whole = take-append-drop 20 d in
    let size : length (take 20 d) ≡ 20 = ground (arith, length-take 20 d) in
    let covered : take 19 (take 20 d) ≡ take 19 d =
      sym (take-append_le (take 20 d) (drop 20 d) 19 (omega (arith, size)))
      ∙ ap (λ xs. take 19 xs) whole in
    let last : byte (take 20 d) 19 ≡ byte d 19 =
      sym (get_or-append (take 20 d) (drop 20 d) 19 0 (omega (arith, size)))
      ∙ ap (λ xs. byte xs 19) whole in
    rw (size, covered, last, crc)

-- Nothing was found: the bytes are kept if they are too few for a packet; else no offset up to the
-- 512th is plausible, and the last 19 bytes are kept.
pub record Waits (p q : PacketParser) : Type 0 where
  pub time : q.time ≡ p.time
  pub kept :
      ((length p.buffer < 20) × (q.buffer ≡ p.buffer))
      ⊎ ((20 ≤ length p.buffer)
          × (NonePlausible 0 (suc (min (length p.buffer - 20) 512)) p.buffer
              × (q.buffer ≡ drop (length p.buffer - 19) p.buffer)))

-- A packet was found, at the first plausible offset.
pub record Finds (k : ℕ) (p q : PacketParser) (r : PacketRecord) : Type 0 where
  pub near : k ≤ 512
  pub room : k + 20 ≤ length p.buffer
  pub before : NonePlausible 0 k p.buffer
  pub plausible : is_plausible p.buffer k ≡ true
  pub decoded : r ≡ decoded_at k p.buffer p.time
  pub time : q.time ≡ (extend_tus (read_u32_le (packet_at k p.buffer) 0) p.time).1
  pub left : q.buffer ≡ drop (k + 20) p.buffer

abbrev pub PacketOutcome : PacketParser → Option PacketRecord → PacketParser → Type 0
PacketOutcome p none q = Waits p q
PacketOutcome p (some r) q = (k : ℕ) × Finds k p q r

abbrev Ends : PacketParser → Round → Type 0
Ends p (returns o q) = PacketOutcome p o q
Ends p (continues q) = ⊥

found-Ends :
    (k : ℕ) (p : PacketParser)
    → k ≤ 512
    → NonePlausible 0 k p.buffer
    → is_plausible p.buffer k ≡ true
    → Ends p (take_packet (record p { buffer = drop k p.buffer }))
unfolding take_packet
found-Ends k p near before ok =
    let at_k = is_plausible-Plausible p.buffer k ok in
    let room : 20 ≤ length (drop k p.buffer) = ground (arith, at_k.room, length-drop k p.buffer) in
    let result = decode20_packet (drop k p.buffer) p.time room at_k.crc in
    rw (result, take_packet)
      ((
        k,
        record {
          near = near;
          room = at_k.room;
          before = before;
          plausible = ok;
          decoded = refl;
          time = ap (λ x. x.1) result;
          left = drop-drop 20 k p.buffer;
        },
      ))

scanned-Ends :
    (o : Option ℕ) (p : PacketParser)
    → 20 ≤ length p.buffer
    → is_plausible p.buffer 0 ≡ false
    → ScanSpec 1 (1 + min (length p.buffer - 20) 512) p.buffer o
    → Ends p (resume_at p o)
unfolding resume_at
scanned-Ends none p room e h = record {
  time = refl;
  kept = inr (
    room,
    (
      NonePlausible-cons 0 (suc (min (length p.buffer - 20) 512)) p.buffer e
          (λ j low high. h j low (omega arith)),
      refl,
    ),
  );
}
scanned-Ends (some k) p room e (low, high, ok, before) =
    let at_k = is_plausible-Plausible p.buffer k ok in
    let enough : ltb (length (drop k p.buffer)) 20 ≡ false =
      ground (arith, at_k.room, length-drop k p.buffer) in
    rw enough (found-Ends k p (omega arith) (NonePlausible-cons 0 k p.buffer e before) ok)

take_round-Ends : (p : PacketParser) → Ends p (take_round p)
unfolding take_round
take_round-Ends p = elim (Bool-cases (ltb (length p.buffer) 20)) [
  | inl short ↦ rw short record { time = refl; kept = inl (ground arith, refl) }
  | inr enough ↦ elim (Bool-cases (is_plausible p.buffer 0)) [
    | inl e ↦ rw enough (rw e (found-Ends 0 p (omega arith) (λ j low high. absurd (omega arith)) e))
    | inr e ↦ rw enough (
        rw e (
          scanned-Ends (scan (min (length p.buffer - 20) 512) 1 p.buffer) p (ground arith) e
            (scan-ScanSpec (min (length p.buffer - 20) 512) 1 p.buffer)))
  ]
]

-- takeOne returns on every buffer. If it returns nothing, the time state is unchanged, and either the
-- buffer has fewer than 20 bytes and is kept as it is, or no packet seems to begin at any offset that
-- leaves room for one, up to the 512th, and exactly the last 19 bytes are kept. If it returns a record,
-- that is the decoding, with its time extended, of the 20 bytes at the first offset where a packet
-- seems to begin, which is at most 512, and what stands behind them is left.
pub take_one-PacketOutcome :
    (p : PacketParser)
    → (o : Option PacketRecord) × (q : PacketParser) × (take_one p ≡ some (o, q))
      × PacketOutcome p o q
unfolding take_one take_loop
take_one-PacketOutcome p = out (take_round p) (take_round-Ends p)
  where
    out :
        (r : Round)
        → Ends p r
        → (o : Option PacketRecord) × (q : PacketParser) × ((elim r
              as (λ _. Option (Option PacketRecord × PacketParser)) [
                | returns o q ↦ some (o, q)
                | continues q ↦ take_loop (length p.buffer) q
              ])
            ≡ some (o, q))
          × PacketOutcome p o q
    out (returns o q) h = (o, q, refl, h)
    out (continues q) h = absurd h
