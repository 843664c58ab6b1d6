-- ===== src/Ingress/Legacy/Tests.antt =====
-- Examples of the ingress of legacy packets.
use vsm_field_workstation.Prelude.{ℕ, ◌≡◌, true, none, some, List, [], ◌∷◌, ◌++◌, length, ◌*◌}
use vsm_field_workstation.Packet.Stream.{PacketRecord}
use vsm_field_workstation.Packet.Stream
use vsm_field_workstation.Ingress.Legacy.{RecorderOps, LegacyResult, LegacyIngressRuntime, ingest}
use vsm_field_workstation.Ingress.Legacy.Drain.{Delivers, ingest-legacy-Delivers}

-- A recorder that keeps the packets in memory.
abbrev recorder_in_memory : RecorderOps (List (List ℕ))
recorder_in_memory = record {
  is_active = λ r. true;
  start = λ bin. λ meta. λ rules. λ source. λ r. ((true, ""), []);
  append20 = λ raw. λ r. r ++ (raw ∷ []);
  flush_pending = λ force. λ r. r;
  stop = λ r. r;
  current_path = λ r. "capture.bin";
  last_error = λ r. "";
  bytes_written = λ r. 20 * length r;
  frame_count = λ r. length r;
}

-- The id 0x510 on bus 1 with two data bytes at 1000 us.
abbrev packet_bytes : List ℕ
packet_bytes =
    232 ∷ 3 ∷ 0 ∷ 0 ∷ 16 ∷ 5 ∷ 0 ∷ 0 ∷ 2 ∷ 7 ∷ 9 ∷ 0 ∷ 0 ∷ 0 ∷ 0 ∷ 0 ∷ 0 ∷ 1 ∷ 5 ∷ 201 ∷ []

abbrev recording : LegacyIngressRuntime recorder_in_memory
recording = record {
  parser = vsm_field_workstation.Packet.Stream.reset;
  recorder = [];
  log_progress_timer = none;
  last_reported_frame_count = 0;
}

ingest-legacy-Delivers_example :
    (rs : List PacketRecord) × (result : LegacyResult) × (t2 : LegacyIngressRuntime
      recorder_in_memory)
    × (ingest recorder_in_memory 5 (17 ∷ packet_bytes) recording ≡ some (result, t2))
    × Delivers recorder_in_memory recording (17 ∷ packet_bytes) rs result t2
ingest-legacy-Delivers_example =
    ingest-legacy-Delivers recorder_in_memory 5 17 packet_bytes recording
