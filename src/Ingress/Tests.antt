-- ===== src/Ingress/Tests.antt =====
-- Examples of the ingress and of the projection.
use vsm_field_workstation.Prelude.{
  ℕ, suc, ◌≡◌, refl, ap, ◌∙◌, true, false, Bool-cases, inl, inr, Option, none, some, List, [], ◌∷◌,
  ◌++◌, arith, leb, length, if◌then◌else◌,
}
use vsm_field_workstation.Prelude.Int.{pos}
use vsm_field_workstation.Foreign.Samples.{plain_text}
use vsm_field_workstation.Typed.{TypedRecord}
use vsm_field_workstation.Typed.RecordType
use vsm_field_workstation.Typed.Decode.{record_mono_us}
use vsm_field_workstation.Typed.Parser.{Parser}
use vsm_field_workstation.Typed.Parser
use vsm_field_workstation.Packet.Stream.{FrameRecord}
use vsm_field_workstation.Ingress.Storage.{StorageOps}
use vsm_field_workstation.Ingress.Typed.{IngestResult, TypedIngressRuntime, ingest}
use vsm_field_workstation.Ingress.Typed.Drain.{Delivers, ingest-Delivers}
use vsm_field_workstation.Ingress.Projection.{LiveProjectionRuntime, new_projection}
use vsm_field_workstation.Ingress.Projection.Handed.{nothing, Handed}
use vsm_field_workstation.Ingress.Projection
use vsm_field_workstation.Ingress.Projection.Conservation.{
  Accounts, after, handed_over, after-new_projection-Accounts,
}
use vsm_field_workstation.Ingress.Projection.Critical.{urgent, ingest-critical}

-- A storage that keeps the records in memory.
abbrev in_memory : StorageOps (List TypedRecord) Unit
in_memory = record {
  is_active = λ s. true;
  start_typed_session = λ dir. λ meta. λ s. ((true, ""), []);
  append_typed_record = λ r. λ s. ((true, ""), s ++ (r ∷ []));
  finalize_typed_session = λ s. ((true, ""), s);
  session_dir = λ s. "capture";
  bytes_written = λ s. 0;
  record_count = λ s. length s;
}

abbrev opened : TypedIngressRuntime in_memory plain_text
opened = record {
  parser = vsm_field_workstation.Typed.Parser.reset;
  storage = [];
  status_timer = none;
  storage_progress_timer = none;
  last_reported_storage_record_count = 0;
  bytes_since_open = 0;
  capability_seen_since_open = false;
  status_min_interval_ms = 100;
}

-- A byte of noise, a frame of type 2 with the payload 9, and the first byte of what follows.
abbrev chunk : List ℕ
chunk = 165 ∷ 90 ∷ 1 ∷ 2 ∷ 0 ∷ 5 ∷ 0 ∷ 1 ∷ 0 ∷ 9 ∷ 64 ∷ 147 ∷ 33 ∷ []

ingest-Delivers_example :
    (rs : List TypedRecord) × (result : IngestResult) × (t2 : TypedIngressRuntime in_memory
      plain_text)
    × (ingest in_memory plain_text 5 (17 ∷ chunk) (pos 20) opened ≡ some (result, t2))
    × Delivers in_memory plain_text opened (17 ∷ chunk) rs result t2
unfolding Parser.reset
ingest-Delivers_example =
    ingest-Delivers in_memory plain_text 5 17 chunk (pos 20) opened (omega arith) (omega arith)

-- Insertion sort, by a key.
module _ {A : Type 0} (key : A → ℕ) where
  insert_by : A → List A → List A
  insert_by x [] = x ∷ []
  insert_by x (y ∷ ys) =
      let later = insert_by x ys in if leb (key x) (key y) then x ∷ y ∷ ys else y ∷ later

  sort_by : List A → List A
  sort_by [] = []
  sort_by (x ∷ xs) = insert_by x (sort_by xs)

  length-insert_by : (x : A) (ys : List A) → length (insert_by x ys) ≡ suc (length ys)
  unfolding insert_by
  length-insert_by x [] = refl
  length-insert_by x (y ∷ ys) = elim (Bool-cases (leb (key x) (key y))) [
    | inl e ↦ rw e refl
    | inr e ↦ rw e (ap suc (length-insert_by x ys))
  ]

  length-sort_by : (xs : List A) → length (sort_by xs) ≡ length xs
  unfolding sort_by
  length-sort_by [] = refl
  length-sort_by (x ∷ xs) = length-insert_by x (sort_by xs) ∙ ap suc (length-sort_by xs)

frame_time : FrameRecord → ℕ
frame_time f = f.t_ext_us

-- A record of a type, with a payload.
abbrev of_type : ℕ → List ℕ → TypedRecord
of_type type payload = record {
  header = record {
    version = 1;
    record_type = type;
    flags = 0;
    seq = 7;
    payload_length = length payload;
  };
  payload = payload;
  frame_bytes = [];
}

-- A frame of the id 0x510 on bus 1, which is evidence of control, twice, and an event of the board.
abbrev received : TypedRecord
received = of_type RecordType.can_rx_raw (
    9 ∷ 0 ∷ 0 ∷ 0 ∷ 0 ∷ 0 ∷ 0 ∷ 0 ∷ 16 ∷ 5 ∷ 0 ∷ 0 ∷ 8 ∷ 1 ∷ 1 ∷ 2 ∷ 3 ∷ 4 ∷ 5 ∷ 6 ∷ 7 ∷ 8 ∷ 0 ∷ 0
    ∷ 0 ∷ 0 ∷ 0 ∷ 0 ∷ 0 ∷ 0 ∷ [])

abbrev batch : List TypedRecord
batch = received ∷ of_type RecordType.board_event [] ∷ received ∷ []

abbrev projection_calls : List (Option (ℕ × List TypedRecord))
projection_calls = some (100, batch) ∷ none ∷ some (200, batch) ∷ []

abbrev projected : LiveProjectionRuntime
projected =
    after (sort_by frame_time) (sort_by record_mono_us) (length-sort_by frame_time)
      (length-sort_by record_mono_us) projection_calls (new_projection 256)

after-new_projection-Accounts_example :
    Accounts projected
    × Handed
        (handed_over
          (sort_by frame_time)
          (sort_by record_mono_us)
          (length-sort_by frame_time)
          (length-sort_by record_mono_us)
          projection_calls
          (new_projection 256)
          nothing)
        projected
after-new_projection-Accounts_example =
    after-new_projection-Accounts (sort_by frame_time) (sort_by record_mono_us)
      (length-sort_by frame_time) (length-sort_by record_mono_us) 256 projection_calls (omega arith)

ingest-critical_example :
    (waited : List TypedRecord) × ((vsm_field_workstation.Ingress.Projection.ingest
        (sort_by frame_time)
        (sort_by record_mono_us)
        100
        batch
        (new_projection 256)).0.critical_records
      ≡ urgent batch ++ waited)
ingest-critical_example =
    ingest-critical (sort_by frame_time) (sort_by record_mono_us) 100 batch (new_projection 256)
