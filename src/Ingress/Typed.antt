-- ===== src/Ingress/Typed.antt =====
-- The ingress of typed records: src/backend/transport/TypedIngressRuntime.h and TypedIngressRuntime.cpp.
-- A timer is the time at which it was last restarted, or nothing; one call reads one time. The body of
-- the loop of ingest is take_in, and the loop runs on fuel, one more than the buffered bytes: each
-- record takes a byte at least.
pub mod Drain
pub mod Batches
use Prim.Native.String.{String}
use vsm_field_workstation.Prelude.{
  ℕ, zero, suc, ◌+◌, ◌-◌, ◌%◌, ◌^◌, Bool, true, false, not, ◌&&◌, ◌||◌, Option, none, some, List,
  [], ◌∷◌, ◌++◌, ltb, leb, ◌==◌, if◌then◌else◌, add_u, length,
}
use vsm_field_workstation.Prelude.Int.{ℤ, pos, negsuc, pos_part, ltb_ℤ}
use vsm_field_workstation.Foreign.{Qt}
use vsm_field_workstation.HostTx.{is_empty}
use vsm_field_workstation.Typed.{TypedRecord, is_type}
use vsm_field_workstation.Typed.RecordType
use vsm_field_workstation.Typed.Parser.{Counters, Parser, view, append, take_one}
use vsm_field_workstation.Typed.Parser
use vsm_field_workstation.Ingress.Storage.{StorageOps}

abbrev pub typed_live_emit_batch_size : ℕ
typed_live_emit_batch_size = 512

abbrev pub typed_storage_progress_record_step : ℕ
typed_storage_progress_record_step = 1536

abbrev pub typed_storage_progress_interval_ms : ℕ
typed_storage_progress_interval_ms = 1000

pub record StatusSnapshot : Type 0 where
  pub frames : ℕ
  pub bytes_dropped : ℕ
  pub crc_failures : ℕ
  pub length_failures : ℕ
  pub version_warnings : ℕ
  pub seq_gaps : ℕ

pub record StorageUpdate : Type 0 where
  pub ok : Bool
  pub error : String
  pub state_changed : Bool
  pub active : Bool
  pub path : String
  pub progress_due : Bool
  pub bytes_written : ℕ
  pub record_count : ℕ

pub record HandshakeWatchdogState : Type 0 where
  pub capability_seen : Bool
  pub timed_out : Bool
  pub timeout_reason : String

pub record IngestResult : Type 0 where
  pub record_batches : List (List TypedRecord)
  pub errors : List String
  pub capability_first_seen : Bool
  pub capability_elapsed_ms : ℤ
  pub capability_bytes : ℕ
  pub status_due : Bool
  pub status : StatusSnapshot
  pub storage_progress_due : Bool
  pub storage_bytes_written : ℕ
  pub storage_record_count : ℕ

abbrev pub new_update : StorageUpdate
new_update = record {
  ok = true;
  error = "";
  state_changed = false;
  active = false;
  path = "";
  progress_due = false;
  bytes_written = 0;
  record_count = 0;
}

unfoldable pub make_status_snapshot : Counters → StatusSnapshot
make_status_snapshot c = record {
  frames = c.frames;
  bytes_dropped = c.bytes_dropped;
  crc_failures = c.crc_failures;
  length_failures = c.length_failures;
  version_warnings = c.version_warnings;
  seq_gaps = c.seq_gaps;
}

unfoldable pub counters_changed : Counters → Counters → Bool
counters_changed before after =
    not (after.frames == before.frames)
    || (not (after.bytes_dropped == before.bytes_dropped)
        || (not (after.crc_failures == before.crc_failures)
            || (not (after.length_failures == before.length_failures)
                || (not (after.version_warnings == before.version_warnings)
                    || not (after.seq_gaps == before.seq_gaps)))))

-- `!timer.isValid() || timer.elapsed() >= interval`
unfoldable pub has_elapsed : Option ℕ → ℕ → ℕ → Bool
has_elapsed none now_ms interval_ms = true
has_elapsed (some start) now_ms interval_ms = leb interval_ms (now_ms - start)

module _ {S J : Type 0} (ops : StorageOps S J) (qt : Qt) where
  pub record TypedIngressRuntime : Type 0 where
    pub parser : Parser
    pub storage : S
    pub status_timer : Option ℕ
    pub storage_progress_timer : Option ℕ
    pub last_reported_storage_record_count : ℕ
    pub bytes_since_open : ℕ
    pub capability_seen_since_open : Bool
    pub status_min_interval_ms : ℕ

  unfoldable pub reset_stream_state : TypedIngressRuntime → TypedIngressRuntime
  reset_stream_state t = record t {
    parser = vsm_field_workstation.Typed.Parser.reset;
    bytes_since_open = 0;
    capability_seen_since_open = false;
    status_timer = none;
  }

  unfoldable pub make_storage_update : Bool → Bool → String → Bool → S → StorageUpdate
  make_storage_update state_changed active path progress_due s = record new_update {
    state_changed = state_changed;
    active = active;
    path = path;
    progress_due = progress_due;
    bytes_written = ops.bytes_written s;
    record_count = ops.record_count s;
  }

  unfoldable pub start_storage :
      ℕ → String → J → TypedIngressRuntime → StorageUpdate × TypedIngressRuntime
  unfolding make_storage_update
  start_storage now_ms session_dir metadata t =
      let (answer, storage) = ops.start_typed_session session_dir metadata t.storage in
      let started : TypedIngressRuntime = record t {
        storage = storage;
        last_reported_storage_record_count = 0;
        storage_progress_timer = some now_ms;
      } in
      if ops.is_active t.storage
      then (record new_update { ok = false; error = "Typed storage is already active." }, t)
      else if not answer.0
      then (
        record new_update { ok = false; error = qt.arg "Typed storage start failed: %1" answer.1 },
        record t { storage = storage },
      )
      else (make_storage_update true true (ops.session_dir storage) true storage, started)

  unfoldable pub finalize_storage_if_active :
      TypedIngressRuntime → StorageUpdate × TypedIngressRuntime
  finalize_storage_if_active t =
      let (answer, storage) = ops.finalize_typed_session t.storage in
      if not (ops.is_active t.storage) then (new_update, t) else (
        record {
          ok = answer.0;
          error = if answer.0 then "" else qt.arg "Typed storage finalize failed: %1" answer.1;
          state_changed = true;
          active = false;
          path = ops.session_dir t.storage;
          progress_due = true;
          bytes_written = ops.bytes_written t.storage;
          record_count = ops.record_count t.storage;
        },
        record t { storage = storage },
      )

  unfoldable pub stop_storage : String → TypedIngressRuntime → StorageUpdate × TypedIngressRuntime
  unfolding make_storage_update finalize_storage_if_active
  stop_storage inactive_path t =
      if not (ops.is_active t.storage)
      then (make_storage_update true false inactive_path false t.storage, t)
      else finalize_storage_if_active t

  -- The locals of ingest: the object, the result and the batch.
  pub record Ingesting : Type 0 where
    pub runtime : TypedIngressRuntime
    pub result : IngestResult
    pub batch : List TypedRecord

  unfoldable pub flush_batch : Ingesting → Ingesting
  flush_batch g = if is_empty g.batch then g else record g {
    result = record (g.result) { record_batches = g.result.record_batches ++ (g.batch ∷ []) };
    batch = [];
  }

  unfoldable pub note_capability : ℤ → TypedRecord → Ingesting → Ingesting
  note_capability handshake_elapsed_ms r g =
      if not g.runtime.capability_seen_since_open && is_type r RecordType.capability
      then record g {
        runtime = record (g.runtime) { capability_seen_since_open = true };
        result = record (g.result) {
          capability_first_seen = true;
          capability_elapsed_ms = handshake_elapsed_ms;
          capability_bytes = g.runtime.bytes_since_open;
        };
      }
      else g

  unfoldable pub store_record : TypedRecord → Ingesting → Ingesting
  store_record r g =
      let (answer, storage) = ops.append_typed_record r g.runtime.storage in
      if ops.is_active g.runtime.storage
      then record g {
        runtime = record (g.runtime) { storage = storage };
        result = record (g.result) {
          errors =
              if answer.0
              then g.result.errors
              else g.result.errors ++ (qt.arg "Typed storage append failed: %1" answer.1 ∷ []);
        };
      }
      else g

  unfoldable pub push_record : TypedRecord → Ingesting → Ingesting
  unfolding flush_batch
  push_record r g =
      let pushed : Ingesting = record g { batch = g.batch ++ (r ∷ []) } in
      if leb typed_live_emit_batch_size (length pushed.batch) then flush_batch pushed else pushed

  unfoldable pub take_in : ℤ → TypedRecord → Ingesting → Ingesting
  unfolding push_record store_record note_capability
  take_in handshake_elapsed_ms r g =
      push_record r (store_record r (note_capability handshake_elapsed_ms r g))

  unfoldable pub with_parser : Parser → Ingesting → Ingesting
  with_parser p g = record g { runtime = record (g.runtime) { parser = p } }

  unfoldable pub ingest_loop : ℕ → ℤ → Ingesting → Option Ingesting
  unfolding take_in with_parser
  ingest_loop zero handshake_elapsed_ms g = none
  ingest_loop (suc rounds) handshake_elapsed_ms g = elim (take_one g.runtime.parser) [
    | none ↦ none
    | some (none, p) ↦ some (with_parser p g)
    | some (some r, p) ↦
        ingest_loop rounds handshake_elapsed_ms (take_in handshake_elapsed_ms r (with_parser p g))
  ]

  unfoldable pub status_due : ℕ → TypedIngressRuntime → Bool × TypedIngressRuntime
  unfolding has_elapsed
  status_due now_ms t =
      if has_elapsed t.status_timer now_ms t.status_min_interval_ms
      then (true, record t { status_timer = some now_ms })
      else (false, t)

  unfoldable pub storage_progress_due : ℕ → TypedIngressRuntime → Bool × TypedIngressRuntime
  unfolding has_elapsed
  storage_progress_due now_ms t =
      let records = ops.record_count t.storage in
      let by_count =
        leb (add_u 64 t.last_reported_storage_record_count typed_storage_progress_record_step)
          records in
      let by_time =
        has_elapsed t.storage_progress_timer now_ms typed_storage_progress_interval_ms in
      if not by_count && not by_time then (false, t) else (
        true,
        record t {
          last_reported_storage_record_count = records;
          storage_progress_timer = some now_ms;
        },
      )

  -- What ingest does behind its loop.
  unfoldable pub report_status : ℕ → Counters → Ingesting → Ingesting
  unfolding status_due
  report_status now_ms before g =
      let after = g.runtime.parser.counters in
      let (due, runtime) = status_due now_ms g.runtime in
      let shown = make_status_snapshot after in
      if counters_changed before after
      then record g {
        runtime = runtime;
        result = record (g.result) { status = shown; status_due = due };
      }
      else record g { result = record (g.result) { status = shown; status_due = false } }

  unfoldable pub report_storage : ℕ → Ingesting → Ingesting
  unfolding storage_progress_due
  report_storage now_ms g =
      let (due, runtime) = storage_progress_due now_ms g.runtime in
      if ops.is_active g.runtime.storage
      then record g {
        runtime = runtime;
        result =
            if due
            then record (g.result) {
              storage_progress_due = true;
              storage_bytes_written = ops.bytes_written g.runtime.storage;
              storage_record_count = ops.record_count g.runtime.storage;
            }
            else g.result;
      }
      else g

  abbrev pub new_result : StatusSnapshot → IngestResult
  new_result status = record {
    record_batches = [];
    errors = [];
    capability_first_seen = false;
    capability_elapsed_ms = negsuc 0;
    capability_bytes = 0;
    status_due = false;
    status = status;
    storage_progress_due = false;
    storage_bytes_written = 0;
    storage_record_count = 0;
  }

  unfoldable pub opened : List ℕ → TypedIngressRuntime → Ingesting
  opened bytes t = record {
    runtime = record t {
      bytes_since_open = add_u 64 t.bytes_since_open (length bytes);
      parser = append t.parser bytes;
    };
    result = new_result (record {
      frames = 0;
      bytes_dropped = 0;
      crc_failures = 0;
      length_failures = 0;
      version_warnings = 0;
      seq_gaps = 0;
    });
    batch = [];
  }

  unfoldable pub closed : ℕ → Counters → Ingesting → IngestResult × TypedIngressRuntime
  unfolding flush_batch report_status report_storage
  closed now_ms before g =
      let done = report_storage now_ms (report_status now_ms before (flush_batch g)) in
      (done.result, done.runtime)

  unfoldable pub ingest :
      ℕ → List ℕ → ℤ → TypedIngressRuntime → Option (IngestResult × TypedIngressRuntime)
  unfolding opened ingest_loop closed
  ingest now_ms [] handshake_elapsed_ms t =
      some (new_result (make_status_snapshot t.parser.counters), t)
  ingest now_ms (b ∷ bs) handshake_elapsed_ms t =
      let g = opened (b ∷ bs) t in
      elim (ingest_loop (suc (length (view g.runtime.parser.window))) handshake_elapsed_ms g) [
        | none ↦ none
        | some done ↦ some (closed now_ms t.parser.counters done)
      ]

  unfoldable pub evaluate_handshake : ℤ → ℤ → TypedIngressRuntime → HandshakeWatchdogState
  evaluate_handshake elapsed_ms timeout_ms t =
      if t.capability_seen_since_open || (ltb_ℤ elapsed_ms (pos 0) || ltb_ℤ elapsed_ms timeout_ms)
      then record {
        capability_seen = t.capability_seen_since_open;
        timed_out = false;
        timeout_reason = "";
      }
      else record {
        capability_seen = false;
        timed_out = true;
        timeout_reason =
            qt.arg_number
              (qt.arg_number
                (qt.arg_number
                  "typed handshake timeout: no CAPABILITY after %1ms, bytes=%2, frames=%3"
                  (pos_part elapsed_ms))
                t.bytes_since_open)
              t.parser.counters.frames;
      }
