-- ===== src/Ingress/Legacy.antt =====
-- The ingress of legacy packets: src/backend/transport/LegacyIngressRuntime.h and
-- LegacyIngressRuntime.cpp, over the interface of the recorder, the class of src/backend/Recorder.h. A
-- timer is the time at which it was last restarted, or nothing; one call reads one time. The loop of
-- ingest runs on fuel, one more than the buffered bytes: each record takes 20 bytes at least.
pub mod Carried
pub mod Drain
mod Tests
use Prim.Native.String.{String}
use vsm_field_workstation.Prelude.{
  ℕ, zero, suc, Bool, true, false, not, ◌&&◌, Option, none, some, List, [], ◌∷◌, ◌++◌, leb,
  if◌then◌else◌, add_u, length,
}
use vsm_field_workstation.Foreign.{Qt}
use vsm_field_workstation.HostTx.{is_blank, is_empty}
use vsm_field_workstation.Packet.Stream.{
  FrameRecord, StatsRecord, PacketRecord, PacketParser, append, take_one,
}
use vsm_field_workstation.Packet.Stream
use vsm_field_workstation.Ingress.Typed.{has_elapsed}

-- What the ingress asks of the recorder. A start may fail, with the text of its error.
pub record RecorderOps (R : Type 0) : Type 0 where
  pub is_active : R → Bool
  pub start : String → String → String → String → R → (Bool × String) × R
  pub append20 : List ℕ → R → R
  pub flush_pending : Bool → R → R
  pub stop : R → R
  pub current_path : R → String
  pub last_error : R → String
  pub bytes_written : R → ℕ
  pub frame_count : R → ℕ

abbrev pub legacy_live_emit_batch_size : ℕ
legacy_live_emit_batch_size = 192

abbrev pub legacy_logging_progress_frame_step : ℕ
legacy_logging_progress_frame_step = 1536

abbrev pub legacy_logging_progress_interval_ms : ℕ
legacy_logging_progress_interval_ms = 1000

pub record LoggingUpdate : Type 0 where
  pub ok : Bool
  pub error : String
  pub state_changed : Bool
  pub active : Bool
  pub path : String
  pub progress_due : Bool
  pub bytes_written : ℕ
  pub frame_count : ℕ

abbrev pub new_update : LoggingUpdate
new_update = record {
  ok = true;
  error = "";
  state_changed = false;
  active = false;
  path = "";
  progress_due = false;
  bytes_written = 0;
  frame_count = 0;
}

pub record LegacyResult : Type 0 where
  pub frame_batches : List (List FrameRecord)
  pub stats : List StatsRecord
  pub errors : List String
  pub logging_progress_due : Bool
  pub logging_bytes_written : ℕ
  pub logging_frame_count : ℕ

abbrev pub new_result : LegacyResult
new_result = record {
  frame_batches = [];
  stats = [];
  errors = [];
  logging_progress_due = false;
  logging_bytes_written = 0;
  logging_frame_count = 0;
}

module _ {R : Type 0} (ops : RecorderOps R) where
  pub record LegacyIngressRuntime : Type 0 where
    pub parser : PacketParser
    pub recorder : R
    pub log_progress_timer : Option ℕ
    pub last_reported_frame_count : ℕ

  unfoldable pub reset_stream_state : LegacyIngressRuntime → LegacyIngressRuntime
  reset_stream_state t = record t { parser = vsm_field_workstation.Packet.Stream.reset }

  unfoldable pub make_logging_update : Bool → Bool → String → Bool → R → LoggingUpdate
  make_logging_update state_changed active path progress_due r = record new_update {
    state_changed = state_changed;
    active = active;
    path = path;
    progress_due = progress_due;
    bytes_written = ops.bytes_written r;
    frame_count = ops.frame_count r;
  }

  module _ (qt : Qt) where
    unfoldable pub start_logging :
        ℕ
        → String
        → String
        → String
        → String
        → LegacyIngressRuntime
        → LoggingUpdate × LegacyIngressRuntime
    unfolding make_logging_update
    start_logging now_ms bin_path meta_path rules_snapshot_path rules_source_path t =
        let (answer, recorder) =
          ops.start bin_path meta_path rules_snapshot_path rules_source_path t.recorder in
        if not answer.0
        then (
          record new_update { ok = false; error = qt.arg "로그 시작 실패: %1" answer.1 },
          record t { recorder = recorder },
        )
        else (
          make_logging_update true true (ops.current_path recorder) true recorder,
          record t {
            recorder = recorder;
            last_reported_frame_count = 0;
            log_progress_timer = some now_ms;
          },
        )

    unfoldable pub stop_logging : LegacyIngressRuntime → LoggingUpdate × LegacyIngressRuntime
    unfolding make_logging_update
    stop_logging t =
        let path = ops.current_path t.recorder in
        let recorder = ops.stop t.recorder in
        let update = make_logging_update true false path true recorder in
        let warning = qt.trimmed (ops.last_error recorder) in
        if not (ops.is_active t.recorder) then (new_update, t) else (
          (if is_blank warning
              then update
              else record update { error = qt.arg "로그 종료 후처리 경고: %1" warning }),
          record t { recorder = recorder },
        )

    unfoldable pub stop_logging_if_active :
        LegacyIngressRuntime → LoggingUpdate × LegacyIngressRuntime
    unfolding stop_logging
    stop_logging_if_active t = if ops.is_active t.recorder then stop_logging t else (new_update, t)

  -- The locals of ingest: the object, the result and the batch.
  pub record Carrying : Type 0 where
    pub runtime : LegacyIngressRuntime
    pub result : LegacyResult
    pub batch : List FrameRecord

  unfoldable pub flush_batch : Carrying → Carrying
  flush_batch g = if is_empty g.batch then g else record g {
    result = record (g.result) { frame_batches = g.result.frame_batches ++ (g.batch ∷ []) };
    batch = [];
  }

  unfoldable pub with_recorder : (R → R) → Carrying → Carrying
  with_recorder f g =
      if ops.is_active g.runtime.recorder
      then record g { runtime = record (g.runtime) { recorder = f g.runtime.recorder } }
      else g

  unfoldable pub push_stats : StatsRecord → Carrying → Carrying
  push_stats s g = record g { result = record (g.result) { stats = g.result.stats ++ (s ∷ []) } }

  unfoldable pub push_frame : FrameRecord → Carrying → Carrying
  push_frame f g = record g { batch = g.batch ++ (f ∷ []) }

  unfoldable pub flush_if_full : Carrying → Carrying
  unfolding flush_batch
  flush_if_full g = if leb legacy_live_emit_batch_size (length g.batch) then flush_batch g else g

  unfoldable pub take_in : PacketRecord → Carrying → Carrying
  unfolding flush_batch with_recorder push_stats push_frame flush_if_full
  take_in (PacketRecord.stats s) g =
      push_stats s (with_recorder (ops.flush_pending false) (flush_batch g))
  take_in (PacketRecord.frame f) g =
      flush_if_full (with_recorder (ops.append20 f.raw20) (push_frame f g))

  unfoldable pub with_parser : PacketParser → Carrying → Carrying
  with_parser p g = record g { runtime = record (g.runtime) { parser = p } }

  unfoldable pub ingest_loop : ℕ → Carrying → Option Carrying
  unfolding take_in with_parser
  ingest_loop zero g = none
  ingest_loop (suc rounds) g = elim (take_one g.runtime.parser) [
    | none ↦ none
    | some (none, p) ↦ some (with_parser p g)
    | some (some r, p) ↦ ingest_loop rounds (take_in r (with_parser p g))
  ]

  unfoldable pub logging_progress_due : ℕ → LegacyIngressRuntime → Bool × LegacyIngressRuntime
  unfolding has_elapsed
  logging_progress_due now_ms t =
      let frames = ops.frame_count t.recorder in
      let by_count =
        leb (add_u 64 t.last_reported_frame_count legacy_logging_progress_frame_step) frames in
      let by_time = has_elapsed t.log_progress_timer now_ms legacy_logging_progress_interval_ms in
      if not by_count && not by_time
      then (false, t)
      else (true, record t { last_reported_frame_count = frames; log_progress_timer = some now_ms })

  unfoldable pub report_logging : ℕ → Carrying → Carrying
  unfolding logging_progress_due
  report_logging now_ms g =
      let (due, runtime) = logging_progress_due now_ms g.runtime in
      record g {
        runtime = runtime;
        result =
            if due
            then record (g.result) {
              logging_progress_due = true;
              logging_bytes_written = ops.bytes_written g.runtime.recorder;
              logging_frame_count = ops.frame_count g.runtime.recorder;
            }
            else g.result;
      }

  unfoldable pub closed : ℕ → Carrying → LegacyResult × LegacyIngressRuntime
  unfolding flush_batch with_recorder report_logging
  closed now_ms g =
      let flushed = with_recorder (ops.flush_pending false) (flush_batch g) in
      let done =
        if ops.is_active g.runtime.recorder then report_logging now_ms flushed else flushed in
      (done.result, done.runtime)

  unfoldable pub opened : List ℕ → LegacyIngressRuntime → Carrying
  opened bytes t = record {
    runtime = record t { parser = append bytes t.parser };
    result = new_result;
    batch = [];
  }

  unfoldable pub ingest :
      ℕ → List ℕ → LegacyIngressRuntime → Option (LegacyResult × LegacyIngressRuntime)
  unfolding opened ingest_loop closed
  ingest now_ms [] t = some (new_result, t)
  ingest now_ms (b ∷ bs) t =
      let g = opened (b ∷ bs) t in
      elim (ingest_loop (suc (length g.runtime.parser.buffer)) g) [
        | none ↦ none
        | some done ↦ some (closed now_ms done)
      ]
