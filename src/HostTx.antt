-- ===== src/HostTx.antt =====
-- The host transmit queue and its runtime: src/backend/transport/HostTxQueue.h, HostTxQueue.cpp,
-- HostTxRuntime.h and HostTxRuntime.cpp. A qsizetype is a number (the sizes are not negative), a
-- quint64 counter wraps.
pub mod Invariant
pub mod Fifo
mod Tests
use Prim.Native.String.{String}
use vsm_field_workstation.Prelude.{
  ℕ, ◌+◌, ◌-◌, Bool, true, false, not, ◌&&◌, ◌||◌, Option, none, some, List, [], ◌∷◌, ◌++◌, ltb,
  leb, if◌then◌else◌, add_u, length,
}
use vsm_field_workstation.Foreign.{Qt}

pub record Item : Type 0 where
  pub sequence : ℕ
  pub frame : List ℕ
  pub summary : String

pub record HostTxQueue : Type 0 where
  pub max_frames : ℕ
  pub max_bytes : ℕ
  pub queued_bytes : ℕ
  pub next_sequence : ℕ
  pub enqueued_frames : ℕ
  pub written_frames : ℕ
  pub dropped_frames : ℕ
  pub items : List Item

abbrev pub new_queue : ℕ → ℕ → HostTxQueue
new_queue max_frames max_bytes = record {
  max_frames = max_frames;
  max_bytes = max_bytes;
  queued_bytes = 0;
  next_sequence = 1;
  enqueued_frames = 0;
  written_frames = 0;
  dropped_frames = 0;
  items = [];
}

abbrev pub is_empty {ℓ} : {A : Type ℓ} → List A → Bool
is_empty [] = true
is_empty (x ∷ xs) = false

abbrev pub is_blank : String → Bool
is_blank String.[] = true
is_blank (String.◌∷◌ c s) = false

-- A call of HostTxQueue::enqueue: the queue, the result and the text left in `*error`.
pub record Enqueued : Type 0 where
  pub queue : HostTxQueue
  pub ok : Bool
  pub error : String

unfoldable pub refuse : HostTxQueue → String → Enqueued
refuse q error = record {
  queue = record q { dropped_frames = add_u 64 q.dropped_frames 1 };
  ok = false;
  error = error;
}

unfoldable pub enqueue : List ℕ → String → HostTxQueue → Enqueued
unfolding refuse
enqueue frame summary q =
    if is_empty frame
    then refuse q "empty host frame"
    else if leb q.max_frames (length q.items)
    then refuse q "host TX queue full"
    else if ltb q.max_bytes (q.queued_bytes + length frame)
    then refuse q "host TX queue byte limit exceeded"
    else record {
      queue = record q {
        items =
            q.items
            ++ (record { sequence = q.next_sequence; frame = frame; summary = summary } ∷ []);
        next_sequence = add_u 64 q.next_sequence 1;
        queued_bytes = q.queued_bytes + length frame;
        enqueued_frames = add_u 64 q.enqueued_frames 1;
      };
      ok = true;
      error = "";
    }

abbrev pub default_item : Item
default_item = record { sequence = 0; frame = []; summary = "" }

unfoldable pub dequeue : HostTxQueue → Item × HostTxQueue
dequeue q = elim q.items [
  | [] ↦ (default_item, q)
  | item ∷ rest ↦
      (item, record q { items = rest; queued_bytes = q.queued_bytes - length item.frame })
]

unfoldable pub clear_queue : HostTxQueue → HostTxQueue
clear_queue q = record q { items = []; queued_bytes = 0 }

unfoldable pub mark_written_queue : HostTxQueue → HostTxQueue
mark_written_queue q = record q { written_frames = add_u 64 q.written_frames 1 }

unfoldable pub has_pending : HostTxQueue → Bool
has_pending q = not (is_empty q.items)

pub record HostTxRuntime : Type 0 where
  pub queue : HostTxQueue
  pub max_in_flight_bytes : ℕ

pub record Status : Type 0 where
  pub queued_frames : ℕ
  pub queued_bytes : ℕ
  pub enqueued_frames : ℕ
  pub written_frames : ℕ
  pub dropped_frames : ℕ

unfoldable pub status : HostTxRuntime → Status
status r = record {
  queued_frames = length r.queue.items;
  queued_bytes = r.queue.queued_bytes;
  enqueued_frames = r.queue.enqueued_frames;
  written_frames = r.queue.written_frames;
  dropped_frames = r.queue.dropped_frames;
}

pub record EnqueueResult : Type 0 where
  pub ok : Bool
  pub error : String
  pub status : Status

unfoldable pub or_host_frame : String → String
or_host_frame summary = if is_blank summary then "host frame" else summary

unfoldable pub enqueue_frame : List ℕ → String → HostTxRuntime → HostTxRuntime × EnqueueResult
unfolding enqueue status or_host_frame
enqueue_frame frame summary r =
    let done = enqueue frame (or_host_frame summary) r.queue in
    let after : HostTxRuntime = record r { queue = done.queue } in
    (after, record { ok = done.ok; error = done.error; status = status after })

pub record WriteItem : Type 0 where
  pub frame : List ℕ
  pub summary : String

unfoldable pub take_next_for_write : ℕ → HostTxRuntime → Option WriteItem × HostTxRuntime
unfolding has_pending dequeue or_host_frame
take_next_for_write serial_bytes_to_write r =
    if not (has_pending r.queue) || leb r.max_in_flight_bytes serial_bytes_to_write
    then (none, r)
    else (
      some (record {
        frame = (dequeue r.queue).0.frame;
        summary = or_host_frame (dequeue r.queue).0.summary;
      }),
      record r { queue = (dequeue r.queue).1 },
    )

unfoldable pub mark_written : HostTxRuntime → HostTxRuntime
unfolding mark_written_queue
mark_written r = record r { queue = mark_written_queue r.queue }

pub record ClearResult : Type 0 where
  pub had_pending : Bool
  pub error : String
  pub status : Status

unfoldable pub clear : Qt → String → HostTxRuntime → HostTxRuntime × ClearResult
unfolding has_pending clear_queue status
clear qt reason r =
    let pending = has_pending r.queue in
    let after : HostTxRuntime = if pending then record r { queue = clear_queue r.queue } else r in
    (
      after,
      record {
        had_pending = pending;
        error =
            if pending
            then qt.arg_number (qt.arg "Host TX queue cleared: %1 · %2 frame(s)" reason)
                (length r.queue.items)
            else "";
        status = status after;
      },
    )

-- What the worker may call, in any order.
pub data Call : Type 0 where
  enqueues : List ℕ → String → Call
  takes : ℕ → Call
  marks : Call
  clears : String → Call

unfoldable pub step : Qt → Call → HostTxRuntime → HostTxRuntime
unfolding enqueue_frame take_next_for_write mark_written clear
step qt (enqueues frame summary) r = (enqueue_frame frame summary r).0
step qt (takes n) r = (take_next_for_write n r).1
step qt marks r = mark_written r
step qt (clears reason) r = (clear qt reason r).0

unfoldable pub run : Qt → List Call → HostTxRuntime → HostTxRuntime
unfolding step
run qt [] r = r
run qt (c ∷ cs) r = run qt cs (step qt c r)
