-- ===== src/HostTx/Invariant.antt =====
-- The state of HostTxQueue: its counts, its limits and its frames.
use Prim.Native.String.{String}
use vsm_field_workstation.Prelude.{
  ℕ, ◌+◌, ◌≤◌, ◌<◌, ◌≡◌, refl, List, [], ◌∷◌, ◌++◌, arith, length, length-append, All, All-append,
}
use vsm_field_workstation.Foreign.{Qt}
use vsm_field_workstation.HostTx.{
  Item, HostTxQueue, HostTxRuntime, new_queue, enqueue, dequeue, clear_queue, Call, enqueues, takes,
  marks, clears, step, run,
}

abbrev pub total_bytes : List Item → ℕ
total_bytes [] = 0
total_bytes (i ∷ is) = length i.frame + total_bytes is

total_bytes-append : (xs ys : List Item) → total_bytes (xs ++ ys) ≡ total_bytes xs + total_bytes ys
total_bytes-append [] ys = omega arith
total_bytes-append (x ∷ xs) ys = omega (arith, total_bytes-append xs ys)

abbrev pub HasBytes : Item → Type 0
HasBytes i = 0 < length i.frame

pub record IsValid (q : HostTxQueue) : Type 0 where
  pub counted : q.queued_bytes ≡ total_bytes q.items
  pub bytes_bounded : q.queued_bytes ≤ q.max_bytes
  pub frames_bounded : length q.items ≤ q.max_frames
  pub no_empty_frame : All HasBytes q.items

new_queue-IsValid : (frames bytes : ℕ) → IsValid (new_queue frames bytes)
new_queue-IsValid frames bytes = record {
  counted = refl;
  bytes_bounded = omega arith;
  frames_bounded = omega arith;
  no_empty_frame = tt;
}

abbrev new_item : List ℕ → String → HostTxQueue → Item
new_item frame s q = record { sequence = q.next_sequence; frame = frame; summary = s }

enqueue-IsValid :
    (frame : List ℕ) (s : String) (q : HostTxQueue) → IsValid q → IsValid (enqueue frame s q).queue
unfolding enqueue
enqueue-IsValid [] s q v = record {
  counted = v.counted;
  bytes_bounded = v.bytes_bounded;
  frames_bounded = v.frames_bounded;
  no_empty_frame = v.no_empty_frame;
}
enqueue-IsValid (b ∷ bs) s q v = ground (
  arith,
  total_bytes-append q.items (new_item (b ∷ bs) s q ∷ []),
  length-append q.items (new_item (b ∷ bs) s q ∷ []),
  All-append HasBytes q.items (new_item (b ∷ bs) s q ∷ []) v.no_empty_frame (omega arith),
)

dequeue_cases :
    (q : HostTxQueue) (items : List Item) → q.items ≡ items → IsValid q → IsValid (dequeue q).1
unfolding dequeue
dequeue_cases q [] e v = ground arith
dequeue_cases q (i ∷ is) e v = ground arith

dequeue-IsValid : (q : HostTxQueue) → IsValid q → IsValid (dequeue q).1
dequeue-IsValid q v = dequeue_cases q q.items refl v

clear_queue-IsValid : (q : HostTxQueue) → IsValid q → IsValid (clear_queue q)
unfolding clear_queue
clear_queue-IsValid q v = record {
  counted = refl;
  bytes_bounded = omega arith;
  frames_bounded = omega arith;
  no_empty_frame = tt;
}

step-IsValid :
    (qt : Qt) (c : Call) (r : HostTxRuntime) → IsValid r.queue → IsValid (step qt c r).queue
unfolding step
step-IsValid qt (enqueues frame s) r v = enqueue-IsValid frame _ r.queue v
step-IsValid qt (takes n) r v = ground (arith, dequeue-IsValid r.queue v)
step-IsValid qt marks r v = record {
  counted = v.counted;
  bytes_bounded = v.bytes_bounded;
  frames_bounded = v.frames_bounded;
  no_empty_frame = v.no_empty_frame;
}
step-IsValid qt (clears s) r v = ground (arith, clear_queue-IsValid r.queue v)

run-IsValid :
    (qt : Qt) (cs : List Call) (r : HostTxRuntime) → IsValid r.queue → IsValid (run qt cs r).queue
unfolding run
run-IsValid qt [] r v = v
run-IsValid qt (c ∷ cs) r v = run-IsValid qt cs (step qt c r) (step-IsValid qt c r v)

-- From a new queue, whatever calls follow, the byte count is the sum of the sizes of the queued frames,
-- it is within the byte limit, their number is within the frame limit, and no queued frame is empty.
pub run-new_queue-IsValid :
    (qt : Qt) (cs : List Call) (frames bytes in_flight : ℕ)
    → IsValid
        (run qt cs
          (record { queue = new_queue frames bytes; max_in_flight_bytes = in_flight })).queue
run-new_queue-IsValid qt cs frames bytes in_flight =
    run-IsValid qt cs _ (new_queue-IsValid frames bytes)
