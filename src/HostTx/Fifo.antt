-- ===== src/HostTx/Fifo.antt =====
-- The transmit queue of HostTxQueue and HostTxRuntime against the history of its calls.
use Prim.Native.String.{String}
use vsm_field_workstation.Prelude.{
  ℕ, ◌≡◌, refl, sym, ap, ◌∙◌, Option, none, some, List, [], ◌∷◌, ◌++◌, arith, append_assoc,
  append-nil, map, if◌then◌else◌,
}
use vsm_field_workstation.Foreign.{Qt}
use vsm_field_workstation.HostTx.{
  Item, HostTxRuntime, WriteItem, enqueue_frame, take_next_for_write, mark_written, Call, enqueues,
  takes, marks, clears, step, run, or_host_frame,
}
use mathlib.Core.List.{map-append}

-- The frames that wait, oldest first.
abbrev pub pending : HostTxRuntime → List (List ℕ)
pending r = map (λ i. i.frame) r.queue.items

-- The frame that a call accepts, and the frames that it hands out or throws away.
abbrev pub accepted : Qt → Call → HostTxRuntime → List (List ℕ)
accepted qt (enqueues frame s) r = if (enqueue_frame frame s r).1.ok then frame ∷ [] else []
accepted qt (takes n) r = []
accepted qt marks r = []
accepted qt (clears reason) r = []

abbrev pub written_out : Option WriteItem → List (List ℕ)
written_out none = []
written_out (some w) = w.frame ∷ []

abbrev pub removed : Qt → Call → HostTxRuntime → List (List ℕ)
removed qt (enqueues frame s) r = []
removed qt (takes n) r = written_out (take_next_for_write n r).0
removed qt marks r = []
removed qt (clears reason) r = pending r

abbrev pub all_accepted : Qt → List Call → HostTxRuntime → List (List ℕ)
all_accepted qt [] r = []
all_accepted qt (c ∷ cs) r = accepted qt c r ++ all_accepted qt cs (step qt c r)

abbrev pub all_removed : Qt → List Call → HostTxRuntime → List (List ℕ)
all_removed qt [] r = []
all_removed qt (c ∷ cs) r = removed qt c r ++ all_removed qt cs (step qt c r)

enqueue_fifo :
    (qt : Qt) (frame : List ℕ) (s : String) (r : HostTxRuntime)
    → pending r ++ accepted qt (enqueues frame s) r ≡ pending (step qt (enqueues frame s) r)
unfolding step
enqueue_fifo qt frame s r = ground (
  arith,
  append-nil (pending r),
  map-append (λ (i : Item). i.frame) r.queue.items
      (record { sequence = r.queue.next_sequence; frame = frame; summary = or_host_frame s } ∷ []),
)

take_fifo :
    (qt : Qt) (n : ℕ) (r : HostTxRuntime) (items : List Item)
    → r.queue.items ≡ items
    → pending r ≡ removed qt (takes n) r ++ pending (step qt (takes n) r)
unfolding step
take_fifo qt n r [] e = ground arith
take_fifo qt n r (i ∷ is) e = ground arith

clear_fifo :
    (qt : Qt) (reason : String) (r : HostTxRuntime) (items : List Item)
    → r.queue.items ≡ items
    → pending r ≡ removed qt (clears reason) r ++ pending (step qt (clears reason) r)
unfolding step
clear_fifo qt reason r [] e = ground arith
clear_fifo qt reason r (i ∷ is) e = ground (arith, append-nil (pending r))

step_fifo :
    (qt : Qt) (c : Call) (r : HostTxRuntime)
    → pending r ++ accepted qt c r ≡ removed qt c r ++ pending (step qt c r)
step_fifo qt (enqueues frame s) r = enqueue_fifo qt frame s r
step_fifo qt (takes n) r = append-nil (pending r) ∙ take_fifo qt n r r.queue.items refl
step_fifo qt marks r = append-nil (pending r) ∙ (unfold step mark_written in refl)
step_fifo qt (clears reason) r = append-nil (pending r) ∙ clear_fifo qt reason r r.queue.items refl

-- Over any calls, the frames that waited at first and then those accepted are, in order, the frames
-- handed out or cleared and then those that still wait: none is lost, doubled or overtaken.
pub run_fifo :
    (qt : Qt) (cs : List Call) (r : HostTxRuntime)
    → pending r ++ all_accepted qt cs r ≡ all_removed qt cs r ++ pending (run qt cs r)
unfolding run
run_fifo qt [] r = append-nil (pending r)
run_fifo qt (c ∷ cs) r =
    let later = all_accepted qt cs (step qt c r) in
    let gone = all_removed qt cs (step qt c r) in
    sym (append_assoc (pending r) (accepted qt c r) later)
    ∙ ap (λ (xs : List (List ℕ)). xs ++ later) (step_fifo qt c r)
    ∙ append_assoc (removed qt c r) (pending (step qt c r)) later
    ∙ ap (λ (xs : List (List ℕ)). removed qt c r ++ xs) (run_fifo qt cs (step qt c r))
    ∙ sym (append_assoc (removed qt c r) gone (pending (run qt cs (step qt c r))))
