-- ===== src/HostTx/Tests.antt =====
-- Examples of the transmit queue on concrete calls.
use vsm_field_workstation.Prelude.{◌≡◌, List, [], ◌∷◌, ◌++◌}
use vsm_field_workstation.Foreign.Samples.{plain_text}
use vsm_field_workstation.HostTx.{
  HostTxRuntime, new_queue, Call, enqueues, takes, marks, clears, run,
}
use vsm_field_workstation.HostTx.Invariant.{IsValid, run-new_queue-IsValid}
use vsm_field_workstation.HostTx.Fifo.{pending, all_accepted, all_removed, run_fifo}

abbrev some_calls : List Call
some_calls =
    enqueues (1 ∷ 2 ∷ []) "a"
    ∷ enqueues (3 ∷ []) ""
    ∷ takes 0
    ∷ marks
    ∷ enqueues [] "c"
    ∷ clears "stop"
    ∷ []

run-new_queue-IsValid_example :
    IsValid
      (run plain_text some_calls (record { queue = new_queue 2 3; max_in_flight_bytes = 64 })).queue
run-new_queue-IsValid_example = run-new_queue-IsValid plain_text some_calls 2 3 64

abbrev small : HostTxRuntime
small = record { queue = new_queue 2 3; max_in_flight_bytes = 64 }

run_fifo_example :
    pending small ++ all_accepted plain_text some_calls small
    ≡ all_removed plain_text some_calls small ++ pending (run plain_text some_calls small)
run_fifo_example = run_fifo plain_text some_calls small
