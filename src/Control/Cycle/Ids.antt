-- ===== src/Control/Cycle/Ids.antt =====
-- The command ids of the worker, and the requests of a burst.
use Prim.Native.String.{String}
use vsm_field_workstation.Prelude.{
  ℕ, suc, ◌+◌, ◌-◌, ◌^◌, ◌≤◌, ◌<◌, ◌≡◌, refl, ap, ◌⊎◌, List, [], ◌∷◌, map, arith, length,
}
use vsm_field_workstation.Foreign.{Qt}
use vsm_field_workstation.Control.Encoder.{ControlCanFrame, build_host_can_tx_request}
use vsm_field_workstation.Control.Cycle.{HostFrameIntent, next_command_id, request_loop}

-- The worker's ids stand apart from those of the operator's own requests, which are below 2^31: for
-- every 32-bit counter the next id is above 2^31, but for the last counter, whose next id is 0.
pub next_command_id-range :
    (counter : ℕ)
    → counter < 2 ^ 32
    → ((counter < 2 ^ 32 - 1)
        × ((2 ^ 31 < next_command_id counter) × (next_command_id counter < 2 ^ 32)))
      ⊎ ((counter ≡ 2 ^ 32 - 1) × (next_command_id counter ≡ 0))
unfolding next_command_id
next_command_id-range counter h = ground arith

pub next_command_id-suc :
    (counter : ℕ) → 2 ^ 31 ≤ counter → counter + 1 < 2 ^ 32 → next_command_id counter ≡ suc counter
unfolding next_command_id
next_command_id-suc counter low high = ground arith

-- The encoded requests of these frames, numbered from `id` on.
abbrev pub numbered : ℕ → List ControlCanFrame → List (List ℕ)
numbered id [] = []
numbered id (frame ∷ frames) = build_host_can_tx_request id frame ∷ numbered (suc id) frames

abbrev pub frame_of : HostFrameIntent → List ℕ
frame_of intent = intent.frame

-- A burst whose ids do not wrap is queued whole and in order, with consecutive ids after the counter,
-- and the counter ends at the last of them.
pub request_loop-numbered :
    (qt : Qt) (reason : String) (frames : List ControlCanFrame) (counter : ℕ)
    → 2 ^ 31 ≤ counter
    → counter + length frames < 2 ^ 32
    → (map frame_of (request_loop qt reason frames counter).0 ≡ numbered (suc counter) frames)
      × ((request_loop qt reason frames counter).1 ≡ counter + length frames)
unfolding request_loop
request_loop-numbered qt reason [] counter low high = (refl, omega arith)
request_loop-numbered qt reason (frame ∷ frames) counter low high =
    let e = next_command_id-suc counter low (omega arith) in
    let (same, last) =
      request_loop-numbered qt reason frames (suc counter) (omega arith) (omega arith) in
    rw e (ap (λ xs. build_host_can_tx_request (suc counter) frame ∷ xs) same, ground (arith, last))
