-- ===== src/Ring/Spsc/Tests.antt =====
-- Runs of the ring, and its theorems at concrete schedules.
use edgeflow_energy_gateway.Common.{
  ℕ, ◌+◌, ◌%◌, ◌^◌, ◌≤◌, ◌≡◌, ◌≢◌, refl, true, false, none, some, List, [], ◌∷◌, ◌++◌, arith,
  length, replicate, take,
}
use edgeflow_energy_gateway.Ring.{spsc_ring_init, spsc_ring_destroy, spsc_ring_push}
use edgeflow_energy_gateway.Ring.Spsc.{System, Turn, produce, consume, run, start}
use edgeflow_energy_gateway.Ring.Spsc.Fifo.{fifo_under_any_schedule, no_data_race}
use edgeflow_energy_gateway.Ring.Spsc.Whole.{ring_of}
use edgeflow_energy_gateway.Ring.Calls.{Call, Answer, ring_calls, queue_calls}
use edgeflow_energy_gateway.Ring.Queue.{calls-queue_calls}

-- 1 is pushed; the consumer has loaded both indices; a push of 2 has too.
abbrev midway : List (Turn ℕ)
midway = replicate 4 (produce 1) ++ (replicate 2 consume ++ replicate 2 (produce 2))

abbrev fresh : System ℕ
fresh = start (replicate 3 0) 3

midway-delivered : (run 0 fresh (midway ++ replicate 6 consume)).delivered ≡ 1 ∷ []
unfolding run
midway-delivered = refl

-- A ring of three slots holds two points.
third_push_refused :
    let r = run 0 fresh (replicate 11 (produce 7)) in (r.accepted ≡ 7 ∷ 7 ∷ []) × (r.dropped ≡ 1)
unfolding run
third_push_refused = (refl, refl)

push_after_destroy :
    spsc_ring_push (spsc_ring_destroy (ring_of fresh)) 5
    ≡ (record { buf = none; size = 0; head = 0; tail = 0; dropped = 0 }, false)
unfolding spsc_ring_push spsc_ring_destroy
push_after_destroy = refl

fifo_under_any_schedule_example :
    let s = run 0 fresh midway in
    (s.delivered ≡ take (length s.delivered) s.accepted)
    × (length s.accepted ≤ length s.delivered + 2)
    × (s.dropped ≡ s.refused % 2 ^ 32)
fifo_under_any_schedule_example = fifo_under_any_schedule 0 3 midway (omega arith) (omega arith)

no_data_race_example : ◌≢◌ {A = ℕ} 1 0
unfolding run
no_data_race_example =
    no_data_race 0 3 midway 2 1 0 0 1 (omega arith) (omega arith) refl refl (omega arith)

-- A ring of three slots: the third push is refused.
abbrev calls : List (Call ℕ)
calls =
    Call.push 4
    ∷ Call.push 5
    ∷ Call.push 6
    ∷ Call.count
    ∷ Call.pop
    ∷ Call.push 7
    ∷ Call.pop
    ∷ Call.dropped
    ∷ []

abbrev answers : List (Answer ℕ)
answers =
    Answer.taken true
    ∷ Answer.taken true
    ∷ Answer.taken false
    ∷ Answer.number 2
    ∷ Answer.given (some 4)
    ∷ Answer.taken true
    ∷ Answer.given (some 5)
    ∷ Answer.number 1
    ∷ []

answered : queue_calls 2 [] 0 calls ≡ answers
answered = refl

calls-queue_calls_example : ring_calls 0 (ring_of fresh) calls ≡ queue_calls 2 [] 0 calls
unfolding spsc_ring_init
calls-queue_calls_example = calls-queue_calls 0 true 3 calls (omega arith) refl
