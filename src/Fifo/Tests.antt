-- ===== src/Fifo/Tests.antt =====
-- The queue of three slots.
use methylenix.Base.{ℕ, ◌≡◌, refl, arith, some, List, [], ◌∷◌, Returns}
use methylenix.Fifo.{Fifo, claim, next_pointer, dequeue}
use methylenix.Fifo.Items.{IsFifo}
use methylenix.Fifo.Refine.{
  Operation, enqueuing, dequeuing, answers, queue_answers, Early, answers-queue,
  dequeue_before_store,
}

abbrev three_slots : Fifo ℕ
three_slots = record { buf = λ i. 0; read_pointer = 0; write_pointer = 0; size = 3 }

three_slots-IsFifo : IsFifo three_slots
three_slots-IsFifo = record { reads = omega arith; writes = omega arith; small = omega arith }

abbrev calls : List (Operation ℕ)
calls =
    enqueuing 7
    ∷ enqueuing 8
    ∷ enqueuing 9
    ∷ dequeuing
    ∷ enqueuing 9
    ∷ dequeuing
    ∷ dequeuing
    ∷ dequeuing
    ∷ []

answers-queue_example : answers calls three_slots ≡ some (queue_answers 2 calls [])
answers-queue_example = answers-queue calls three_slots three_slots-IsFifo

first_claim : claim three_slots ≡ some (0, record three_slots { write_pointer = 1 })
unfolding claim next_pointer
first_claim = refl

dequeue_before_store_example :
    Returns (Early 0 0 5) (dequeue (record three_slots { write_pointer = 1 }))
dequeue_before_store_example =
    dequeue_before_store three_slots (record three_slots { write_pointer = 1 }) 0 5
      three_slots-IsFifo refl first_claim
