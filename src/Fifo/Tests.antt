-- ===== src/Fifo/Tests.antt =====
-- Runs of the queue, with semaphores that count.
use patriots_rtes.Prelude.{ℕ, ◌≡◌, refl, [], ◌∷◌, pos, arith}
use patriots_rtes.Config.{none_index}
use patriots_rtes.Platform.{counting}
use patriots_rtes.World.{FifoQueueGestor}
use patriots_rtes.Fifo.{init_queue, request_def_index, set_read_blk, granted}
use patriots_rtes.Fifo.Requests.{Restored, request_launch_return, request_launch_return-Restored}
use patriots_rtes.Fifo.Refinement.{Represents, init_queue-Represents, take_free-Represents}
use patriots_rtes.Fifo.Protocol.{
  owning, lock_request, request, System, Reach, start, later, pick, pass,
}
use patriots_rtes.Fifo.Safety.{Partition, RunsClean, index-Partition, no_fault, head_always_empty}

abbrev new_queue : FifoQueueGestor ℕ
new_queue = init_queue (λ i. pos 9)

-- The queue with index 0 taken.
abbrev one_taken : FifoQueueGestor ℕ
one_taken = record new_queue { free_index = new_queue.next 0 }

one_taken-Represents : Represents one_taken (1 ∷ 2 ∷ 3 ∷ []) []
one_taken-Represents =
    (take_free-Represents new_queue (1 ∷ 2 ∷ 3 ∷ []) [] 0 (init_queue-Represents (λ i. pos 9))).1

-- The same with a blocked reader.
abbrev with_reader : FifoQueueGestor ℕ
with_reader = set_read_blk one_taken 1

with_reader-Represents : Represents with_reader (1 ∷ 2 ∷ 3 ∷ []) []
with_reader-Represents = ground (arith, one_taken-Represents)

-- A state with a proof that two threads can reach it.
record Run : Type 0 where
  last : System ℕ
  reach : Reach 2 last

-- Thread 0 stands in `request_def_index`.
asked : Run
unfolding init_queue
asked = record {
  last = _;
  reach = later (start (λ i. pos 9)) (pick 0 (omega arith) (lock_request refl));
}

-- Thread 0 has index 0 and passes it to thread 1.
passed : Run
unfolding asked request_def_index
passed = record {
  last = _;
  reach =
      later (later asked.reach (pick 0 (omega arith) (request {a = granted (pos 0)} refl)))
        (pass 0 1 (omega arith) (omega arith) refl refl);
}

passed_owner : passed.last.pc 1 ≡ owning (pos 0)
unfolding passed
passed_owner = refl

index-Partition_example : Partition 2 passed.last
index-Partition_example = index-Partition passed.reach

no_fault_example : RunsClean asked.last.gestor (asked.last.pc 0)
no_fault_example = no_fault asked.reach 0 (omega arith)

head_always_empty_example : asked.last.gestor.head_index ≡ none_index
unfolding asked
head_always_empty_example = head_always_empty asked.reach 0 (omega arith) refl

request_launch_return-Restored_example :
    Restored with_reader (1 ∷ 2 ∷ 3 ∷ []) [] (request_launch_return with_reader)
request_launch_return-Restored_example =
    request_launch_return-Restored with_reader 1 (2 ∷ 3 ∷ []) with_reader-Represents (omega arith)
