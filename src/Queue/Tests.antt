-- ===== src/Queue/Tests.antt =====
-- Two messages through a queue, while the other thread waits.
use serialmux.Prelude.{ℕ, ◌≡◌, refl, List, [], ◌∷◌, ◌++◌, arith}
use serialmux.Queue.{new_queue}
use serialmux.Queue.Fifo.{Op, pushes, begins_pop, finishes_pop, ops, pushed, IsAwake, ops_fifo}

abbrev calls : List (Op ℕ)
calls = begins_pop ∷ pushes 7 ∷ pushes 8 ∷ finishes_pop ∷ []

new_queue-IsAwake : IsAwake {A = ℕ} new_queue
unfolding new_queue
new_queue-IsAwake = λ e. refl

ops_fifo_example :
    ((ops calls new_queue).1 ++ (ops calls new_queue).0.items ≡ new_queue.items ++ pushed calls)
    × IsAwake (ops calls new_queue).0
ops_fifo_example = ops_fifo calls new_queue (omega arith) new_queue-IsAwake
