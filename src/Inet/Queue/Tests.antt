-- ===== src/Inet/Queue/Tests.antt =====
-- Two messages at the addresses 100 and 200 through an empty queue.
use ibchat.Prelude.{◌≡◌, refl, none, some, [], ◌∷◌, arith}
use ibchat.Inet.Queue.{
  MessageQueue, Heap, write, free, empty_message_queue, message_queue_init, message_queue_top,
  message_queue_pop, take_off, message_queue_push, link_last,
}
use ibchat.Inet.Queue.Order.{Holds, message_queue_pop-Holds}

program : Unit {0}
unfolding empty_message_queue message_queue_init message_queue_top message_queue_pop take_off
    message_queue_push link_last
program = tt

abbrev blank : Heap
blank a = none

abbrev unset : MessageQueue
unset = record { size = 9; first = 9; last = 9 }

abbrev empty : MessageQueue
empty = message_queue_init unset

abbrev one_heap : Heap
one_heap = write 5 (record { m = 100; next = 0 }) blank

abbrev one : MessageQueue
one = record { size = 1; first = 5; last = 5 }

one-Holds : Holds one_heap one (record { address = 5; message = 100 } ∷ [])
one-Holds = record {
  starts = refl;
  ends = refl;
  counted = refl;
  linked = (omega arith, refl, tt, tt);
}

message_queue_pop-Holds_example :
    (q' : MessageQueue) × (message_queue_pop one_heap one ≡ some (100, free 5 one_heap, q'))
    × Holds (free 5 one_heap) q' []
    × (message_queue_top one_heap one ≡ some 100)
message_queue_pop-Holds_example =
    message_queue_pop-Holds one_heap one (record { address = 5; message = 100 }) [] one-Holds

-- Two messages come out in the order in which they went in.
first_in_first_out :
    (elim (message_queue_push 6 200 one_heap one) [
      | none ↦ none
      | some r ↦ elim (message_queue_pop r.1 r.2) [
        | none ↦ none
        | some s ↦ message_queue_top s.1 s.2
      ]
    ])
    ≡ some 200
unfolding program
first_in_first_out = refl
