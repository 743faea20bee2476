-- ===== src/Inet/Queue.antt =====
-- The queue of messages in inet/message.c: a list of elements on the heap, linked by their
-- addresses. A message is its address; 0 is the null pointer.
pub mod Linked
pub mod Order
mod Tests
use ibchat.Prelude.{
  ℕ, zero, suc, ◌+◌, ◌-◌, ◌%◌, ◌^◌, Option, none, some, ◌==◌, if◌then◌else◌, ℤ, success, failure,
}

-- `struct message_queue_element`
pub record Element : Type 0 where
  pub m : ℕ
  pub next : ℕ

-- `struct message_queue`
pub record MessageQueue : Type 0 where
  pub size : ℕ
  pub first : ℕ
  pub last : ℕ

abbrev pub Heap : Type 0
Heap = ℕ → Option Element

abbrev pub write : ℕ → Element → Heap → Heap
write a e h = λ b. if a == b then some e else h b

abbrev pub free : ℕ → Heap → Heap
free a h = λ b. if a == b then none else h b

unfoldable pub empty_message_queue : MessageQueue
empty_message_queue = record { size = 0; first = 0; last = 0 }

unfoldable pub message_queue_init : MessageQueue → MessageQueue
unfolding empty_message_queue
message_queue_init queue = empty_message_queue

-- In the operations `none` is undefined behaviour: an address that holds no element is read.
unfoldable pub message_queue_top : Heap → MessageQueue → Option ℕ
message_queue_top h queue =
    if queue.size == 0 then some 0 else elim (h queue.first) [ none ↦ none | some e ↦ some e.m ]

-- Past the first test: the first element is taken off and freed.
unfoldable pub take_off : Element → Heap → MessageQueue → ℕ × Heap × MessageQueue
take_off e h queue =
    let size = queue.size - 1 in
    let first = if size == 0 then 0 else e.next in
    let last = if size == 0 then 0 else queue.last in
    (e.m, free queue.first h, record { size = size; first = first; last = last })

-- The message with the heap and the queue.
unfoldable pub message_queue_pop : Heap → MessageQueue → Option (ℕ × Heap × MessageQueue)
message_queue_pop h queue =
    if queue.size == 0
    then some (0, h, queue)
    else elim (h queue.first) [ none ↦ none | some e ↦ some (take_off e h queue) ]

-- `next` is linked behind the last element, or is the only one.
unfoldable pub link_last : ℕ → Heap → MessageQueue → Option (ℤ × Heap × MessageQueue)
link_last next h queue =
    let size = (queue.size + 1) % 2 ^ 64 in
    if queue.size == 0
    then some (success, h, record { size = size; first = next; last = next })
    else elim (h queue.last) [
      | none ↦ none
      | some e ↦ some (
        success,
        write queue.last (record e { next = next }) h,
        record queue { size = size; last = next },
      )
    ]

-- The address is the answer of `malloc`.
unfoldable pub message_queue_push : ℕ → ℕ → Heap → MessageQueue → Option (ℤ × Heap × MessageQueue)
message_queue_push zero message h queue = some (failure, h, queue)
message_queue_push (suc a) message h queue =
    link_last (suc a) (write (suc a) (record { m = message; next = 0 }) h) queue
