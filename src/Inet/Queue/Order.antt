-- ===== src/Inet/Queue/Order.antt =====
-- The messages that a queue holds, in their order, and the operations on it.
use ibchat.Prelude.{
  ℕ, suc, ◌+◌, ◌-◌, ◌%◌, ◌^◌, ◌<◌, ◌≡◌, refl, sym, none, some, List, [], ◌∷◌, ◌++◌, length,
  length-append, ◌==◌, false, arith, success,
}
use ibchat.Inet.Queue.{
  Element, MessageQueue, Heap, write, free, empty_message_queue, message_queue_init,
  message_queue_top, message_queue_pop, take_off, message_queue_push, link_last,
}
use ibchat.Inet.Queue.Linked.{
  Cell, head_of, last_of, IsLinked, differ, same, free-IsLinked, read-last_of, append-IsLinked,
}

abbrev pub tail_of : List Cell → ℕ
tail_of [] = 0
tail_of (c ∷ cs) = (last_of c cs).address

-- The queue consists of the cells `cs` of the heap.
pub record Holds (h : Heap) (q : MessageQueue) (cs : List Cell) : Type 0 where
  pub starts : q.first ≡ head_of cs
  pub ends : q.last ≡ tail_of cs
  pub counted : q.size ≡ length cs
  pub linked : IsLinked h cs

-- A queue that was initialised is empty.
pub message_queue_init-Holds : (h : Heap) (q : MessageQueue) → Holds h (message_queue_init q) []
unfolding message_queue_init empty_message_queue
message_queue_init-Holds h q = record { starts = refl; ends = refl; counted = refl; linked = tt }

tail_of-append : (cs : List Cell) (d : Cell) → tail_of (cs ++ (d ∷ [])) ≡ d.address
tail_of-append [] d = refl
tail_of-append (c ∷ []) d = refl
tail_of-append (c ∷ e ∷ cs) d = tail_of-append (e ∷ cs) d

-- With memory for an element, `message_queue_push` returns 0 and puts the message behind the others
-- of the queue.
pub message_queue_push-Holds :
    (h : Heap) (q : MessageQueue) (cs : List Cell) (a message : ℕ)
    → Holds h q cs
    → h (suc a) ≡ none
    → length cs + 1 < 2 ^ 64
    → (h' : Heap) × (q' : MessageQueue) × (message_queue_push (suc a) message h q
        ≡ some (success, h', q'))
      × Holds h' q' (cs ++ (record { address = suc a; message = message } ∷ []))
unfolding message_queue_push link_last
message_queue_push-Holds h q [] a message held fresh few = (
  write (suc a) (record { m = message; next = 0 }) h,
  record { size = (q.size + 1) % 2 ^ 64; first = suc a; last = suc a },
  rw held.counted refl,
  record {
    starts = refl;
    ends = refl;
    counted = rw held.counted refl;
    linked = (omega arith, rw (same (suc a)) refl, tt, tt);
  },
)
message_queue_push-Holds h q (c ∷ cs) a message held fresh few =
    let d : Cell = record { address = suc a; message = message } in
    let l = last_of c cs in
    let stored = write (suc a) (record { m = message; next = 0 }) h in
    let full : (q.size == 0) ≡ false = ground (arith, held.counted) in
    let apart =
      differ (suc a) l.address (λ e. absurd (cc (read-last_of h c cs held.linked, fresh, e))) in
    let reads : stored q.last ≡ some (record { m = l.message; next = 0 }) =
      rw (held.ends, apart) (read-last_of h c cs held.linked) in
    (
      write l.address (record { m = l.message; next = suc a }) stored,
      record q { size = (q.size + 1) % 2 ^ 64; last = suc a },
      rw (full, reads, message_queue_push, link_last, held.ends) refl,
      record {
        starts = held.starts;
        ends = sym (tail_of-append (c ∷ cs) d);
        counted = omega (arith, held.counted, length-append (c ∷ cs) (d ∷ []));
        linked = append-IsLinked h c d cs held.linked fresh (omega arith);
      },
    )

take_off-Holds :
    (h : Heap) (q : MessageQueue) (c : Cell) (cs : List Cell)
    → Holds h q (c ∷ cs)
    → Holds (free c.address h) (take_off (record { m = c.message; next = head_of cs }) h q).2 cs
unfolding take_off
take_off-Holds h q c [] held = record {
  starts = ground (arith, held.counted);
  ends = ground (arith, held.counted);
  counted = omega (arith, held.counted);
  linked = tt;
}
take_off-Holds h q c (d ∷ cs) held =
    let more : (q.size - 1 == 0) ≡ false = differ (q.size - 1) 0 (omega (arith, held.counted)) in
    record {
      starts = rw more refl;
      ends = rw more held.ends;
      counted = omega (arith, held.counted);
      linked = free-IsLinked h c.address (d ∷ cs) held.linked.2 held.linked.3;
    }

-- `message_queue_pop` gives the message that is first in the queue, frees its element, and the queue
-- holds the others; `message_queue_top` gives the same message.
pub message_queue_pop-Holds :
    (h : Heap) (q : MessageQueue) (c : Cell) (cs : List Cell)
    → Holds h q (c ∷ cs)
    → (q' : MessageQueue) × (message_queue_pop h q ≡ some (c.message, free c.address h, q'))
      × Holds (free c.address h) q' cs
      × (message_queue_top h q ≡ some c.message)
unfolding message_queue_pop message_queue_top take_off
message_queue_pop-Holds h q c cs held =
    let full : (q.size == 0) ≡ false = ground (arith, held.counted) in
    let reads : h q.first ≡ some (record { m = c.message; next = head_of cs }) =
      rw held.starts held.linked.1 in
    let e : Element = record { m = c.message; next = head_of cs } in
    (
      (take_off e h q).2,
      rw (full, reads, held.starts) refl,
      take_off-Holds h q c cs held,
      rw (full, reads) refl,
    )
