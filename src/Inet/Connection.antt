-- ===== src/Inet/Connection.antt =====
-- The connection thread of inet/protocol.c: writing the messages of the outgoing queue to the
-- socket and reading one frame from it. The socket is what has arrived, what was sent, and how many
-- more bytes the peer takes before the time limit of a write is over; the clock is any sequence of
-- readings. Readings that only bound how long one transfer may take are not modelled.
pub mod Wire
pub mod Exchange
pub mod Refusals
mod Tests
use ibchat.Prelude.{
  ℕ, ◌+◌, ◌-◌, ◌/◌, ◌%◌, ◌^◌, Bool, true, false, ◌&&◌, Option, none, some, Bytes, bytes_eq, List,
  [], ◌∷◌, ◌++◌, length, take, drop, ltb, leb, ◌==◌, if◌then◌else◌, ℤ, pos, negsuc, success,
  failure, Fallible, pure, guard, modify, ◌>>=◌, ◌>>◌,
}
use ibchat.External.{Libibur, Ibcrypt}
use ibchat.Inet.AckMap.{AckMap, ack_map_add, ack_map_rm, overdue}

-- `struct message`; its length is that of its bytes.
pub record Message : Type 0 where
  pub seq_num : ℕ
  pub message : Bytes

-- `struct con_handle` with the thread's map, the socket and the clock.
pub record Connection : Type 0 where
  pub incoming : Bytes
  pub sent : Bytes
  pub room : ℕ
  pub readings : ℕ → ℕ
  pub out_queue : List Message
  pub in_queue : List Message
  pub map : AckMap
  pub ka_last_recv : ℕ
  pub kill : Bool

abbrev pub Con : Type 0 → Type 0
Con A = Fallible Connection A

-- ACK_WAITTIME, in microseconds
abbrev pub ack_waittime : ℕ
ack_waittime = 100_000_000

-- utime of gettimeofday; the next reading is another one
unfoldable pub gettimeofday : Con ℕ
gettimeofday c = (some (c.readings 0), record c { readings = λ n. c.readings (n + 1) })

-- written = send_bytes(...); IO_CHECK(written, len);
unfoldable pub send_bytes : Bytes → Con (Unit {0})
send_bytes buf c =
    if leb (length buf) c.room
    then (some tt, record c { sent = c.sent ++ buf; room = c.room - length buf })
    else (none, record c { sent = c.sent ++ take c.room buf; room = 0 })

-- received = read_bytes(...); IO_CHECK(received, len);
unfoldable pub read_bytes : ℕ → Con Bytes
read_bytes len c =
    if leb len (length c.incoming)
    then (some (take len c.incoming), record c { incoming = drop len c.incoming })
    else (none, record c { incoming = [] })

-- The effect of a call that returns a code: -1 jumps to the error label.
abbrev pub checked : ℤ × AckMap → Con (Unit {0})
checked (negsuc n, map) c = (none, c)
checked (pos n, map) c = (some tt, record c { map = map })

unfoldable pub remove_ack : ℕ → Con (Unit {0})
remove_ack seq_num c = checked (ack_map_rm c.map seq_num) c

-- `mem n` is the allocator's answer to a request for `n` bytes.
module _ (lib : Libibur) (ib : Ibcrypt) (mem : ℕ → Bool) where
  open lib use {encbe32, decbe32, encbe64, decbe64}
  open ib use {sha256}

  unfoldable pub acknowledge_add : ℕ → Con (Unit {0})
  acknowledge_add seq_num = do
    now ← gettimeofday
    λ c. checked (ack_map_add (mem 24) c.map seq_num now) c

  unfoldable pub write_keepalive : Con (Unit {0})
  write_keepalive = send_bytes (encbe32 3)

  unfoldable pub write_acknowledge : ℕ → Con (Unit {0})
  write_acknowledge seq_num = do send_bytes (encbe32 1); send_bytes (encbe64 seq_num)

  -- One round of the loop of `write_messages`; the message leaves the queue at its end.
  unfoldable pub write_message : Message → List Message → Con (Unit {0})
  write_message m rest = do
    send_bytes (encbe32 2)
    send_bytes (encbe64 m.seq_num)
    send_bytes (encbe64 (length m.message))
    send_bytes m.message
    send_bytes (sha256 m.message)
    acknowledge_add m.seq_num
    modify (λ c. record c { out_queue = rest })

  -- while(out_queue.size > 0 && utime(tv) - start < ACK_WAITTIME / 2)
  unfoldable pub write_loop : ℕ → ℕ → List Message → Con (Unit {0})
  write_loop start tv [] = pure tt
  write_loop start tv (m ∷ rest) = elim (ltb ((tv + 2 ^ 64 - start) % 2 ^ 64) (ack_waittime / 2)) [
    | false ↦ pure tt
    | true ↦ do write_message m rest; tv' ← gettimeofday; write_loop start tv' rest
  ]

  unfoldable pub write_messages : Con (Unit {0})
  write_messages = do start ← gettimeofday; λ c. write_loop start start c.out_queue c

  read_ack : Con (Unit {0})
  read_ack = do buf ← read_bytes 8; remove_ack (decbe64 buf)

  read_ka : Con (Unit {0})
  read_ka = do now ← gettimeofday; modify (λ c. record c { ka_last_recv = now })

  read_new : Con (Unit {0})
  read_new = do
    seq_buf ← read_bytes 8
    len_buf ← read_bytes 8
    guard (mem 24 && mem (decbe64 len_buf))
    message ← read_bytes (decbe64 len_buf)
    hash1 ← read_bytes 32
    guard (bytes_eq hash1 (sha256 message))
    guard (mem 16)
    modify (λ c. record c {
      in_queue = c.in_queue ++ (record { seq_num = decbe64 seq_buf; message = message } ∷ []);
    })
    write_acknowledge (decbe64 seq_buf)

  -- The cases of the switch on the type of a frame.
  unfoldable pub dispatch : ℕ → Con (Unit {0})
  unfolding read_ack read_ka read_new
  dispatch type =
      if type == 1
      then read_ack
      else if type == 3
      then read_ka
      else if type == 2
      then read_new
      else guard false

  unfoldable pub read_message : Con (Unit {0})
  read_message = do type_buf ← read_bytes 4; dispatch (decbe32 type_buf)
