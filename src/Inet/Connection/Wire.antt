-- ===== src/Inet/Connection/Wire.antt =====
-- The frames on the wire, and one operation of the thread against one frame.
use ibchat.Prelude.{
  ℕ, ◌+◌, ◌-◌, ◌^◌, ◌≤◌, ◌<◌, ◌≡◌, refl, ◌∙◌, Bool, true, some, Bytes, bytes_eq_refl, List, [], ◌∷◌,
  ◌++◌, length, ◌==◌, take-append_eq, drop-append_eq, length-append, append_assoc, if◌then◌else◌,
  arith,
}
use ibchat.External.{Libibur, Ibcrypt}
use ibchat.Inet.AckMap.{ack_map_add}
use ibchat.Inet.AckMap.Counts.{IsValid, waiting, ack_map_rm-waiting}
use ibchat.Inet.Connection.{
  Message, Connection, gettimeofday, send_bytes, read_bytes, checked, remove_ack, acknowledge_add,
  write_acknowledge, write_message, read_message, dispatch,
}

-- Reading the bytes that stand first.
pub read_bytes-append :
    (n : ℕ) (chunk rest : Bytes) (c : Connection)
    → c.incoming ≡ chunk ++ rest
    → length chunk ≡ n
    → read_bytes n c ≡ (some chunk, record c { incoming = rest })
unfolding read_bytes
read_bytes-append n chunk rest c stands size =
    rw
      (
        stands,
        length-append chunk rest,
        take-append_eq n chunk rest size,
        drop-append_eq n chunk rest size,
      )
      (ground arith)

pub send_bytes-fits :
    (buf : Bytes) (c : Connection)
    → length buf ≤ c.room
    → send_bytes buf c ≡ (some tt, record c { sent = c.sent ++ buf; room = c.room - length buf })
unfolding send_bytes
send_bytes-fits buf c fits = ground arith

module _ (lib : Libibur) (ib : Ibcrypt) (mem : ℕ → Bool) where
  open lib use {encbe32, decbe32, encbe64, decbe64}
  open ib use {sha256}

  -- The frames of inet/message_protocol.txt.
  abbrev pub message_frame : Message → Bytes
  message_frame m =
      encbe32 2
      ++ (encbe64 m.seq_num ++ (encbe64 (length m.message) ++ (m.message ++ sha256 m.message)))

  abbrev pub ack_frame : ℕ → Bytes
  ack_frame seq_num = encbe32 1 ++ encbe64 seq_num

  write_acknowledge-fits :
      (n : ℕ) (c : Connection)
      → 12 ≤ c.room
      → write_acknowledge lib ib mem n c
        ≡ (some tt, record c { sent = c.sent ++ ack_frame n; room = c.room - 12 })
  unfolding write_acknowledge
  write_acknowledge-fits n c fits =
      let four = lib.length-encbe32 1 in
      let eight = lib.length-encbe64 n in
      let c₁ : Connection = record c {
        sent = c.sent ++ encbe32 1;
        room = c.room - length (encbe32 1);
      } in
      let left : c.room - length (encbe32 1) - length (encbe64 n) ≡ c.room - 12 = omega arith in
      rw (
        send_bytes-fits (encbe32 1) c (omega arith),
        send_bytes-fits (encbe64 n) c₁ (omega arith),
        left,
        append_assoc,
      )

  -- A message frame that arrives whole is put at the end of the incoming queue and is
  -- acknowledged; nothing after the frame is consumed.
  pub read_message-message_frame :
      (m : Message) (rest : Bytes) (c : Connection)
      → c.incoming ≡ message_frame m ++ rest
      → m.seq_num < 2 ^ 64
      → length m.message < 2 ^ 64
      → mem 24 ≡ true
      → mem (length m.message) ≡ true
      → mem 16 ≡ true
      → 12 ≤ c.room
      → read_message lib ib mem c ≡ (
        some tt,
        record c {
          incoming = rest;
          in_queue = c.in_queue ++ (m ∷ []);
          sent = c.sent ++ ack_frame m.seq_num;
          room = c.room - 12;
        },
      )
  unfolding read_message dispatch
  read_message-message_frame m rest c arrived seq len mem_m mem_b mem_q fits =
      let size = encbe64 (length m.message) in
      let mac = sha256 m.message in
      let r₃ = m.message ++ (mac ++ rest) in
      let r₂ = size ++ r₃ in
      let r₁ = encbe64 m.seq_num ++ r₂ in
      let stands : c.incoming ≡ encbe32 2 ++ r₁ = arrived ∙ simp append_assoc in
      let at = λ (b : Bytes). record c { incoming = b } in
      rw
        (
          read_bytes-append 4 (encbe32 2) r₁ c stands (lib.length-encbe32 2),
          lib.decbe32-encbe32 2 (omega arith),
          read_bytes-append 8 (encbe64 m.seq_num) r₂ (at r₁) refl (lib.length-encbe64 m.seq_num),
          read_bytes-append 8 size r₃ (at r₂) refl (lib.length-encbe64 (length m.message)),
          lib.decbe64-encbe64 (length m.message) len,
          mem_m,
          mem_b,
          read_bytes-append (length m.message) m.message (mac ++ rest) (at r₃) refl refl,
          read_bytes-append 32 mac rest (at (mac ++ rest)) refl (ib.length-sha256 m.message),
          bytes_eq_refl mac,
          mem_q,
          lib.decbe64-encbe64 m.seq_num seq,
        )
        (write_acknowledge-fits m.seq_num
          (record c { incoming = rest; in_queue = c.in_queue ++ (m ∷ []) }) fits)

  pub length-message_frame : (m : Message) → length (message_frame m) ≡ 52 + length m.message
  length-message_frame m =
      rw
        (
          length-append (encbe32 2),
          length-append (encbe64 m.seq_num),
          length-append (encbe64 (length m.message)),
          length-append m.message,
          lib.length-encbe32,
          lib.length-encbe64 m.seq_num,
          lib.length-encbe64 (length m.message),
          ib.length-sha256,
        )
        (omega arith)

  -- Writing one message sends its frame, notes its number with the time, and takes it off the
  -- queue.
  pub write_message-fits :
      (m : Message) (rest : List Message) (c : Connection)
      → length (message_frame m) ≤ c.room
      → mem 24 ≡ true
      → write_message lib ib mem m rest c ≡ (
        some tt,
        record c {
          sent = c.sent ++ message_frame m;
          room = c.room - length (message_frame m);
          readings = λ n. c.readings (n + 1);
          map = (ack_map_add true c.map m.seq_num (c.readings 0)).1;
          out_queue = rest;
        },
      )
  unfolding write_message acknowledge_add gettimeofday ack_map_add
  write_message-fits m rest c fits mem_a =
      let type = encbe32 2 in
      let seq = encbe64 m.seq_num in
      let size = encbe64 (length m.message) in
      let mac = sha256 m.message in
      let l₁ = lib.length-encbe32 2 in
      let l₂ = lib.length-encbe64 m.seq_num in
      let l₃ = lib.length-encbe64 (length m.message) in
      let l₅ = ib.length-sha256 m.message in
      let total = length-message_frame m in
      let c₁ : Connection = record c { sent = c.sent ++ type; room = c.room - length type } in
      let c₂ : Connection = record c₁ { sent = c₁.sent ++ seq; room = c₁.room - length seq } in
      let c₃ : Connection = record c₂ { sent = c₂.sent ++ size; room = c₂.room - length size } in
      let c₄ : Connection = record c₃ {
        sent = c₃.sent ++ m.message;
        room = c₃.room - length m.message;
      } in
      let left : c₄.room - length mac ≡ c.room - length (message_frame m) = omega arith in
      let joined : c₄.sent ++ mac ≡ c.sent ++ message_frame m = simp append_assoc in
      rw (
        send_bytes-fits type c (omega arith),
        send_bytes-fits seq c₁ (omega arith),
        send_bytes-fits size c₂ (omega arith),
        send_bytes-fits m.message c₃ (omega arith),
        send_bytes-fits mac c₄ (omega arith),
        mem_a,
        left,
        joined,
      )

  -- An acknowledgement of a number that waits takes one element for it off the map and leaves the
  -- queues as they are.
  pub read_message-ack_frame :
      (n q : ℕ) (rest : Bytes) (c : Connection)
      → c.incoming ≡ ack_frame n ++ rest
      → n < 2 ^ 64
      → IsValid c.map
      → 0 < waiting n c.map
      → (let r = read_message lib ib mem c in
          (r.0 ≡ some tt)
          × IsValid r.1.map
          × (waiting q r.1.map + (if n == q then 1 else 0) ≡ waiting q c.map)
          × (r.1.incoming ≡ rest)
          × (r.1.in_queue ≡ c.in_queue)
          × (r.1.out_queue ≡ c.out_queue))
  unfolding read_message dispatch remove_ack
  read_message-ack_frame n q rest c arrived small valid waits =
      let stands : c.incoming ≡ encbe32 1 ++ (encbe64 n ++ rest) =
        arrived ∙ append_assoc (encbe32 1) (encbe64 n) rest in
      let (done, v, counts) = ack_map_rm-waiting c.map n q valid waits in
      rw
        (
          read_bytes-append 4 (encbe32 1) (encbe64 n ++ rest) c stands (lib.length-encbe32 1),
          lib.decbe32-encbe32 1 (omega arith),
          read_bytes-append 8 (encbe64 n) rest (record c { incoming = encbe64 n ++ rest }) refl
              (lib.length-encbe64 n),
          lib.decbe64-encbe64 n small,
          done,
          checked,
        )
        (refl, v, counts, refl, refl, refl)
