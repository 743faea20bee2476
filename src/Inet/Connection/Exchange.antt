-- ===== src/Inet/Connection/Exchange.antt =====
-- Whole runs: draining the outgoing queue, a message with its acknowledgement between two
-- connections.
use ibchat.Prelude.{
  ℕ, ◌+◌, ◌-◌, ◌/◌, ◌%◌, ◌^◌, ◌≤◌, ◌<◌, ◌≡◌, refl, ap, sym, ◌∙◌, Bool, true, Option, some, Bytes,
  List, [], ◌∷◌, ◌++◌, append-nil, length, drop, ltb, ◌==◌, drop-append, length-append,
  append_assoc, if◌then◌else◌, arith, Bool-cases, inl, inr,
}
use ibchat.External.{Libibur, Ibcrypt}
use ibchat.Inet.AckMap.{ack_map_add}
use ibchat.Inet.AckMap.Counts.{IsValid, waiting, ack_map_add-waiting}
use ibchat.Inet.Connection.{
  Message, Connection, gettimeofday, write_message, write_loop, write_messages, read_message,
  ack_waittime,
}
use ibchat.Inet.Connection.Wire.{
  message_frame, ack_frame, write_message-fits, read_message-message_frame, read_message-ack_frame,
}

-- How often a number is sent by the messages.
abbrev pub numbered : ℕ → List Message → ℕ
numbered q [] = 0
numbered q (m ∷ ms) = (if m.seq_num == q then 1 else 0) + numbered q ms

module _ (lib : Libibur) (ib : Ibcrypt) (mem : ℕ → Bool) where
  open lib use {encbe32, decbe32, encbe64, decbe64}
  open ib use {sha256}

  -- The frames of the messages, one after the other.
  abbrev pub frames : List Message → Bytes
  frames [] = []
  frames (m ∷ ms) = message_frame lib ib mem m ++ frames ms

  -- `done` was sent and noted, `left` is still queued.
  pub record Split (c : Connection) (done left : List Message) (r : Option (Unit {0}) × Connection)
      : Type 0 where
    pub returns : r.0 ≡ some tt
    pub whole : c.out_queue ≡ done ++ left
    pub queued : r.1.out_queue ≡ left
    pub wire : r.1.sent ≡ c.sent ++ frames done
    pub valid : IsValid r.1.map
    pub noted : (q : ℕ) → waiting q r.1.map ≡ waiting q c.map + numbered q done

  write_loop-Split :
      (start tv : ℕ) (ms : List Message) (c : Connection)
      → c.out_queue ≡ ms
      → length (frames ms) ≤ c.room
      → mem 24 ≡ true
      → IsValid c.map
      → (done left : List Message) × Split c done left (write_loop lib ib mem start tv ms c)
  unfolding write_loop gettimeofday
  write_loop-Split start tv [] c same fits mem_a v = (
    [],
    [],
    record {
      returns = refl;
      whole = same;
      queued = same;
      wire = sym (append-nil c.sent);
      valid = v;
      noted = λ q. omega arith;
    },
  )
  write_loop-Split start tv (m ∷ ms) c same fits mem_a v =
      elim (Bool-cases (ltb ((tv + 2 ^ 64 - start) % 2 ^ 64) (ack_waittime / 2))) [
        | inl in_time ↦
            let frame = message_frame lib ib mem m in
            let both = length-append frame (frames ms) in
            let c₁ : Connection = record c {
              sent = c.sent ++ frame;
              room = c.room - length frame;
              readings = λ n. c.readings (n + 1 + 1);
              map = (ack_map_add true c.map m.seq_num (c.readings 0)).1;
              out_queue = ms;
            } in
            let (done, left, t) =
              write_loop-Split start (c.readings 1) ms c₁ refl (omega arith) mem_a
                (ack_map_add-waiting true c.map m.seq_num (c.readings 0) 0 v).0 in
            (
              m ∷ done,
              left,
              rw (in_time, write_loop, write_message-fits lib ib mem m ms c (omega arith) mem_a)
                  (record {
                    returns = t.returns;
                    whole = same ∙ ap (λ r. m ∷ r) t.whole;
                    queued = t.queued;
                    wire = t.wire ∙ append_assoc c.sent frame (frames done);
                    valid = t.valid;
                    noted = λ q. omega (
                      arith,
                      t.noted q,
                      (ack_map_add-waiting true c.map m.seq_num (c.readings 0) q v).1,
                    );
                  }),
            )
        | inr late ↦ (
          [],
          m ∷ ms,
          rw (late, write_loop)
              (record {
                returns = refl;
                whole = same;
                queued = same;
                wire = sym (append-nil c.sent);
                valid = v;
                noted = λ q. omega arith;
              }),
        )
      ]

  -- Where the peer takes all bytes, `write_messages` cuts the outgoing queue in two, whatever the
  -- clock shows: the frames of the first part are on the wire in their order and each of its
  -- numbers waits once more for an acknowledgement, and the second part is still queued.
  pub write_messages-Split :
      (c : Connection)
      → length (frames c.out_queue) ≤ c.room
      → mem 24 ≡ true
      → IsValid c.map
      → (done left : List Message) × Split c done left (write_messages lib ib mem c)
  unfolding write_messages gettimeofday
  write_messages-Split c fits mem_a v =
      let c₀ : Connection = record c { readings = λ n. c.readings (n + 1) } in
      let (done, left, t) =
        write_loop-Split (c.readings 0) (c.readings 0) c.out_queue c₀ refl fits mem_a v in
      (
        done,
        left,
        record {
          returns = t.returns;
          whole = t.whole;
          queued = t.queued;
          wire = t.wire;
          valid = t.valid;
          noted = t.noted;
        },
      )

  -- A message that one side writes and the other side reads stands at the end of the reader's
  -- incoming queue, unchanged. When the writer has read the answer, as many elements wait for each
  -- number as before, and the message is off its outgoing queue.
  pub exchange :
      (m : Message) (rest : List Message) (a b : Connection) (q : ℕ)
      → length (message_frame lib ib mem m) ≤ a.room
      → 12 ≤ b.room
      → m.seq_num < 2 ^ 64
      → length m.message < 2 ^ 64
      → mem 24 ≡ true
      → mem (length m.message) ≡ true
      → mem 16 ≡ true
      → IsValid a.map
      → (let a₁ = (write_message lib ib mem m rest a).1 in
          let b₁ =
            (read_message lib ib mem (record b { incoming = drop (length a.sent) a₁.sent })).1 in
          let r = read_message lib ib mem (record a₁ { incoming = drop (length b.sent) b₁.sent }) in
          (b₁.in_queue ≡ b.in_queue ++ (m ∷ []))
          × (b₁.incoming ≡ [])
          × (r.0 ≡ some tt)
          × (waiting q r.1.map ≡ waiting q a.map)
          × (r.1.out_queue ≡ rest))
  exchange m rest a b q fits answer seq len mem_a mem_b mem_q v =
      let frame = message_frame lib ib mem m in
      let ack = ack_frame lib ib mem m.seq_num in
      let added = ack_map_add-waiting true a.map m.seq_num (a.readings 0) in
      let a₂ : Connection = record a {
        incoming = ack;
        sent = a.sent ++ frame;
        room = a.room - length frame;
        readings = λ n. a.readings (n + 1);
        map = (ack_map_add true a.map m.seq_num (a.readings 0)).1;
        out_queue = rest;
      } in
      let (returned, valid, counts, used, inside, outside) =
        read_message-ack_frame lib ib mem m.seq_num q [] a₂ (sym (append-nil ack)) seq (added q v).0
          (ground (arith, (added m.seq_num v).1)) in
      rw
        (
          write_message-fits lib ib mem m rest a fits mem_a,
          drop-append a.sent frame,
          read_message-message_frame lib ib mem m [] (record b { incoming = frame })
              (sym (append-nil frame)) seq len mem_a mem_b mem_q answer,
          drop-append b.sent ack,
        )
        (refl, refl, returned, omega (arith, counts, (added q v).1), outside)
