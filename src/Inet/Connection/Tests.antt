-- ===== src/Inet/Connection/Tests.antt =====
-- Two connections, with the sample external libraries.
use ibchat.Prelude.{
  ℕ, ◌+◌, ◌≡◌, refl, Bool, true, false, arith, List, [], ◌∷◌, ◌++◌, length, drop, some,
}
use ibchat.External.Samples.{libibur, ibcrypt}
use ibchat.Inet.AckMap.{empty_map, ack_map_add, unlink, ack_map_rm}
use ibchat.Inet.AckMap.Counts.{waiting, empty_map-IsValid, count, count_all}
use ibchat.Inet.Connection.{
  Message, Connection, gettimeofday, send_bytes, read_bytes, remove_ack, acknowledge_add,
  write_acknowledge, write_message, write_loop, write_messages, dispatch, read_message,
}
use ibchat.Inet.Connection.Exchange.{Split, write_messages-Split, exchange}

program : Unit {0}
unfolding libibur ibcrypt ack_map_add unlink ack_map_rm gettimeofday send_bytes read_bytes
    remove_ack acknowledge_add write_acknowledge write_message write_loop write_messages dispatch
    read_message count count_all
program = tt

abbrev memory : ℕ → Bool
memory n = true

abbrev hello : Message
hello = record { seq_num = 5; message = 104 ∷ 105 ∷ [] }

-- A connection with one message to send, whose clock moves by one at each reading.
abbrev alice : Connection
alice = record {
  incoming = [];
  sent = [];
  room = 1000;
  readings = λ n. 100 + n;
  out_queue = hello ∷ [];
  in_queue = [];
  map = empty_map;
  ka_last_recv = 0;
  kill = false;
}

abbrev bob : Connection
bob = record alice { out_queue = [] }

exchange_example :
    (let a₁ = (write_message libibur ibcrypt memory hello [] alice).1 in
      let b₁ =
        (read_message libibur ibcrypt memory
          (record bob { incoming = drop (length alice.sent) a₁.sent })).1 in
      let r =
        read_message libibur ibcrypt memory
          (record a₁ { incoming = drop (length bob.sent) b₁.sent }) in
      (b₁.in_queue ≡ bob.in_queue ++ (hello ∷ []))
      × (b₁.incoming ≡ [])
      × (r.0 ≡ some tt)
      × (waiting 5 r.1.map ≡ waiting 5 alice.map)
      × (r.1.out_queue ≡ []))
unfolding program
exchange_example =
    exchange libibur ibcrypt memory hello [] alice bob 5 (omega arith) (omega arith) (omega arith)
      (omega arith) refl refl refl empty_map-IsValid

write_messages-Split_example :
    (done left : List Message) × Split libibur ibcrypt memory alice done left
      (write_messages libibur ibcrypt memory alice)
unfolding program
write_messages-Split_example =
    write_messages-Split libibur ibcrypt memory alice (omega arith) refl empty_map-IsValid
