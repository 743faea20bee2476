-- ===== src/Server/Dispatch/Tests.antt =====
-- A server with one user, who is connected in one state and away in the other, with the sample
-- external libraries.
use ibchat.Prelude.{
  plenty, ℕ, ◌≡◌, refl, none, some, Bytes, List, [], ◌∷◌, ◌++◌, replicate, map, success, true,
  false, arith,
}
use ibchat.External.Samples.{libibur, ibcrypt, rsa}
use ibchat.Buckets.{first}
use ibchat.Stdio.{fread, fwrite, fseek, write_at}
use ibchat.Files.{store, open_old, can_create}
use ibchat.Inet.Connection.{Message}
use ibchat.Crypto.Layer.{Keyset, encrypt_message, decrypt_message, send_message, recv_message}
use ibchat.Server.Undelivered.{
  User, header, undel_path, undel_init_file, add_message, undel_add_message, load_message,
  load_messages, load_file, undel_load,
}
use ibchat.Server.Undelivered.Image.{file_image}
use ibchat.Server.HandlerTable.{
  ClientHandler, HandlerTable, hash_id, get_handler, add_handler, link_handler, init_handler_table,
}
use ibchat.Server.UserDb.{UserDb, init_user_db_st, resize, user_db_get_nolock, user_db_add_no_write}
use ibchat.Server.Dispatch.{
  ServerState, send_on, send_u_notfound, response, pass_on, forward, answer_key, handle_message,
  send_all, send_undelivered,
}
use ibchat.Server.Dispatch.Forward.{addressed, handle_message-online}
use ibchat.Server.Dispatch.Deliver.{received, handle_message-send_undelivered}
use ibchat.Server.Dispatch.Faults.{handle_message-over_read}

program : Unit {0}
unfolding libibur ibcrypt rsa first fread fwrite fseek write_at store open_old can_create
    encrypt_message decrypt_message send_message recv_message header undel_path undel_init_file
    add_message undel_add_message load_message load_messages load_file undel_load file_image hash_id
    get_handler add_handler link_handler init_handler_table init_user_db_st resize
    user_db_get_nolock user_db_add_no_write send_on send_u_notfound response pass_on forward
    answer_key handle_message send_all send_undelivered
program = tt

abbrev bob : User
bob = record { pkey = 5 ∷ 6 ∷ []; uid = replicate 32 8; und_auth = replicate 32 9 }

abbrev alice : ClientHandler
alice = record { fd = 4; id = replicate 32 7; hndl = 100; keys = 200; stop = false }

abbrev bob_online : ClientHandler
bob_online = record { fd = 5; id = replicate 32 8; hndl = 101; keys = 201; stop = false }

abbrev users : UserDb
users =
    elim (user_db_add_no_write libibur ibcrypt true true bob
      (init_user_db_st true (record { buckets = []; size = 0; elements = 0 })).1) [
        | none ↦ record { buckets = []; size = 0; elements = 0 }
        | some r ↦ r.1
      ]

abbrev nobody : HandlerTable
nobody = (init_handler_table true (record { buckets = []; size = 0; elements = 0 })).1

abbrev key : ℕ → Keyset
key a = record {
  nonce = 7;
  send_symm_key = 1 ∷ [];
  recv_symm_key = 2 ∷ [];
  send_hmac_key = 3 ∷ [];
  recv_hmac_key = 4 ∷ [];
}

abbrev client_key : Keyset
client_key = record {
  nonce = 7;
  send_symm_key = 2 ∷ [];
  recv_symm_key = 1 ∷ [];
  send_hmac_key = 4 ∷ [];
  recv_hmac_key = 3 ∷ [];
}

abbrev dir : Bytes
dir = 117 ∷ []

abbrev queues : ℕ → List Message
queues a = []

-- Bob is away.
abbrev away : ServerState
away = record {
  db = users;
  ht = nobody;
  files =
      (undel_init_file libibur ibcrypt plenty dir bob
        (record { file = λ q. none; denied = λ q. false })).1;
  keysets = key;
  outgoing = queues;
}

-- Bob is connected.
abbrev present : ServerState
present = record away { ht = (add_handler libibur ibcrypt true bob_online nobody).1 }

abbrev hello : Bytes
hello = 104 ∷ 105 ∷ []

handle_message-send_undelivered_example :
    (st' : ServerState) × (st'' : ServerState) × (queue : List Message) × (handle_message libibur
        ibcrypt rsa plenty dir
        (addressed libibur ibcrypt rsa dir bob.uid hello)
        alice
        away
      ≡ some (success, st'))
    × (send_undelivered libibur ibcrypt rsa plenty dir bob.uid 101 201 st' ≡ some (success, st''))
    × (st''.outgoing 101 ≡ queues 101 ++ queue)
    × (received libibur ibcrypt rsa dir client_key queue
        ≡ map some ([] ++ (addressed libibur ibcrypt rsa dir alice.id hello ∷ [])))
unfolding program
handle_message-send_undelivered_example =
    handle_message-send_undelivered libibur ibcrypt rsa dir bob.uid hello alice bob away [] 101 201
      client_key refl refl refl refl refl (omega arith) tt (omega arith) refl refl (omega arith)

handle_message-online_example :
    (st' : ServerState) × (m : Message) × (handle_message libibur ibcrypt rsa plenty dir
        (addressed libibur ibcrypt rsa dir bob.uid hello)
        alice
        present
      ≡ some (success, st'))
    × (st'.outgoing 101 ≡ queues 101 ++ (m ∷ []))
    × (recv_message libibur ibcrypt plenty client_key m
        ≡ some (addressed libibur ibcrypt rsa dir alice.id hello))
    × (st'.files ≡ present.files)
unfolding program
handle_message-online_example =
    handle_message-online libibur ibcrypt rsa dir bob.uid hello alice bob present refl (omega arith)
      bob_online client_key refl refl refl refl (omega arith) (omega arith)

-- A message of type 0 to Bob that ends in the middle of the length field.
abbrev cut_off : Bytes
cut_off = 0 ∷ bob.uid ++ (0 ∷ 0 ∷ [])

handle_message-over_read_example :
    handle_message libibur ibcrypt rsa plenty dir cut_off alice away ≡ none
unfolding program
handle_message-over_read_example =
    handle_message-over_read libibur ibcrypt rsa plenty dir cut_off alice away bob (omega arith)
      (omega arith) refl refl
