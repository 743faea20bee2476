-- ===== src/Server/Dispatch.antt =====
-- What the server does with a message of a client, in server/client_handler.c: it passes it to
-- another client, keeps it for a user who is away, or answers a request for a public key.
pub mod Forward
pub mod Deliver
pub mod Faults
mod Tests
use ibchat.Prelude.{
  ℕ, zero, suc, ◌+◌, ◌%◌, ◌^◌, Bool, true, false, Option, none, some, Bytes, List, [], ◌∷◌, ◌++◌,
  ◌==◌, length, take, drop, get_or, ltb, if◌then◌else◌, ℤ, pos, negsuc, success, failure,
}
use ibchat.External.{Libibur, Ibcrypt, Rsa}
use ibchat.Files.{Files}
use ibchat.Inet.Connection.{Message}
use ibchat.Crypto.Layer.{Keyset, send_message}
use ibchat.Server.Undelivered.{User, undel_add_message, undel_load}
use ibchat.Server.HandlerTable.{ClientHandler, HandlerTable, get_handler}
use ibchat.Server.UserDb.{UserDb, user_db_get_nolock}

-- What the handlers' threads share. Connections and key sets are found by their addresses, and of
-- a connection only its outgoing queue matters here.
pub record ServerState : Type 0 where
  pub db : UserDb
  pub ht : HandlerTable
  pub files : Files
  pub keysets : ℕ → Keyset
  pub outgoing : ℕ → List Message

abbrev pub set_keys : ℕ → Keyset → ServerState → ServerState
set_keys a k st = record st { keysets = λ b. if a == b then k else st.keysets b }

abbrev pub set_outgoing : ℕ → List Message → ServerState → ServerState
set_outgoing a queue st = record st { outgoing = λ b. if a == b then queue else st.outgoing b }

-- if(send_message(...) != 0) return -1; ... return 0;
abbrev pub sent_to : ℕ → ℕ → ServerState → ℤ × Keyset × List Message → ℤ × ServerState
sent_to hndl keys st (pos zero, k, queue) = (success, set_outgoing hndl queue (set_keys keys k st))
sent_to hndl keys st (pos (suc n), k, queue) =
    (failure, set_outgoing hndl queue (set_keys keys k st))
sent_to hndl keys st (negsuc n, k, queue) = (failure, set_outgoing hndl queue (set_keys keys k st))

-- if(undel_add_message(...) != 0) return -1; ... return 0;
abbrev pub kept_in : ServerState → ℤ × Files → ℤ × ServerState
kept_in st (pos zero, fs) = (success, record st { files = fs })
kept_in st (pos (suc n), fs) = (failure, record st { files = fs })
kept_in st (negsuc n, fs) = (failure, record st { files = fs })

-- `mem n` is the allocator's answer to a request for `n` bytes, `undel_dir` the string UNDEL_DIR.
-- Where a result is an option, `none` is undefined behaviour.
module _ (lib : Libibur) (ib : Ibcrypt) (rsa : Rsa) (mem : ℕ → Bool) (undel_dir : Bytes) where
  open lib use {encbe64, decbe64}

  -- `send_message` on a connection and a key set of the server.
  unfoldable pub send_on : ℕ → ℕ → Bytes → ServerState → ℤ × ServerState
  send_on hndl keys ptext st =
      sent_to hndl keys st (send_message lib ib mem (st.keysets keys) ptext (st.outgoing hndl))

  unfoldable pub send_u_notfound : ClientHandler → Bytes → ServerState → ℤ × ServerState
  send_u_notfound c uid st = if mem 33 then send_on c.hndl c.keys (0xff ∷ uid) st else (failure, st)

  -- The message that the target gets: the sender's id in place of the target's.
  unfoldable pub response : ClientHandler → Bytes → ℕ → Bytes
  response c m payloadlen = 0 ∷ c.id ++ (encbe64 payloadlen ++ take payloadlen (drop 0x29 m))

  -- Past the check of the length: to the target's connection, or to the target's file.
  unfoldable pub pass_on : User → Bytes → Bytes → ServerState → Option (ℤ × ServerState)
  pass_on u uid resp st = elim (get_handler lib ib st.ht uid) [
    | some t ↦ some (send_on t.hndl t.keys resp st)
    | none ↦ elim (undel_add_message lib ib mem undel_dir u resp st.files) [
      | none ↦ none
      | some r ↦ some (kept_in st r)
    ]
  ]

  -- Case 0 with a user that exists. The length field is read at 0x21, which may be past the end of
  -- the message, and the answer of `malloc` is not looked at.
  unfoldable pub forward :
      ClientHandler → User → Bytes → Bytes → ServerState → Option (ℤ × ServerState)
  forward c u uid m st =
      let payloadlen = decbe64 (take 8 (drop 0x21 m)) in
      if ltb (length m) 0x29
      then none
      else if ((0x29 + payloadlen) % 2 ^ 64) == length m
      then if mem ((0x29 + payloadlen) % 2 ^ 64)
        then pass_on u uid (response c m payloadlen) st
        else none
      else some (failure, st)

  unfoldable pub answer_key : ClientHandler → User → Bytes → ServerState → ℤ × ServerState
  answer_key c u uid st =
      let resp = 1 ∷ uid ++ rsa.rsa_pubkey2wire u.pkey in
      if mem (length resp) then send_on c.hndl c.keys resp st else (failure, st)

  abbrev pub by_code :
      ClientHandler → User → ℕ → Bytes → Bytes → ServerState → Option (ℤ × ServerState)
  by_code c u zero uid m st = forward c u uid m st
  by_code c u (suc n) uid m st = some (answer_key c u uid st)

  -- Codes other than 0 and 1 are logged and ignored.
  unfoldable pub handle_message : Bytes → ClientHandler → ServerState → Option (ℤ × ServerState)
  handle_message m c st =
      let uid = take 32 (drop 1 m) in
      if ltb (length m) 33
      then some (failure, st)
      else if ltb 1 (get_or m 0 0)
      then some (success, st)
      else elim (user_db_get_nolock lib ib st.db uid) [
        | none ↦ none
        | some none ↦ some (send_u_notfound c uid st)
        | some (some u) ↦ by_code c u (get_or m 0 0) uid m st
      ]

  -- The loop of `send_undelivered`: it stops at the first message that is not sent.
  unfoldable pub send_all : ℕ → ℕ → List Bytes → ServerState → ℤ × ServerState
  send_all hndl keys [] st = (success, st)
  send_all hndl keys (m ∷ ms) st =
      let r = send_on hndl keys m st in
      elim r.0 [ pos n ↦ send_all hndl keys ms r.1 | negsuc n ↦ (failure, r.1) ]

  -- if(undel_load(u, &messages) != 0) return -1;
  abbrev pub send_loaded : ℕ → ℕ → ServerState → ℤ × Option (List Bytes) × Files → ℤ × ServerState
  send_loaded hndl keys st (pos zero, some ms, fs) =
      send_all hndl keys ms (record st { files = fs })
  send_loaded hndl keys st (pos zero, none, fs) = (success, record st { files = fs })
  send_loaded hndl keys st (pos (suc n), ms, fs) = (failure, record st { files = fs })
  send_loaded hndl keys st (negsuc n, ms, fs) = (failure, record st { files = fs })

  unfoldable pub send_undelivered : Bytes → ℕ → ℕ → ServerState → Option (ℤ × ServerState)
  send_undelivered id hndl keys st = elim (user_db_get_nolock lib ib st.db id) [
    | none ↦ none
    | some none ↦ some (failure, st)
    | some (some u) ↦ elim (undel_load lib ib mem undel_dir u st.files) [
      | none ↦ none
      | some r ↦ some (send_loaded hndl keys st r)
    ]
  ]
