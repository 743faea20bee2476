-- ===== src/Server/Dispatch/Forward.antt =====
-- The way of a message to its target: the connection of a user who is connected, or the file of one
-- who is not.
use ibchat.Prelude.{
  plenty, ℕ, ◌+◌, ◌%◌, ◌^◌, ◌<◌, ◌≡◌, refl, sym, ◌∙◌, true, false, none, some, Bytes, List, [], ◌∷◌,
  ◌++◌, ◌==◌, append_assoc, append-nil, length, length-append, take, drop, take-append,
  take-append_eq, drop-append_eq, ltb, success, arith,
}
use ibchat.External.{Libibur, Ibcrypt, Rsa}
use ibchat.Files.{store, open_old}
use ibchat.Inet.Connection.{Message}
use ibchat.Crypto.Layer.{Keyset, encrypt_message, send_message, recv_message}
use ibchat.Crypto.Layer.Channel.{sealed, recv_message-sealed}
use ibchat.Server.Undelivered.{User, undel_path}
use ibchat.Server.Undelivered.Image.{file_image}
use ibchat.Server.Undelivered.Add.{undel_add_message-file_image}
use ibchat.Server.HandlerTable.{ClientHandler, get_handler}
use ibchat.Server.UserDb.{user_db_get_nolock}
use ibchat.Server.Dispatch.{
  ServerState, set_keys, set_outgoing, send_on, response, pass_on, forward, handle_message,
  send_all,
}

module _ (lib : Libibur) (ib : Ibcrypt) (rsa : Rsa) (undel_dir : Bytes) where
  open lib use {encbe64, decbe64}

  -- The keys after `n` messages were sent with them.
  abbrev pub after : ℕ → Keyset → Keyset
  after n k = record k { nonce = (k.nonce + n) % 2 ^ 64 }

  -- The messages sent with the keys `k`, one after the other.
  abbrev pub sealed_all : Keyset → List Bytes → List Message
  sealed_all k [] = []
  sealed_all k (m ∷ ms) = sealed lib ib plenty k m ∷ sealed_all (after 1 k) ms

  -- Sending one message never fails where there is memory.
  send_on-sealed :
      (hndl keys : ℕ) (p : Bytes) (st : ServerState)
      → send_on lib ib rsa plenty undel_dir hndl keys p st ≡ (
        success,
        set_outgoing hndl
            (st.outgoing hndl ++ (sealed lib ib plenty (st.keysets keys) p ∷ []))
            (set_keys keys (after 1 (st.keysets keys)) st),
      )
  unfolding send_on send_message encrypt_message
  send_on-sealed hndl keys p st = refl

  send_all-cons :
      (hndl keys : ℕ) (m : Bytes) (ms : List Bytes) (st : ServerState)
      → send_all lib ib rsa plenty undel_dir hndl keys (m ∷ ms) st
        ≡ send_all lib ib rsa plenty undel_dir hndl keys ms (
            set_outgoing hndl
              (st.outgoing hndl ++ (sealed lib ib plenty (st.keysets keys) m ∷ []))
              (set_keys keys (after 1 (st.keysets keys)) st))
  unfolding send_all send_on send_message encrypt_message
  send_all-cons hndl keys m ms st = refl

  -- `send_all` sends every message, in order, and touches only that queue and those keys.
  pub send_all-sealed :
      (hndl keys : ℕ) (ms : List Bytes) (st : ServerState)
      → (let r = send_all lib ib rsa plenty undel_dir hndl keys ms st in
          (r.0 ≡ success)
          × (r.1.outgoing hndl ≡ st.outgoing hndl ++ sealed_all (st.keysets keys) ms)
          × (r.1.files ≡ st.files))
  unfolding send_all
  send_all-sealed hndl keys [] st = (refl, sym (append-nil _), refl)
  send_all-sealed hndl keys (m ∷ ms) st =
      let next =
        set_outgoing hndl (st.outgoing hndl ++ (sealed lib ib plenty (st.keysets keys) m ∷ []))
          (set_keys keys (after 1 (st.keysets keys)) st) in
      let (code, queue, kept) = send_all-sealed hndl keys ms next in
      let own : (hndl == hndl) ≡ true = ground arith in
      let own_keys : (keys == keys) ≡ true = ground arith in
      let grown : next.outgoing hndl ++ sealed_all (next.keysets keys) ms
          ≡ st.outgoing hndl ++ sealed_all (st.keysets keys) (m ∷ ms) =
        rw (own, own_keys)
          (append_assoc (st.outgoing hndl) (sealed lib ib plenty (st.keysets keys) m ∷ [])
            (sealed_all (after 1 (st.keysets keys)) ms)) in
      rw (send_all-cons hndl keys m ms st) (code, queue ∙ grown, kept)

  -- The message of type 0 to `uid` with the payload `p`.
  abbrev pub addressed : Bytes → Bytes → Bytes
  addressed uid p = 0 ∷ uid ++ (encbe64 (length p) ++ p)

  module _ (uid p : Bytes) (c : ClientHandler) (u : User) (st : ServerState)
      (size : length uid ≡ 32) (small : length p < 2 ^ 63) where
    pub length-addressed : length (addressed uid p) ≡ 41 + length p
    length-addressed =
        let n = encbe64 (length p) in
        omega (arith, length-append uid (n ++ p), length-append n p, lib.length-encbe64 (length p))

    payload_of : take (length p) (drop 0x29 (addressed uid p)) ≡ p
    payload_of =
        let n = encbe64 (length p) in
        let l : length (uid ++ n) ≡ 40 =
          omega (arith, length-append uid n, lib.length-encbe64 (length p)) in
        let flat : uid ++ (n ++ p) ≡ (uid ++ n) ++ p = simp append_assoc in
        let whole = take-append p [] in
        let all : take (length p) p ≡ p = rw append-nil at whole in
        rw (flat, drop-append_eq 40 (uid ++ n) p l) all

    field_of : decbe64 (take 8 (drop 0x21 (addressed uid p))) ≡ length p
    field_of =
        let n = encbe64 (length p) in
        rw
          (
            drop-append_eq 32 uid (n ++ p) size,
            take-append_eq 8 n p (lib.length-encbe64 (length p)),
          )
          (lib.decbe64-encbe64 (length p) (omega arith))

    forward-addressed :
        forward lib ib rsa plenty undel_dir c u uid (addressed uid p) st
        ≡ pass_on lib ib rsa plenty undel_dir u uid (addressed c.id p) st
    unfolding forward response
    forward-addressed =
        let b : ltb (41 + length p) 0x29 ≡ false = ground arith in
        let d : ((0x29 + length p) % 2 ^ 64 == 41 + length p) ≡ true = ground arith in
        rw (field_of, length-addressed, b, d, payload_of) refl

    handle_message-addressed :
        user_db_get_nolock lib ib st.db uid ≡ some (some u)
        → handle_message lib ib rsa plenty undel_dir (addressed uid p) c st
          ≡ pass_on lib ib rsa plenty undel_dir u uid (addressed c.id p) st
    unfolding handle_message
    handle_message-addressed found =
        let a : ltb (41 + length p) 33 ≡ false = ground arith in
        let t = take-append_eq 32 uid (encbe64 (length p) ++ p) size in
        rw (length-addressed, a, t, found, t) forward-addressed

    -- A message to a user who is connected goes to the end of the outgoing queue of that user's
    -- connection, with the sender's id in place of the target's, and a client that holds the other
    -- side of that connection's keys receives it, where there is memory. The code is 0, and no file
    -- is touched.
    pub handle_message-online :
        (t : ClientHandler) (k : Keyset)
        → user_db_get_nolock lib ib st.db uid ≡ some (some u)
        → get_handler lib ib st.ht uid ≡ some t
        → k.recv_symm_key ≡ (st.keysets t.keys).send_symm_key
        → k.recv_hmac_key ≡ (st.keysets t.keys).send_hmac_key
        → (st.keysets t.keys).nonce < 2 ^ 64
        → length (addressed c.id p) + 40 < 2 ^ 64
        → (st' : ServerState) × (m : Message) × (handle_message lib ib rsa plenty undel_dir
              (addressed uid p)
              c
              st
            ≡ some (success, st'))
          × (st'.outgoing t.hndl ≡ st.outgoing t.hndl ++ (m ∷ []))
          × (recv_message lib ib plenty k m ≡ some (addressed c.id p))
          × (st'.files ≡ st.files)
    unfolding pass_on
    handle_message-online t k found online symm hmac fresh fits =
        let own : (t.hndl == t.hndl) ≡ true = ground arith in
        (
          set_outgoing t.hndl
              (st.outgoing t.hndl
                ++ (sealed lib ib plenty (st.keysets t.keys) (addressed c.id p) ∷ []))
              (set_keys t.keys (after 1 (st.keysets t.keys)) st),
          sealed lib ib plenty (st.keysets t.keys) (addressed c.id p),
          handle_message-addressed found
              ∙ rw (online, pass_on, send_on-sealed t.hndl t.keys (addressed c.id p) st) refl,
          rw own refl,
          recv_message-sealed lib ib plenty (st.keysets t.keys) k (addressed c.id p) symm hmac fresh
              fits refl refl,
          refl,
        )

    -- A message to a user who is not connected is put at the end of that user's file of messages,
    -- with the sender's id in place of the target's. The code is 0, and no queue is touched.
    pub handle_message-offline :
        (ms : List Bytes)
        → user_db_get_nolock lib ib st.db uid ≡ some (some u)
        → get_handler lib ib st.ht uid ≡ none
        → open_old (undel_path lib ib undel_dir u) st.files ≡ some (file_image lib ib u.und_auth ms)
        → length (file_image lib ib u.und_auth ms) + 8 + length (addressed c.id p) + 32 < 2 ^ 63
        → length ms + 1 < 2 ^ 64
        → handle_message lib ib rsa plenty undel_dir (addressed uid p) c st
          ≡ some (
            success,
            record st {
              files =
                  store
                    (undel_path lib ib undel_dir u)
                    (file_image lib ib u.und_auth (ms ++ (addressed c.id p ∷ [])))
                    st.files;
            },
          )
    unfolding pass_on
    handle_message-offline ms found offline held room few =
        handle_message-addressed found
        ∙ rw
            (
              offline,
              pass_on,
              undel_add_message-file_image lib ib undel_dir u (addressed c.id p) ms st.files held
                  (omega arith) room few,
            )
            refl
