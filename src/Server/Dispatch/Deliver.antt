-- ===== src/Server/Dispatch/Deliver.antt =====
-- From the file of a user who was away to the connection on which they come back.
use ibchat.Prelude.{
  plenty, ℕ, ◌+◌, ◌%◌, ◌^◌, ◌<◌, ◌≡◌, refl, ap, Option, none, some, Bytes, List, [], ◌∷◌, ◌++◌,
  length, length-append, ℤ, success, arith, map,
}
use ibchat.External.{Libibur, Ibcrypt, Rsa}
use ibchat.Files.{store, open_old, open_old-store_self, open_old→can_create}
use ibchat.Inet.Connection.{Message}
use ibchat.Crypto.Layer.{Keyset, recv_message}
use ibchat.Crypto.Layer.Channel.{recv_message-sealed}
use ibchat.Server.Undelivered.{User, undel_path}
use ibchat.Server.Undelivered.Image.{Storable, file_image}
use ibchat.Server.Undelivered.Load.{undel_load-file_image}
use ibchat.Server.HandlerTable.{ClientHandler, get_handler}
use ibchat.Server.UserDb.{user_db_get_nolock}
use ibchat.Server.Dispatch.{ServerState, handle_message, send_all, send_undelivered}
use ibchat.Server.Dispatch.Forward.{
  sealed_all, send_all-sealed, addressed, length-addressed, handle_message-offline,
}

-- Messages that fit the file and the encryption: not empty, and 40 bytes below 2 ^ 64.
abbrev pub Sendable : List Bytes → Type 0
Sendable [] = Unit
Sendable (m ∷ ms) = (0 < length m) × (length m + 40 < 2 ^ 64) × Sendable ms

Sendable→Storable : (ms : List Bytes) → Sendable ms → Storable ms
Sendable→Storable [] h = h
Sendable→Storable (m ∷ ms) h = (h.0, omega (arith, h.1), Sendable→Storable ms h.2)

Sendable-append :
    (ms : List Bytes) (m : Bytes)
    → Sendable ms
    → 0 < length m
    → length m + 40 < 2 ^ 64
    → Sendable (ms ++ (m ∷ []))
Sendable-append [] m h full fits = (full, fits, tt)
Sendable-append (x ∷ ms) m h full fits = (h.0, h.1, Sendable-append ms m h.2 full fits)

module _ (lib : Libibur) (ib : Ibcrypt) (rsa : Rsa) (undel_dir : Bytes) where
  -- What the receiving side makes of each message of a queue.
  abbrev pub received : Keyset → List Message → List (Option Bytes)
  received k queue = map (recv_message lib ib plenty k) queue

  received-sealed_all :
      (a k : Keyset) (ms : List Bytes)
      → k.recv_symm_key ≡ a.send_symm_key
      → k.recv_hmac_key ≡ a.send_hmac_key
      → a.nonce < 2 ^ 64
      → Sendable ms
      → received k (sealed_all lib ib rsa undel_dir a ms) ≡ map some ms
  received-sealed_all a k [] symm hmac fresh fits = refl
  received-sealed_all a k (m ∷ ms) symm hmac fresh fits =
      rw
        (
          recv_message-sealed lib ib plenty a k m symm hmac fresh fits.1 refl refl,
          received-sealed_all (record a { nonce = (a.nonce + 1) % 2 ^ 64 }) k ms symm hmac
              (omega arith) fits.2,
        )
        refl

  -- A user who connects gets every message of their file: at the end of their connection's outgoing
  -- queue stand messages that a client with the other side of the connection's keys receives as
  -- exactly those, in order. The code is 0, and the file is left without messages.
  pub send_undelivered-file_image :
      (u : User) (id : Bytes) (hndl keys : ℕ) (ms : List Bytes) (st : ServerState) (k : Keyset)
      → user_db_get_nolock lib ib st.db id ≡ some (some u)
      → open_old (undel_path lib ib undel_dir u) st.files ≡ some (file_image lib ib u.und_auth ms)
      → Sendable ms
      → length ms < 2 ^ 64
      → k.recv_symm_key ≡ (st.keysets keys).send_symm_key
      → k.recv_hmac_key ≡ (st.keysets keys).send_hmac_key
      → (st.keysets keys).nonce < 2 ^ 64
      → (st' : ServerState) × (queue : List Message) × (send_undelivered lib ib rsa plenty undel_dir
            id hndl keys st
          ≡ some (success, st'))
        × (st'.outgoing hndl ≡ st.outgoing hndl ++ queue)
        × (received k queue ≡ map some ms)
        × (st'.files
            ≡ store (undel_path lib ib undel_dir u) (file_image lib ib u.und_auth []) st.files)
  unfolding send_undelivered
  send_undelivered-file_image u id hndl keys ms st k found held fits few symm hmac fresh =
      let emptied = record st {
        files = store (undel_path lib ib undel_dir u) (file_image lib ib u.und_auth []) st.files;
      } in
      let (code, queue, kept) = send_all-sealed lib ib rsa undel_dir hndl keys ms emptied in
      let r = send_all lib ib rsa plenty undel_dir hndl keys ms emptied in
      (
        r.1,
        sealed_all lib ib rsa undel_dir (st.keysets keys) ms,
        rw
            (
              found,
              send_undelivered,
              undel_load-file_image lib ib undel_dir u st.files ms held (Sendable→Storable ms fits)
                  few,
            )
            (ap (λ (x : ℤ). some (x, r.1)) code),
        queue,
        received-sealed_all (st.keysets keys) k ms symm hmac fresh fits,
        kept,
      )

  -- A message to a user who is away is accepted with 0, and when the user connects they get it:
  -- the messages that their client receives are those that waited before, and then this one with
  -- the sender's id in place of the target's. The user's file is the one that holds the messages
  -- that waited, their sizes and number are within the 64-bit fields, the client has the other side
  -- of the connection's keys, and there is memory.
  pub handle_message-send_undelivered :
      (uid p : Bytes) (c : ClientHandler) (u : User) (st : ServerState) (ms : List Bytes)
      (hndl keys : ℕ) (k : Keyset)
      → length uid ≡ 32
      → length c.id ≡ 32
      → user_db_get_nolock lib ib st.db uid ≡ some (some u)
      → get_handler lib ib st.ht uid ≡ none
      → open_old (undel_path lib ib undel_dir u) st.files ≡ some (file_image lib ib u.und_auth ms)
      → length (file_image lib ib u.und_auth ms) + length p + 81 < 2 ^ 63
      → Sendable ms
      → length ms + 1 < 2 ^ 64
      → k.recv_symm_key ≡ (st.keysets keys).send_symm_key
      → k.recv_hmac_key ≡ (st.keysets keys).send_hmac_key
      → (st.keysets keys).nonce < 2 ^ 64
      → (st' : ServerState) × (st'' : ServerState) × (queue : List Message) × (handle_message lib ib
            rsa plenty undel_dir
            (addressed lib ib rsa undel_dir uid p)
            c
            st
          ≡ some (success, st'))
        × (send_undelivered lib ib rsa plenty undel_dir uid hndl keys st' ≡ some (success, st''))
        × (st''.outgoing hndl ≡ st.outgoing hndl ++ queue)
        × (received k queue ≡ map some (ms ++ (addressed lib ib rsa undel_dir c.id p ∷ [])))
  handle_message-send_undelivered uid p c u st ms hndl keys k size own found offline held room fits
        few symm hmac fresh =
      let resp = addressed lib ib rsa undel_dir c.id p in
      let path = undel_path lib ib undel_dir u in
      let l : length resp ≡ 41 + length p =
        length-addressed lib ib rsa undel_dir c.id p c u st own (omega arith) in
      let image = file_image lib ib u.und_auth (ms ++ (resp ∷ [])) in
      let st' = record st { files = store path image st.files } in
      let stored =
        open_old-store_self path image st.files (open_old→can_create path _ st.files held) in
      let (st'', queue, run, out, got, kept) =
        send_undelivered-file_image u uid hndl keys (ms ++ (resp ∷ [])) st' k found stored
          (Sendable-append ms resp fits (omega (arith, l)) (omega (arith, l)))
          (omega (arith, length-append ms (resp ∷ []))) symm hmac fresh in
      (
        st',
        st'',
        queue,
        handle_message-offline lib ib rsa undel_dir uid p c u st size (omega arith) ms found offline
            held (omega (arith, l)) few,
        run,
        out,
        got,
      )
