-- ===== src/Client/LogIn/Entered.antt =====
-- Whole log-ins: of a known user, and of a new one who registers.
use ibchat.Prelude.{ℕ, ◌<◌, ◌≡◌, refl, some, Bytes, [], ◌∷◌, ◌++◌, plenty, arith, ℤ, pos}
use ibchat.External.{Libibur, Ibcrypt, RsaKeys, IdentityKeys}
use ibchat.Inet.Connection.{Message}
use ibchat.Crypto.Layer.{Keyset}
use ibchat.Crypto.Layer.Channel.{sealed}
use ibchat.Crypto.Handshake.Flow.{Hs, go}
use ibchat.Server.UserDb.{UserDb}
use ibchat.Server.HandlerTable.{HandlerTable}
use ibchat.Server.Auth.{cliauth, register, check_user, auth_client, prompt_user_register}
use ibchat.Server.Auth.Accepts.{check_answer-IsAnswer}
use ibchat.Server.Auth.Messages.{
  ArePaired, ArePaired-sym, ArePaired-after_send, after_send, send_plain-sealed, received-sealed,
}
use ibchat.Server.Auth.Welcomed.{challenged, told, auth_client-answered}
use ibchat.Client.Uname.{gen_uid}
use ibchat.Client.Account.{Account}
use ibchat.Client.LogIn.{signed_text, siglen_of, login_session, create_session}
use ibchat.Client.LogIn.Accepted.{
  CanAnswer, answer-IsAnswer, length-answer, answered, send_login_message-answers,
  get_server_authresponse-case,
}

module _ (lib : Libibur) (ib : Ibcrypt) (rsa : RsaKeys) (ids : IdentityKeys lib rsa) (acc : Account)
    (rkey wire key challenge sig : Bytes) (salt : ℕ)
    (can : CanAnswer lib ib rsa ids acc rkey wire key challenge sig salt) where
  abbrev answer : Bytes
  answer = signed_text lib ib rsa ids plenty acc wire challenge ++ sig

  abbrev uid : Bytes
  uid = gen_uid ib acc.uname

  abbrev seal : Keyset → Bytes → Message
  seal = sealed lib ib plenty

  abbrev pub server_end : ℕ → Hs → Hs
  server_end ret s =
      told lib ib rsa ids.rsa_pubkey_bufsize ret
        (challenged lib ib rsa ids.rsa_pubkey_bufsize challenge s)

  abbrev pub client_end : Hs → Hs
  client_end = answered lib ib rsa ids acc rkey wire key challenge sig salt can

  auth_client-case :
      (db : UserDb) (ht : HandlerTable) (c s : Hs) (ret : ℕ)
      → ArePaired c.keys s.keys
      → check_user lib ib rsa plenty ids.rsa_pubkey_bufsize db ht uid key ≡ some ret
      → ret < 2
      → auth_client lib ib rsa plenty ids.rsa_pubkey_bufsize db ht
          (some challenge)
          (some (seal c.keys answer))
          s
        ≡ (go (uid, key, ret), server_end ret s)
  auth_client-case db ht c s ret paired known few =
      auth_client-answered lib ib rsa ids.rsa_pubkey_bufsize db ht challenge answer uid key ret
        c.keys s paired
        (omega
          (arith, length-answer lib ib rsa ids acc rkey wire key challenge sig salt can, can.small))
        (check_answer-IsAnswer lib ib rsa plenty ids.rsa_pubkey_bufsize uid wire challenge
          (lib.encbe64 (siglen_of lib ib rsa ids plenty acc)) sig key
          (answer-IsAnswer lib ib rsa ids acc rkey wire key challenge sig salt can)
          (challenged lib ib rsa ids.rsa_pubkey_bufsize challenge s))
        known (ground arith)

  told-back :
      (c s : Hs) → ArePaired c.keys s.keys → ArePaired (after_send s.keys) (after_send c.keys)
  told-back c s paired =
      ArePaired-after_send s.keys (after_send c.keys)
        (ArePaired-sym (after_send c.keys) s.keys (ArePaired-after_send c.keys s.keys paired))

  -- A client and a server whose key sets belong together log a user in that the server knows by the
  -- client's own public key: given the server's challenge and verdict, the client's side succeeds,
  -- given the client's answer, the server's side accepts the client's id and key with case 0, and the
  -- key sets belong together at the end. Memory is granted, and the calls for the key succeed.
  pub login_session-auth_client :
      (db : UserDb) (ht : HandlerTable) (c s : Hs) (again : ℤ)
      → ArePaired c.keys s.keys
      → check_user lib ib rsa plenty ids.rsa_pubkey_bufsize db ht uid key ≡ some 0
      → (login_session lib ib rsa ids plenty acc rkey salt
            (some (seal s.keys challenge))
            (some (seal (after_send s.keys) (cliauth ++ (0 ∷ []))))
            again
            c
          ≡ (go tt, client_end c))
        × (auth_client lib ib rsa plenty ids.rsa_pubkey_bufsize db ht
              (some challenge)
              (some (seal c.keys answer))
              s
            ≡ (go (uid, key, 0), server_end 0 s))
        × ((client_end c).sent ≡ c.sent ++ (seal c.keys answer ∷ []))
        × ((server_end 0 s).sent
            ≡ (s.sent ++ (seal s.keys challenge ∷ []))
              ++ (seal (after_send s.keys) (cliauth ++ (0 ∷ [])) ∷ []))
        × ArePaired (client_end c).keys (server_end 0 s).keys
  unfolding login_session
  login_session-auth_client db ht c s again paired known =
      let back = told-back c s paired in
      (
        rw
            (
              send_login_message-answers lib ib rsa ids acc rkey wire key challenge sig salt can
                  s.keys c (ArePaired-sym c.keys s.keys paired),
              get_server_authresponse-case lib ib rsa ids (after_send s.keys) (client_end c) 0 back
                  (omega arith),
            )
            refl,
        auth_client-case db ht c s 0 paired known (omega arith),
        refl,
        refl,
        ArePaired-sym (after_send (after_send s.keys)) (after_send c.keys)
            (ArePaired-after_send (after_send s.keys) (after_send c.keys) back),
      )

  -- The client once it has asked to register.
  abbrev pub client_registered : Hs → Hs
  client_registered c = record (client_end c) {
    keys = after_send (after_send c.keys);
    sent = (client_end c).sent ++ (seal (after_send c.keys) register ∷ []);
  }

  prompt_user_register-sealed :
      (c s : Hs)
      → ArePaired c.keys s.keys
      → prompt_user_register lib ib rsa plenty ids.rsa_pubkey_bufsize
          (some (seal (after_send c.keys) register))
          (server_end 1 s)
        ≡ (go tt, server_end 1 s)
  unfolding prompt_user_register
  prompt_user_register-sealed c s paired =
      let still =
        ArePaired-sym (after_send (after_send s.keys)) (after_send c.keys)
          (ArePaired-after_send (after_send s.keys) (after_send c.keys) (told-back c s paired)) in
      rw (
        received-sealed lib ib rsa ids.rsa_pubkey_bufsize (after_send c.keys) (server_end 1 s)
          register still (omega arith))

  -- The same two sides with a user that the server does not know: the server's verdict is case 1, and
  -- on it the client's side asks to register and succeeds, both in `create_account` and, where the
  -- user agrees, in `login_account`; the server's side takes the client's answer with its id and key,
  -- and then its request to register.
  pub create_session-auth_client :
      (db : UserDb) (ht : HandlerTable) (c s : Hs)
      → ArePaired c.keys s.keys
      → check_user lib ib rsa plenty ids.rsa_pubkey_bufsize db ht uid key ≡ some 1
      → (let verdict = some (seal (after_send s.keys) (cliauth ++ (1 ∷ []))) in
          (create_session lib ib rsa ids plenty acc rkey salt
              (some (seal s.keys challenge))
              verdict
              c
            ≡ (go tt, client_registered c))
          × (login_session lib ib rsa ids plenty acc rkey salt
                (some (seal s.keys challenge))
                verdict
                (pos 1)
                c
              ≡ (go tt, client_registered c))
          × (auth_client lib ib rsa plenty ids.rsa_pubkey_bufsize db ht
                (some challenge)
                (some (seal c.keys answer))
                s
              ≡ (go (uid, key, 1), server_end 1 s))
          × (prompt_user_register lib ib rsa plenty ids.rsa_pubkey_bufsize
                (some (seal (after_send c.keys) register))
                (server_end 1 s)
              ≡ (go tt, server_end 1 s)))
  unfolding login_session create_session
  create_session-auth_client db ht c s paired known =
      let answers =
        send_login_message-answers lib ib rsa ids acc rkey wire key challenge sig salt can s.keys c
          (ArePaired-sym c.keys s.keys paired) in
      let verdict =
        get_server_authresponse-case lib ib rsa ids (after_send s.keys) (client_end c) 1
          (told-back c s paired) (omega arith) in
      let asks = send_plain-sealed lib ib rsa ids.rsa_pubkey_bufsize register (client_end c) in
      (
        rw (answers, verdict) asks,
        rw (answers, verdict) asks,
        auth_client-case db ht c s 1 paired known (omega arith),
        prompt_user_register-sealed c s paired,
      )
