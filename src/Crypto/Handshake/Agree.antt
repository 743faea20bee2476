-- ===== src/Crypto/Handshake/Agree.antt =====
-- Both sides of the handshake, one after the other.
use ibchat.Prelude.{
  plenty, ℕ, ◌+◌, ◌^◌, ◌<◌, ◌≡◌, refl, true, some, Bytes, [], ◌∷◌, ◌++◌, length, success, arith,
}
use ibchat.External.{Libibur, Ibcrypt, RsaKeys, KeyExchange}
use ibchat.Crypto.Layer.{Keyset, expand_keyset, recv_message}
use ibchat.Crypto.Layer.Channel.{sealed, recv_message-sealed}
use ibchat.Crypto.Handshake.Flow.{pushed, Hs, go}
use ibchat.Crypto.Handshake.{init, shared_keybuf, server_handshake, client_handshake}
use ibchat.Crypto.Handshake.Reply.{
  Succeeds, reply, server_keys, client_keys, client_response-response,
}

module _ (lib : Libibur) (ib : Ibcrypt) (rsa : RsaKeys) (dh : KeyExchange) (rsa_key : Bytes)
    (server_exp client_exp salt : ℕ)
    (h : Succeeds lib ib rsa dh rsa_key server_exp client_exp salt) where
  open lib use {encbe64, decbe64}
  open h use {
    rsa_pkey, rsa_wire, bits, server_pub, server_wire, client_pub, client_wire, secret, secret_wire,
    sig,
  }

  abbrev answer : Bytes
  answer = reply lib ib rsa dh rsa_key server_exp client_exp salt h

  abbrev server_side : Keyset → Keyset
  server_side = server_keys lib ib rsa dh rsa_key server_exp client_exp salt h

  abbrev client_side : Keyset → Keyset
  client_side = client_keys lib ib rsa dh rsa_key server_exp client_exp salt h

  server_handshake-sends :
      (s : Hs)
      → server_handshake lib ib rsa dh plenty true rsa_key
          (some server_exp)
          salt
          (some client_wire)
          s
        ≡ (
          go success,
          record s {
            keys = server_side s.keys;
            sent =
                (s.sent ++ (record { seq_num = 0; message = init } ∷ []))
                ++ (record { seq_num = 0; message = answer } ∷ []);
          },
        )
  unfolding server_handshake shared_keybuf expand_keyset pushed
  server_handshake-sends s =
      rw
        (
          h.public,
          h.group,
          h.server_gen,
          dh.dh_wire2val-dh_val2wire client_pub client_wire h.client_wired,
          h.client_range,
          h.computed,
          h.secret_wired,
          h.wired,
          h.server_wired,
          h.signed,
        )
        refl

  client_handshake-accepts :
      (s : Hs)
      → client_handshake lib ib rsa dh plenty true (some client_exp) (some init) (some answer) s ≡ (
        go (success, rsa_pkey),
        record s {
          keys = client_side s.keys;
          sent = s.sent ++ (record { seq_num = 0; message = client_wire } ∷ []);
          res = 0;
        },
      )
  unfolding client_handshake pushed
  client_handshake-accepts s =
      rw
        (
          h.group,
          h.client_gen,
          h.client_wired,
          client_response-response lib ib rsa dh rsa_key server_exp client_exp salt h (record s {
            sent = s.sent ++ (record { seq_num = 0; message = client_wire } ∷ []);
            res = 0;
          }),
        )
        refl

  -- A handshake in which each side is given what the other sent, and in which the calls of the
  -- libraries succeed on both sides, ends with a return of 0 from both functions and with `*res` at
  -- 0. The server sends the two messages that the client is given, the client the one that the
  -- server is given. The client has the server's public key, and from then on each side receives
  -- what the other seals with its key set.
  pub client_handshake-server_handshake :
      (s c : Hs) (p : Bytes)
      → length p + 40 < 2 ^ 64
      → (let server =
            server_handshake lib ib rsa dh plenty true rsa_key
              (some server_exp)
              salt
              (some client_wire)
              s in
          let client =
            client_handshake lib ib rsa dh plenty true
              (some client_exp)
              (some init)
              (some answer)
              c in
          (server.0 ≡ go success)
          × (client.0 ≡ go (success, rsa_pkey))
          × (client.1.res ≡ 0)
          × (server.1.sent
              ≡ (s.sent ++ (record { seq_num = 0; message = init } ∷ []))
                ++ (record { seq_num = 0; message = answer } ∷ []))
          × (client.1.sent ≡ c.sent ++ (record { seq_num = 0; message = client_wire } ∷ []))
          × (recv_message lib ib plenty server.1.keys (sealed lib ib plenty client.1.keys p)
              ≡ some p)
          × (recv_message lib ib plenty client.1.keys (sealed lib ib plenty server.1.keys p)
              ≡ some p))
  unfolding expand_keyset
  client_handshake-server_handshake s c p small =
      rw (server_handshake-sends s, client_handshake-accepts c)
        (
          refl,
          refl,
          refl,
          refl,
          refl,
          recv_message-sealed lib ib plenty (client_side c.keys) (server_side s.keys) p refl refl
              (omega arith) small refl refl,
          recv_message-sealed lib ib plenty (server_side s.keys) (client_side c.keys) p refl refl
              (omega arith) small refl refl,
        )
