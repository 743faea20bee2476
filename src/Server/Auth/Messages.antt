-- ===== src/Server/Auth/Messages.antt =====
-- Messages of a log-in between a client and a server whose key sets belong together.
use ibchat.Prelude.{
  ℕ, ◌+◌, ◌%◌, ◌^◌, ◌<◌, ◌≡◌, refl, some, Bytes, [], ◌∷◌, ◌++◌, length, plenty, arith,
}
use ibchat.External.{Libibur, Ibcrypt, RsaKeys}
use ibchat.Crypto.Layer.{Keyset, send_message, encrypt_message}
use ibchat.Crypto.Layer.Channel.{sealed, recv_message-sealed}
use ibchat.Crypto.Handshake.Flow.{Hs, go}
use ibchat.Server.Auth.{send_plain, received}

-- What one side seals the other can open, both ways.
pub record ArePaired (a b : Keyset) : Type 0 where
  pub symm_to : b.recv_symm_key ≡ a.send_symm_key
  pub hmac_to : b.recv_hmac_key ≡ a.send_hmac_key
  pub symm_back : a.recv_symm_key ≡ b.send_symm_key
  pub hmac_back : a.recv_hmac_key ≡ b.send_hmac_key
  pub nonce_to : a.nonce < 2 ^ 64
  pub nonce_back : b.nonce < 2 ^ 64

abbrev pub after_send : Keyset → Keyset
after_send keys = record keys { nonce = (keys.nonce + 1) % 2 ^ 64 }

pub ArePaired-sym : (a b : Keyset) → ArePaired a b → ArePaired b a
ArePaired-sym a b p = record {
  symm_to = p.symm_back;
  hmac_to = p.hmac_back;
  symm_back = p.symm_to;
  hmac_back = p.hmac_to;
  nonce_to = p.nonce_back;
  nonce_back = p.nonce_to;
}

pub ArePaired-after_send : (a b : Keyset) → ArePaired a b → ArePaired (after_send a) b
ArePaired-after_send a b p = record {
  symm_to = p.symm_to;
  hmac_to = p.hmac_to;
  symm_back = p.symm_back;
  hmac_back = p.hmac_back;
  nonce_to = omega arith;
  nonce_back = p.nonce_back;
}

module _ (lib : Libibur) (ib : Ibcrypt) (rsa : RsaKeys) (pubkey_size : ℕ → ℕ) where
  pub send_plain-sealed :
      (p : Bytes) (s : Hs)
      → send_plain lib ib rsa plenty pubkey_size p s ≡ (
        go tt,
        record s {
          keys = after_send s.keys;
          sent = s.sent ++ (sealed lib ib plenty s.keys p ∷ []);
        },
      )
  unfolding send_message encrypt_message
  send_plain-sealed p s = refl

  pub received-sealed :
      (a : Keyset) (s : Hs) (p : Bytes)
      → ArePaired a s.keys
      → length p + 40 < 2 ^ 64
      → received lib ib rsa plenty pubkey_size (some (sealed lib ib plenty a p)) s ≡ (go p, s)
  received-sealed a s p paired small = rw (
      recv_message-sealed lib ib plenty a s.keys p paired.symm_to paired.hmac_to paired.nonce_to
        small refl refl)
