-- ===== src/Crypto/Handshake/Trust.antt =====
-- What the client knows when its handshake returns 0.
use ibchat.Prelude.{
  ℕ, ◌+◌, ◌-◌, ◌<◌, ◌≤◌, ◌%◌, ◌^◌, ◌≡◌, refl, Bool, true, false, Option, some, Bytes, length, take,
  drop, leb, bytes_eq→eq, success, arith,
}
use ibchat.External.{Libibur, Ibcrypt, RsaKeys, KeyExchange}
use ibchat.Crypto.Handshake.Flow.{Hs, go, crash}
use ibchat.Crypto.Handshake.{
  init, bytes_at, number_at, shared_keybuf, server_value, check_server, client_response,
  client_handshake,
}

module _ (lib : Libibur) (ib : Ibcrypt) (rsa : RsaKeys) (dh : KeyExchange) (mem : ℕ → Bool)
    (cleanup : Bool) where
  open lib use {decbe64}

  -- The sizes that the response states, and the length of what is signed.
  abbrev pub rsa_size : Bytes → ℕ
  rsa_size m = decbe64 (take 8 (drop 0 m))

  abbrev pub dh_size : Bytes → ℕ
  dh_size m = decbe64 (take 8 (drop ((8 + rsa_size m) % 2 ^ 64) m))

  abbrev pub signed_size : Bytes → ℕ
  signed_size m = 8 + rsa_size m + 8 + dh_size m + 32

  -- A client whose handshake returns 0 has a signature: for every response, complete or forged, that
  -- leads to the return value 0, the response's first part gives the public key that is written to
  -- `*server_rsa_key`, and that key accepts the response's last part as a signature of all before it,
  -- at the sizes that the response states. The first message was then "initiate".
  pub client_handshake-signed :
      (dh_gen_exp : Option ℕ) (first m key : Bytes) (s end : Hs)
      → client_handshake lib ib rsa dh mem cleanup dh_gen_exp (some first) (some m) s
        ≡ (go (success, key), end)
      → (take 9 first ≡ init)
        × (rsa.rsa_wire2pubkey (take (rsa_size m) (drop 8 m)) ≡ some key)
        × (rsa.rsa_pss_verify key (drop (signed_size m) m) (take (signed_size m) m) ≡ some true)
  unfolding client_handshake client_response number_at server_value bytes_at shared_keybuf
      check_server
  client_handshake-signed dh_gen_exp first m key s end h =
      ground (arith, bytes_eq→eq (take 9 first) init)

  -- A server can make the client read outside of the response: where the response states 2^64 - 16 as
  -- the size of its key, the sum that is checked wraps to 0, and the client reads the size of the
  -- public value 8 bytes before the start of the message. The client's own steps up to then succeed.
  pub client_handshake-wrapped :
      (bits dh_priv_exp dh_public_key : ℕ) (wire m : Bytes) (s : Hs)
      → dh.dh_init_ctx 14 ≡ some bits
      → dh.dh_gen_pub dh_priv_exp ≡ some dh_public_key
      → mem (dh.dh_valwire_bufsize dh_public_key) ≡ true
      → dh.dh_val2wire dh_public_key ≡ some wire
      → 16 ≤ length m
      → length m < 2 ^ 64
      → rsa_size m ≡ 2 ^ 64 - 16
      → (client_handshake lib ib rsa dh mem cleanup (some dh_priv_exp) (some init) (some m) s).0
        ≡ crash
  unfolding client_handshake client_response number_at server_value
  client_handshake-wrapped bits dh_priv_exp dh_public_key wire m s group gen room wired long short
        size =
      let there : leb (0 + 8) (length m) ≡ true = ground arith in
      let wraps : leb ((8 + rsa_size m + 8) % 2 ^ 64) (length m) ≡ true = ground arith in
      let outside : leb ((8 + rsa_size m) % 2 ^ 64 + 8) (length m) ≡ false = ground arith in
      rw (group, gen, room, wired, there, wraps, outside) refl
