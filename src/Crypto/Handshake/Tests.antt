-- ===== src/Crypto/Handshake/Tests.antt =====
-- A handshake with the sample external libraries, the messages that each side sends in it, and a
-- response that states the size 2^64 - 16.
use ibchat.Prelude.{
  plenty, ◌-◌, ◌^◌, ◌≡◌, refl, true, some, Bytes, [], ◌∷◌, ◌++◌, success, arith, replicate, take,
  drop,
}
use ibchat.External.Samples.{libibur, ibcrypt}
use ibchat.External.Samples.Keys.{rsa_keys, key_exchange}
use ibchat.Crypto.Layer.{Keyset, expand_keyset, recv_message, decrypt_message}
use ibchat.Crypto.Layer.Channel.{sealed}
use ibchat.Crypto.Handshake.Flow.{Hs, go, crash}
use ibchat.Crypto.Handshake.{
  init, shared_keybuf, server_handshake, number_at, bytes_at, check_server, server_value,
  client_response, client_handshake,
}
use ibchat.Crypto.Handshake.Reply.{Succeeds, reply}
use ibchat.Crypto.Handshake.Agree.{client_handshake-server_handshake}
use ibchat.Crypto.Handshake.Trust.{
  rsa_size, signed_size, client_handshake-signed, client_handshake-wrapped,
}

abbrev no_keys : Keyset
no_keys = record {
  send_symm_key = [];
  recv_symm_key = [];
  send_hmac_key = [];
  recv_hmac_key = [];
  nonce = 0;
}

abbrev fresh : Hs
fresh = record { keys = no_keys; sent = []; res = 7 }

abbrev server_key : Bytes
server_key = 9 ∷ 8 ∷ []

program : Unit {0}
unfolding libibur ibcrypt rsa_keys key_exchange expand_keyset shared_keybuf server_handshake
    number_at bytes_at check_server server_value client_response client_handshake recv_message
    decrypt_message
program = tt

succeeds : Succeeds libibur ibcrypt rsa_keys key_exchange server_key 100 200 5
unfolding program
succeeds = record {
  rsa_pkey = server_key;
  rsa_wire = 1 ∷ server_key;
  bits = 2048;
  server_pub = 103;
  server_wire = libibur.encbe64 103;
  client_pub = 203;
  client_wire = libibur.encbe64 203;
  secret = 303;
  secret_wire = libibur.encbe64 303;
  sig = _;
  public = refl;
  wired = refl;
  group = refl;
  server_gen = refl;
  server_wired = refl;
  server_range = refl;
  client_gen = refl;
  client_wired = refl;
  client_range = refl;
  computed = refl;
  secret_wired = refl;
  small_rsa = omega arith;
  small_dh = omega arith;
  small_bits = omega arith;
  signed = refl;
}

abbrev hello : Bytes
hello = 104 ∷ 105 ∷ []

abbrev answer : Bytes
answer = reply libibur ibcrypt rsa_keys key_exchange server_key 100 200 5 succeeds

client_handshake-server_handshake_example :
    (let server =
        server_handshake libibur ibcrypt rsa_keys key_exchange plenty true server_key
          (some 100)
          5
          (some (libibur.encbe64 203))
          fresh in
      let client =
        client_handshake libibur ibcrypt rsa_keys key_exchange plenty true
          (some 200)
          (some init)
          (some answer)
          fresh in
      (server.0 ≡ go success)
      × (client.0 ≡ go (success, server_key))
      × (client.1.res ≡ 0)
      × (server.1.sent
          ≡ ([] ++ (record { seq_num = 0; message = init } ∷ []))
            ++ (record { seq_num = 0; message = answer } ∷ []))
      × (client.1.sent ≡ [] ++ (record { seq_num = 0; message = libibur.encbe64 203 } ∷ []))
      × (recv_message libibur ibcrypt plenty server.1.keys
            (sealed libibur ibcrypt plenty client.1.keys hello)
          ≡ some hello)
      × (recv_message libibur ibcrypt plenty client.1.keys
            (sealed libibur ibcrypt plenty server.1.keys hello)
          ≡ some hello))
unfolding program succeeds
client_handshake-server_handshake_example =
    client_handshake-server_handshake libibur ibcrypt rsa_keys key_exchange server_key 100 200 5
      succeeds fresh fresh hello (omega arith)

client_handshake-signed_example :
    (let n = signed_size libibur ibcrypt rsa_keys key_exchange plenty true answer in
      (take 9 init ≡ init)
      × (rsa_keys.rsa_wire2pubkey (
            take
              (rsa_size libibur ibcrypt rsa_keys key_exchange plenty true answer)
              (drop 8 answer))
          ≡ some server_key)
      × (rsa_keys.rsa_pss_verify server_key (drop n answer) (take n answer) ≡ some true))
unfolding program succeeds
client_handshake-signed_example =
    client_handshake-signed libibur ibcrypt rsa_keys key_exchange plenty true (some 200) init answer
      server_key fresh _ refl

abbrev huge : Bytes
huge = libibur.encbe64 (2 ^ 64 - 16) ++ replicate 8 0

client_handshake-wrapped_example :
    (client_handshake libibur ibcrypt rsa_keys key_exchange plenty true
      (some 200)
      (some init)
      (some huge)
      fresh).0
    ≡ crash
unfolding program
client_handshake-wrapped_example =
    client_handshake-wrapped libibur ibcrypt rsa_keys key_exchange plenty true 2048 200 203
      (libibur.encbe64 203) huge fresh refl refl refl refl (omega arith) (omega arith) refl

-- A response with one wrong byte in the signature: the return value is 1, with INVALID_SIG.
forged :
    (let r =
        client_handshake libibur ibcrypt rsa_keys key_exchange plenty true
          (some 200)
          (some init)
          (some (take 62 answer ++ (0 ∷ [])))
          fresh in
      r.1.res ≡ 1)
unfolding program succeeds
forged = refl
