-- ===== src/Crypto/Handshake.antt =====
-- crypto/handshake.c: the server sends "initiate", the client its public value, the server its RSA
-- key, its public value, a hash of the shared keys, and a signature of these. Each function stands
-- as a whole, with the messages that `get_message` gives it as arguments.
pub mod Flow
pub mod Passed
pub mod Reply
pub mod Agree
pub mod Trust
mod Tests
use ibchat.Prelude.{
  ℕ, zero, suc, ◌+◌, ◌-◌, ◌*◌, ◌/◌, ◌%◌, ◌^◌, ◌==◌, not, Bool, true, false, Option, none, some,
  Bytes, List, [], ◌∷◌, ◌++◌, length, take, drop, leb, ltb, bytes_eq, if◌then◌else◌, ℤ, pos, negsuc,
  success, failure,
}
use ibchat.External.{Libibur, Ibcrypt, RsaKeys, KeyExchange}
use ibchat.Inet.Connection.{Message}
use ibchat.Crypto.Layer.{element_size, Keyset, expand_keyset}
use ibchat.Crypto.Handshake.Flow.{
  Run, Hs, pure, ◌>>=◌, ◌>>◌, check, attempt, within, check_res, send, set_keys, set_res, get_res,
}

-- "initiate" with its null byte
abbrev pub init : Bytes
init = 105 ∷ 110 ∷ 105 ∷ 116 ∷ 105 ∷ 97 ∷ 116 ∷ 101 ∷ 0 ∷ []

abbrev pub invalid_sig : ℕ
invalid_sig = 1

abbrev pub invalid_dh_key : ℕ
invalid_dh_key = 2

abbrev pub invalid_key_hash : ℕ
invalid_key_hash = 3

abbrev pub invalid_init : ℕ
invalid_init = 4

-- `mem n` is the allocator's answer to a request for `n` bytes. `cleanup` says whether the calls
-- that free the values at the end all return 0.
module _ (lib : Libibur) (ib : Ibcrypt) (rsa : RsaKeys) (dh : KeyExchange) (mem : ℕ → Bool)
    (cleanup : Bool) where
  open lib use {encbe64, decbe64}

  -- From the exponent and the public value of the peer to the key buffer.
  unfoldable pub shared_keybuf : ℕ → ℕ → Run Bytes
  shared_keybuf dh_priv_exp peer = do
    dh_secret ← attempt failure (dh.dh_compute_secret dh_priv_exp peer)
    check failure (mem (dh.dh_valwire_bufsize dh_secret))
    dh_secret_buf ← attempt failure (dh.dh_val2wire dh_secret)
    pure (dh.pbkdf2_hmac_sha256 dh_secret_buf 1 128)

  -- The response up to the signature.
  abbrev pub response_body : Bytes → Bytes → Bytes → Bytes
  response_body rsa_key dh_key hash =
      encbe64 (length rsa_key) ++ (rsa_key ++ (encbe64 (length dh_key) ++ (dh_key ++ hash)))

  -- `dh_priv_exp` is the answer of `dh_gen_exp`, `client_m` the text of the message that arrives in
  -- time, and `salt` is drawn for the signature.
  unfoldable pub server_handshake : Bytes → Option ℕ → ℕ → Option Bytes → Run ℤ
  server_handshake rsa_key dh_gen_exp salt client_m = do
    check failure (mem (length init))
    send (mem element_size) (record { seq_num = 0; message = init })
    rsa_pkey ← attempt failure (rsa.rsa_pub_key rsa_key)
    bits ← attempt failure (dh.dh_init_ctx 14)
    dh_priv_exp ← attempt failure dh_gen_exp
    dh_public_key ← attempt failure (dh.dh_gen_pub dh_priv_exp)
    text ← attempt failure client_m
    dh_client_key ← attempt failure (dh.dh_wire2val text)
    in_range ← attempt failure (dh.dh_range_check dh_client_key)
    check (pos invalid_dh_key) in_range
    key_buf ← shared_keybuf dh_priv_exp dh_client_key
    set_keys (λ keys. record (expand_keyset key_buf 1 keys) { nonce = 2 })
    check failure (
        mem (
          8
          + rsa.rsa_pubkey_bufsize rsa_pkey
          + (8 + dh.dh_valwire_bufsize dh_public_key)
          + 32
          + rsa.sig_size rsa_pkey))
    rsa_wire ← attempt failure (rsa.rsa_pubkey2wire rsa_pkey)
    dh_wire ← attempt failure (dh.dh_val2wire dh_public_key)
    let body = response_body rsa_wire dh_wire (ib.sha256 key_buf)
    sig ← attempt failure (rsa.rsa_pss_sign salt rsa_key body)
    send (mem element_size) (record { seq_num = 0; message = body ++ sig })
    check failure cleanup
    pure success

  -- Eight bytes of the message from an offset on, as a number.
  unfoldable pub number_at : ℕ → Bytes → Run ℕ
  number_at off m = do within (leb (off + 8) (length m)); pure (decbe64 (take 8 (drop off m)))

  unfoldable pub bytes_at : ℕ → ℕ → Bytes → Run Bytes
  bytes_at off n m = do within (leb (off + n) (length m)); pure (take n (drop off m))

  -- if(sum > length) return -1; where the sum wraps
  abbrev pub fits : ℕ → Bytes → Run (Unit {0})
  fits sum m = check failure (leb (sum % 2 ^ 64) (length m))

  -- The key that the response gives for the server: the arguments are the response, the two sizes,
  -- and the key buffer.
  unfoldable pub check_server : Bytes → ℕ → ℕ → Bytes → Run Bytes
  check_server m rsa_sk_size dh_sk_size key_buf = do
    let hash_off = 8 + rsa_sk_size + 8 + dh_sk_size
    fits (hash_off + 32) m
    hash ← bytes_at (hash_off % 2 ^ 64) 32 m
    check_res invalid_key_hash (pos 1) (bytes_eq (ib.sha256 key_buf) hash)
    check failure (leb rsa_sk_size 2048)
    rsa_sk ← bytes_at 8 rsa_sk_size m
    server_rsa_key ← attempt failure (rsa.rsa_wire2pubkey rsa_sk)
    let sig_offset = hash_off + 32
    valid ←
        attempt failure (rsa.rsa_pss_verify server_rsa_key (drop sig_offset m) (take sig_offset m))
    set_res (if valid then 0 else invalid_sig)
    pure server_rsa_key

  -- The public value in the response, checked: the arguments are the bits of the group, the response
  -- and the size of the RSA key. The result has the size of the value too.
  unfoldable pub server_value : ℕ → Bytes → ℕ → Run (ℕ × ℕ)
  server_value bits m rsa_sk_size = do
    fits (8 + rsa_sk_size + 8) m
    dh_sk_size ← number_at ((8 + rsa_sk_size) % 2 ^ 64) m
    fits (8 + rsa_sk_size + 8 + dh_sk_size) m
    check_res invalid_dh_key (pos 1) (leb dh_sk_size ((bits + 7) / 8 + 8))
    dh_sk ← bytes_at ((16 + rsa_sk_size) % 2 ^ 64) dh_sk_size m
    dh_server_key ← attempt failure (dh.dh_wire2val dh_sk)
    in_range ← attempt failure (dh.dh_range_check dh_server_key)
    check_res invalid_dh_key (pos 1) in_range
    pure (dh_server_key, dh_sk_size)

  -- What follows the arrival of the response, with the server's RSA key as the result.
  unfoldable pub client_response : ℕ → ℕ → Bytes → Run Bytes
  client_response bits dh_priv_exp m = do
    rsa_sk_size ← number_at 0 m
    value ← server_value bits m rsa_sk_size
    key_buf ← shared_keybuf dh_priv_exp value.0
    set_keys (λ keys. record (expand_keyset key_buf 0 keys) { nonce = 1 })
    check_server m rsa_sk_size value.1 key_buf

  -- The texts of the two messages that arrive. The result is the return value with the key that is
  -- written to `*server_rsa_key`.
  unfoldable pub client_handshake : Option ℕ → Option Bytes → Option Bytes → Run (ℤ × Bytes)
  client_handshake dh_gen_exp init_m server_m = do
    set_res 0
    first ← attempt failure init_m
    within (leb 9 (length first))
    check (pos invalid_init) (bytes_eq (take 9 first) init)
    bits ← attempt failure (dh.dh_init_ctx 14)
    dh_priv_exp ← attempt failure dh_gen_exp
    dh_public_key ← attempt failure (dh.dh_gen_pub dh_priv_exp)
    check failure (mem (dh.dh_valwire_bufsize dh_public_key))
    wire ← attempt failure (dh.dh_val2wire dh_public_key)
    send (mem element_size) (record { seq_num = 0; message = wire })
    m ← attempt failure server_m
    server_rsa_key ← client_response bits dh_priv_exp m
    check failure cleanup
    res ← get_res
    pure (if res == 0 then success else pos 1, server_rsa_key)
