-- ===== src/Crypto/Layer.antt =====
-- crypto/crypto_layer.c: a message is the nonce, the encrypted text, and the MAC of both.
pub mod Channel
mod Tests
use ibchat.Prelude.{
  ℕ, zero, suc, ◌+◌, ◌-◌, ◌%◌, ◌^◌, Bool, true, false, ◌||◌, ◌&&◌, Option, none, some, Bytes,
  bytes_eq, List, [], ◌∷◌, ◌++◌, length, take, drop, ltb, if◌then◌else◌, ℤ, success, failure,
}
use ibchat.External.{Libibur, Ibcrypt}
use ibchat.Inet.Connection.{Message}

-- `struct keyset`
pub record Keyset : Type 0 where
  pub send_symm_key : Bytes
  pub recv_symm_key : Bytes
  pub send_hmac_key : Bytes
  pub recv_hmac_key : Bytes
  pub nonce : ℕ

-- type: 0=client, 1=server; another type sets errno and leaves the keys
unfoldable pub expand_keyset : Bytes → ℕ → Keyset → Keyset
expand_keyset keybuf zero keys = record keys {
  send_symm_key = take 0x20 keybuf;
  recv_symm_key = take 0x20 (drop 0x20 keybuf);
  send_hmac_key = take 0x20 (drop 0x40 keybuf);
  recv_hmac_key = take 0x20 (drop 0x60 keybuf);
}
expand_keyset keybuf (suc zero) keys = record keys {
  recv_symm_key = take 0x20 keybuf;
  send_symm_key = take 0x20 (drop 0x20 keybuf);
  recv_hmac_key = take 0x20 (drop 0x40 keybuf);
  send_hmac_key = take 0x20 (drop 0x60 keybuf);
}
expand_keyset keybuf (suc (suc type)) keys = keys

-- sizeof(struct message) and sizeof(struct message_queue_element)
abbrev pub message_size : ℕ
message_size = 24

abbrev pub element_size : ℕ
element_size = 16

-- `mem n` is the allocator's answer to a request for `n` bytes.
module _ (lib : Libibur) (ib : Ibcrypt) (mem : ℕ → Bool) where
  open lib use {encbe64, decbe64}
  open ib use {hmac_sha256, chacha_enc, chacha_dec}

  unfoldable pub encrypt_message : Keyset → Bytes → Option Message
  encrypt_message keys ptext =
      let body = encbe64 keys.nonce ++ chacha_enc keys.send_symm_key keys.nonce ptext in
      if mem message_size && mem (8 + length ptext + 32)
      then some
          (record { seq_num = keys.nonce; message = body ++ hmac_sha256 keys.send_hmac_key body })
      else none

  -- The bytes written to `out`; `none` is the return of -1.
  unfoldable pub decrypt_message : Keyset → Message → ℕ → Option Bytes
  decrypt_message keys m outlen =
      let body = take (length m.message - 32) m.message in
      if ltb (length m.message) 40 || ltb ((outlen + 40) % 2 ^ 64) (length m.message)
      then none
      else if bytes_eq (hmac_sha256 keys.recv_hmac_key body)
          (drop (length m.message - 32) m.message)
      then some (chacha_dec keys.recv_symm_key (decbe64 (take 8 body)) (drop 8 body))
      else none

  -- The code, the keys with the next nonce, and the outgoing queue. The return of
  -- `message_queue_push` is not looked at: with no memory for its element the message is lost.
  unfoldable pub send_message : Keyset → Bytes → List Message → ℤ × Keyset × List Message
  send_message keys ptext queue = elim (encrypt_message keys ptext) [
    | none ↦ (failure, keys, queue)
    | some m ↦ (
      success,
      record keys { nonce = (keys.nonce + 1) % 2 ^ 64 },
      if mem element_size then queue ++ (m ∷ []) else queue,
    )
  ]

  -- What becomes of the message that `get_message` takes off the incoming queue.
  unfoldable pub recv_message : Keyset → Message → Option Bytes
  recv_message keys m =
      let outlen = (length m.message + 2 ^ 64 - 40) % 2 ^ 64 in
      if mem message_size && mem outlen then decrypt_message keys m outlen else none
