-- ===== src/Crypto/Layer/Channel.antt =====
-- Messages between two sides: sealed by one, received by the other, or made by neither.
use ibchat.Prelude.{
  ℕ, ◌+◌, ◌-◌, ◌%◌, ◌^◌, ◌<◌, ◌≡◌, ◌≢◌, ◌⊎◌, inl, inr, refl, Bool, true, false, ◌||◌, none, some,
  Bytes, bytes_eq_refl, bytes_eq→eq, List, [], ◌∷◌, ◌++◌, length, length-append, take, drop,
  take-append_eq, drop-append_eq, ltb, success, arith, if◌then◌else◌,
}
use ibchat.External.{Libibur, Ibcrypt}
use ibchat.Inet.Connection.{Message}
use ibchat.Crypto.Layer.{
  Keyset, message_size, element_size, expand_keyset, encrypt_message, decrypt_message, send_message,
  recv_message,
}

module _ (lib : Libibur) (ib : Ibcrypt) (mem : ℕ → Bool) where
  open lib use {encbe64, decbe64}
  open ib use {hmac_sha256, chacha_enc, chacha_dec}

  -- The message that `encrypt_message` makes.
  abbrev pub sealed : Keyset → Bytes → Message
  sealed keys ptext =
      let body = encbe64 keys.nonce ++ chacha_enc keys.send_symm_key keys.nonce ptext in
      record { seq_num = keys.nonce; message = body ++ hmac_sha256 keys.send_hmac_key body }

  decrypt_message-sealed :
      (a b : Keyset) (p : Bytes)
      → b.recv_symm_key ≡ a.send_symm_key
      → b.recv_hmac_key ≡ a.send_hmac_key
      → a.nonce < 2 ^ 64
      → length p + 40 < 2 ^ 64
      → decrypt_message lib ib mem b (sealed a p) (length p) ≡ some p
  unfolding decrypt_message
  decrypt_message-sealed a b p symm hmac fresh small =
      let n = encbe64 a.nonce in
      let text = chacha_enc a.send_symm_key a.nonce p in
      let body = n ++ text in
      let mac = hmac_sha256 a.send_hmac_key body in
      let l₁ : length body ≡ 8 + length p =
        rw (length-append n text, lib.length-encbe64 a.nonce, ib.length-chacha_enc) refl in
      let l : length (body ++ mac) ≡ 40 + length p =
        omega (arith, length-append body mac, ib.length-hmac_sha256 a.send_hmac_key body) in
      let cut : length body ≡ 40 + length p - 32 = omega arith in
      let ok : (ltb (40 + length p) 40 || ltb ((length p + 40) % 2 ^ 64) (40 + length p)) ≡ false =
        ground arith in
      rw (
        l,
        ok,
        symm,
        hmac,
        take-append_eq (40 + length p - 32) body mac cut,
        drop-append_eq (40 + length p - 32) body mac cut,
        bytes_eq_refl mac,
        take-append_eq 8 n text (lib.length-encbe64 a.nonce),
        drop-append_eq 8 n text (lib.length-encbe64 a.nonce),
        lib.decbe64-encbe64 a.nonce fresh,
        ib.chacha_dec-chacha_enc,
      )

  pub length-sealed : (a : Keyset) (p : Bytes) → length ((sealed a p).message) ≡ 40 + length p
  length-sealed a p =
      let n = encbe64 a.nonce in
      let text = chacha_enc a.send_symm_key a.nonce p in
      let mac = hmac_sha256 a.send_hmac_key (n ++ text) in
      omega (
        arith,
        length-append n text,
        lib.length-encbe64 a.nonce,
        ib.length-chacha_enc a.send_symm_key a.nonce p,
        length-append (n ++ text) mac,
        ib.length-hmac_sha256 a.send_hmac_key (n ++ text),
      )

  pub recv_message-sealed :
      (a b : Keyset) (p : Bytes)
      → b.recv_symm_key ≡ a.send_symm_key
      → b.recv_hmac_key ≡ a.send_hmac_key
      → a.nonce < 2 ^ 64
      → length p + 40 < 2 ^ 64
      → mem message_size ≡ true
      → mem (length p) ≡ true
      → recv_message lib ib mem b (sealed a p) ≡ some p
  unfolding recv_message
  recv_message-sealed a b p symm hmac fresh small mem_s mem_p =
      let room : (length ((sealed a p).message) + 2 ^ 64 - 40) % 2 ^ 64 ≡ length p =
        omega (arith, length-sealed a p) in
      rw (room, mem_s, mem_p) (decrypt_message-sealed a b p symm hmac fresh small)

  -- With keys that both sides expand from one key buffer, the client as type 0 and the server as
  -- type 1, each side receives the plain text that the other sends, where there is memory for the
  -- messages. `send_message` returns 0, the nonce moves on by one, and the message, with the nonce as
  -- its number, is put at the end of the outgoing queue; but with no memory for the queue's element
  -- the queue is as before, and the code and the nonce are the same.
  pub recv_message-send_message :
      (keybuf p : Bytes) (k k' : Keyset) (queue : List Message)
      → k.nonce < 2 ^ 64
      → length p + 40 < 2 ^ 64
      → mem message_size ≡ true
      → mem (8 + length p + 32) ≡ true
      → mem (length p) ≡ true
      → (let client = expand_keyset keybuf 0 k in
          let server = expand_keyset keybuf 1 k' in
          let back = record server { nonce = k.nonce } in
          (send_message lib ib mem client p queue ≡ (
            success,
            record client { nonce = (k.nonce + 1) % 2 ^ 64 },
            if mem element_size then queue ++ (sealed client p ∷ []) else queue,
          ))
          × ((sealed client p).seq_num ≡ k.nonce)
          × (recv_message lib ib mem server (sealed client p) ≡ some p)
          × (recv_message lib ib mem client (sealed back p) ≡ some p))
  unfolding expand_keyset send_message recv_message encrypt_message
  recv_message-send_message keybuf p k k' queue fresh small mem_s mem_m mem_p =
      let client = expand_keyset keybuf 0 k in
      let server = expand_keyset keybuf 1 k' in
      (
        rw (mem_s, mem_m, send_message, encrypt_message) refl,
        refl,
        recv_message-sealed client server p refl refl fresh small mem_s mem_p,
        recv_message-sealed (record server { nonce = k.nonce }) client p refl refl fresh small mem_s
            mem_p,
      )

  -- A message that is shorter than a nonce and a MAC, or whose MAC is not that of the rest under
  -- the receiver's key, is dropped.
  pub recv_message-forged :
      (keys : Keyset) (m : Message)
      → (length m.message < 40)
        ⊎ (hmac_sha256 keys.recv_hmac_key (take (length m.message - 32) m.message)
            ≢ drop (length m.message - 32) m.message)
      → recv_message lib ib mem keys m ≡ none
  unfolding recv_message decrypt_message
  recv_message-forged keys m (inl short) = ground arith
  recv_message-forged keys m (inr wrong) = ground (
    arith,
    bytes_eq→eq (hmac_sha256 keys.recv_hmac_key (take (length m.message - 32) m.message))
        (drop (length m.message - 32) m.message),
  )
