-- ===== src/Crypto/Keyfile/Sealed.antt =====
-- A key's form in a file, plain or encrypted under a password.
use ibchat.Prelude.{
  plenty, ℕ, ◌+◌, ◌-◌, ◌%◌, ◌^◌, ◌<◌, ◌≡◌, ◌≢◌, refl, ap, some, Bytes, [], ◌++◌, length,
  length-append, append-nil, take, drop, bytes_eq_refl, bytes_eq-ne, success, arith,
}
use ibchat.External.{Libibur, Ibcrypt, Scrypt, KeyWire}
use ibchat.Stdio.{fread_bytes}
use ibchat.Stdio.Steps.{at, fread_bytes-at}
use ibchat.Crypto.Keyfile.{
  got, code, invalid_mac, keybuf_of, write_pri_key_password, read_sized, read_pri_key_password,
}

-- The last chunk of a stream.
fread_bytes-last :
    (n : ℕ) (before chunk : Bytes)
    → length chunk ≡ n
    → fread_bytes n (at before chunk) ≡ (some chunk, at (before ++ chunk) [])
fread_bytes-last n before chunk size =
    let r : fread_bytes n (at before (chunk ++ [])) ≡ (some chunk, at (before ++ chunk) []) =
      fread_bytes-at n before chunk [] size in
    rw (append-nil chunk) at r

module _ (lib : Libibur) (ib : Ibcrypt) (sc : Scrypt) where
  open lib use {encbe64, decbe64}
  open ib use {hmac_sha256, chacha_enc, chacha_dec}

  pub read_sized-at :
      (wire : KeyWire lib) (k buf before : Bytes)
      → wire.key2wire k ≡ some buf
      → (read_sized lib ib sc plenty wire (at before buf)).0 ≡ got buf
  unfolding read_sized
  read_sized-at wire k buf before formed =
      let bits = encbe64 (wire.bits k) in
      let rest = wire.tail k in
      let shape : buf ≡ bits ++ rest = wire.key2wire-bits k buf formed in
      let size : length rest ≡ (wire.bufsize (wire.bits k) + 2 ^ 64 - 8) % 2 ^ 64 = omega (
        arith,
        ap (λ (b : Bytes). length b) shape,
        length-append bits rest,
        lib.length-encbe64 (wire.bits k),
        wire.length-key2wire k buf formed,
        wire.bufsize-lt (wire.bits k),
      ) in
      rw
        (
          shape,
          fread_bytes-at 8 before bits rest (lib.length-encbe64 (wire.bits k)),
          lib.decbe64-encbe64 (wire.bits k) (wire.bits-lt k),
          fread_bytes-last _ (before ++ bits) rest size,
        )
        refl

  module _ (key password salt keybuf : Bytes) (salted : length salt ≡ 32)
      (derived : keybuf_of lib ib sc plenty password salt ≡ some keybuf)
      (small : length key < 2 ^ 64) where
    abbrev cipher : Bytes
    cipher = chacha_enc (take 32 keybuf) 0 key

    abbrev pub sealed : Bytes
    sealed = encbe64 (length key) ++ (salt ++ (cipher ++ hmac_sha256 (drop 32 keybuf) cipher))

    pub sealed-written :
        write_pri_key_password lib ib sc plenty key password (some salt) ≡ (success, sealed)
    unfolding write_pri_key_password
    sealed-written = rw (write_pri_key_password, derived) refl

    pub read_pri_key_password-right :
        (before : Bytes)
        → (read_pri_key_password lib ib sc plenty (some password) (at before sealed)).0 ≡ got key
    unfolding read_pri_key_password
    read_pri_key_password-right before =
        let n = encbe64 (length key) in
        let mac = hmac_sha256 (drop 32 keybuf) cipher in
        rw
          (
            fread_bytes-at 8 before n (salt ++ (cipher ++ mac)) (lib.length-encbe64 (length key)),
            fread_bytes-at 32 (before ++ n) salt (cipher ++ mac) salted,
            lib.decbe64-encbe64 (length key) small,
            derived,
            fread_bytes-at (length key) ((before ++ n) ++ salt) cipher mac
                (ib.length-chacha_enc (take 32 keybuf) 0 key),
            fread_bytes-last 32 (((before ++ n) ++ salt) ++ cipher) mac
                (ib.length-hmac_sha256 (drop 32 keybuf) cipher),
            bytes_eq_refl mac,
            ib.chacha_dec-chacha_enc (take 32 keybuf) 0 key,
          )
          refl

    pub read_pri_key_password-wrong :
        (before other keybuf' : Bytes)
        → keybuf_of lib ib sc plenty other salt ≡ some keybuf'
        → hmac_sha256 (drop 32 keybuf) cipher ≢ hmac_sha256 (drop 32 keybuf') cipher
        → (read_pri_key_password lib ib sc plenty (some other) (at before sealed)).0
          ≡ code invalid_mac
    unfolding read_pri_key_password
    read_pri_key_password-wrong before other keybuf' derived' apart =
        let n = encbe64 (length key) in
        let mac = hmac_sha256 (drop 32 keybuf) cipher in
        rw
          (
            fread_bytes-at 8 before n (salt ++ (cipher ++ mac)) (lib.length-encbe64 (length key)),
            fread_bytes-at 32 (before ++ n) salt (cipher ++ mac) salted,
            lib.decbe64-encbe64 (length key) small,
            derived',
            fread_bytes-at (length key) ((before ++ n) ++ salt) cipher mac
                (ib.length-chacha_enc (take 32 keybuf) 0 key),
            fread_bytes-last 32 (((before ++ n) ++ salt) ++ cipher) mac
                (ib.length-hmac_sha256 (drop 32 keybuf) cipher),
            bytes_eq-ne mac (hmac_sha256 (drop 32 keybuf') cipher) apart,
          )
          refl
