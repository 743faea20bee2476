-- ===== src/Crypto/Keyfile/Kept.antt =====
-- What is read from a private key's file that was written.
use ibchat.Prelude.{
  plenty, ℕ, ◌^◌, ◌<◌, ◌≡◌, ◌≢◌, refl, true, Option, none, some, Bytes, [], ◌++◌, length,
  append_assoc, take, drop, ℤ, success, arith,
}
use ibchat.External.{Libibur, Ibcrypt, Scrypt, KeyWire}
use ibchat.Stdio.{Stream, fread_bytes}
use ibchat.Stdio.Steps.{at, fread_bytes-at}
use ibchat.Files.{Files, can_create, store, open_old-store_self}
use ibchat.Crypto.Keyfile.{
  Result, got, code, continue, attempt, cryptography_fail, magic, no_password, invalid_mac,
  keybuf_of, pri_key_contents, write_pri_key, read_pri_key_password, read_by_type,
  read_pri_key_from, read_pri_key,
}
use ibchat.Crypto.Keyfile.Sealed.{
  sealed, sealed-written, read_sized-at, read_pri_key_password-right, read_pri_key_password-wrong,
}

module _ (lib : Libibur) (ib : Ibcrypt) (sc : Scrypt) where
  open lib use {encbe64, decbe64}
  open ib use {hmac_sha256, chacha_enc, chacha_dec}

  -- The header of a private key's file of a type.
  abbrev file_header : ℕ → Bytes
  file_header type = magic ++ (encbe64 2 ++ encbe64 type)

  abbrev finish : KeyWire lib → Result Bytes × Stream → Result Bytes × Stream
  finish pri r = continue r (λ buf. attempt cryptography_fail (pri.wire2key buf))

  -- Past the header the file is read by its type.
  read_pri_key_from-file_header :
      (pri : KeyWire lib) (given : Option Bytes) (type : ℕ) (rest : Bytes)
      → type < 2 ^ 64
      → read_pri_key_from lib ib sc plenty pri given (at [] (file_header type ++ rest))
        ≡ finish pri (read_by_type lib ib sc plenty pri given type (at (file_header type) rest))
  unfolding read_pri_key_from
  read_pri_key_from-file_header pri given type rest small =
      let n₁ = encbe64 2 in
      let n₂ = encbe64 type in
      let cut : file_header type ++ rest ≡ magic ++ (n₁ ++ (n₂ ++ rest)) = simp append_assoc in
      let first : fread_bytes 8 (at [] (file_header type ++ rest))
          ≡ (some magic, at magic (n₁ ++ (n₂ ++ rest))) =
        rw cut (fread_bytes-at 8 [] magic (n₁ ++ (n₂ ++ rest)) refl) in
      rw
        (
          first,
          fread_bytes-at 8 magic n₁ (n₂ ++ rest) (lib.length-encbe64 2),
          lib.decbe64-encbe64 2 (omega arith),
          fread_bytes-at 8 (magic ++ n₁) n₂ rest (lib.length-encbe64 type),
          lib.decbe64-encbe64 type small,
        )
        refl

  finish-got :
      (pri : KeyWire lib) (k buf : Bytes) (r : Result Bytes × Stream)
      → pri.key2wire k ≡ some buf
      → r.0 ≡ got buf
      → (finish pri r).0 ≡ got k
  finish-got pri k buf r formed e = rw (e, pri.wire2key-key2wire k buf formed) refl

  finish-code :
      (pri : KeyWire lib) (c : ℤ) (r : Result Bytes × Stream)
      → r.0 ≡ code c
      → (finish pri r).0 ≡ code c
  finish-code pri c r e = rw e refl

  module _ (pri : KeyWire lib) (key buf salt keybuf path : Bytes) (fs : Files)
      (formed : pri.key2wire key ≡ some buf) (salted : length salt ≡ 32)
      (able : can_create path fs ≡ true) where
    short : length buf < 2 ^ 64
    short = omega (arith, pri.length-key2wire key buf formed, pri.bufsize-lt (pri.bits key))

    write_pri_key-contents :
        (password : Option Bytes)
        → write_pri_key lib ib sc plenty pri key path password (some salt) fs ≡ (
          some (pri_key_contents lib ib sc plenty buf password (some salt)).0,
          store path (pri_key_contents lib ib sc plenty buf password (some salt)).1 fs,
        )
    unfolding write_pri_key
    write_pri_key-contents password = rw (write_pri_key, formed, able) refl

    read_written :
        (given : Option Bytes) (type : ℕ) (rest : Bytes)
        → type < 2 ^ 64
        → read_pri_key lib ib sc plenty pri path given (store path (file_header type ++ rest) fs)
          ≡ (finish pri
              (read_by_type lib ib sc plenty pri given type (at (file_header type) rest))).0
    unfolding read_pri_key
    read_written given type rest small =
        rw
          (
            open_old-store_self path (file_header type ++ rest) fs able,
            read_pri_key,
            read_pri_key_from-file_header pri given type rest small,
          )
          refl

    -- A private key that was written without a password is read again. One that was written with a
    -- password is read again with that password. It is not read without one, where the code is
    -- NO_PASSWORD, nor with another password under whose key the MAC of the encrypted key is another,
    -- where it is INVALID_MAC. The key has a form, the path can be created, 32 random bytes are
    -- drawn, `scrypt` succeeds, and there is memory.
    pub read_pri_key-write_pri_key :
        (password other keybuf' : Bytes)
        → keybuf_of lib ib sc plenty password salt ≡ some keybuf
        → keybuf_of lib ib sc plenty other salt ≡ some keybuf'
        → hmac_sha256 (drop 32 keybuf) (chacha_enc (take 32 keybuf) 0 buf)
          ≢ hmac_sha256 (drop 32 keybuf') (chacha_enc (take 32 keybuf) 0 buf)
        → (let plain = write_pri_key lib ib sc plenty pri key path none (some salt) fs in
            let w = write_pri_key lib ib sc plenty pri key path (some password) (some salt) fs in
            (plain.0 ≡ some success)
            × (read_pri_key lib ib sc plenty pri path none plain.1 ≡ got key)
            × (w.0 ≡ some success)
            × (read_pri_key lib ib sc plenty pri path (some password) w.1 ≡ got key)
            × (read_pri_key lib ib sc plenty pri path none w.1 ≡ code no_password)
            × (read_pri_key lib ib sc plenty pri path (some other) w.1 ≡ code invalid_mac))
    unfolding pri_key_contents read_by_type read_pri_key_password
    read_pri_key-write_pri_key password other keybuf' h h' apart =
        let body = sealed lib ib sc buf password salt keybuf salted h short in
        rw
          (
            write_pri_key-contents none,
            write_pri_key-contents (some password),
            sealed-written lib ib sc buf password salt keybuf salted h short,
          )
          (
            refl,
            rw (read_written none 1 buf (omega arith)) (
                finish-got pri key buf _ formed
                  (read_sized-at lib ib sc pri key buf (file_header 1) formed)),
            refl,
            rw (read_written (some password) 2 body (omega arith)) (
                finish-got pri key buf _ formed (
                  read_pri_key_password-right lib ib sc buf password salt keybuf salted h short
                    (file_header 2))),
            rw (read_written none 2 body (omega arith)) refl,
            rw (read_written (some other) 2 body (omega arith)) (
                finish-code pri invalid_mac _ (
                  read_pri_key_password-wrong lib ib sc buf password salt keybuf salted h short
                    (file_header 2) other keybuf' h' apart)),
          )
