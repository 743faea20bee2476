-- ===== src/Crypto/Keyfile.antt =====
-- crypto/keyfile.c: RSA keys in files, private ones plain or encrypted under a password.
pub mod Sealed
pub mod Kept
mod Tests
use ibchat.Prelude.{
  ℕ, zero, suc, ◌+◌, ◌-◌, ◌%◌, ◌^◌, ◌==◌, Bool, true, false, Option, none, some, Bytes, List, [],
  ◌∷◌, ◌++◌, length, take, drop, bytes_eq, if◌then◌else◌, ℤ, pos, negsuc, success,
}
use ibchat.External.{Libibur, Ibcrypt, Scrypt, KeyWire}
use ibchat.Stdio.{Stream, Io, fread_bytes}
use ibchat.Files.{Files, store, open_old, can_create}

-- "ibrsakey"
abbrev pub magic : Bytes
magic = 105 ∷ 98 ∷ 114 ∷ 115 ∷ 97 ∷ 107 ∷ 101 ∷ 121 ∷ []

abbrev pub mem_fail : ℤ
mem_fail = negsuc 0

abbrev pub cryptography_fail : ℤ
cryptography_fail = pos 1

abbrev pub open_fail : ℤ
open_fail = pos 2

abbrev pub read_fail : ℤ
read_fail = pos 4

abbrev pub invalid_file : ℤ
invalid_file = pos 5

abbrev pub invalid_mac : ℤ
invalid_mac = pos 6

abbrev pub no_password : ℤ
no_password = pos 7

-- A value, or the code that the function returns.
pub data Result (A : Type 0) : Type 0 where
  got : A → Result A
  code : ℤ → Result A

abbrev pub Reading : Type 0 → Type 0
Reading A = Stream → Result A × Stream

abbrev pub pure : {A : Type 0} → A → Reading A
pure a s = (got a, s)

abbrev pub continue : {A B : Type 0} → Result A × Stream → (A → Reading B) → Result B × Stream
continue (got a, s) f = f a s
continue (code c, s) f = (code c, s)

infixl 5 ◌>>=◌ ◌>>◌
abbrev pub ◌>>=◌ : {A B : Type 0} → Reading A → (A → Reading B) → Reading B
◌>>=◌ m f s = continue (m s) f

abbrev pub ◌>>◌ : {B : Type 0} → Reading (Unit {0}) → Reading B → Reading B
m >> k = m >>= λ _. k

abbrev pub check : ℤ → Bool → Reading (Unit {0})
check c true s = (got tt, s)
check c false s = (code c, s)

abbrev pub attempt : {A : Type 0} → ℤ → Option A → Reading A
attempt c (some a) s = (got a, s)
attempt c none s = (code c, s)

abbrev read_result : Option Bytes × Stream → Result Bytes × Stream
read_result (some b, s) = (got b, s)
read_result (none, s) = (code read_fail, s)

-- READ(buf, n, in)
abbrev pub read : ℕ → Reading Bytes
read n s = read_result (fread_bytes n s)

-- What a function for reading returns, with the key.
abbrev pub returned : Result Bytes × Stream → Result Bytes
returned r = r.0

-- `mem n` is the allocator's answer to a request for `n` bytes.
module _ (lib : Libibur) (ib : Ibcrypt) (sc : Scrypt) (mem : ℕ → Bool) where
  open lib use {encbe64, decbe64}
  open ib use {hmac_sha256, chacha_enc, chacha_dec}

  abbrev pub keybuf_of : Bytes → Bytes → Option Bytes
  keybuf_of password salt = sc.scrypt password salt (2 ^ 16) 8 1 64

  -- What `write_pri_key_password` writes, with its return value. `salt` is the answer of `cs_rand`.
  unfoldable pub write_pri_key_password : Bytes → Bytes → Option Bytes → ℤ × Bytes
  write_pri_key_password key password none = (cryptography_fail, [])
  write_pri_key_password key password (some salt) = elim (keybuf_of password salt) [
    | none ↦ (cryptography_fail, [])
    | some keybuf ↦
        let cipher = chacha_enc (take 32 keybuf) 0 key in
        (success, encbe64 (length key) ++ (salt ++ (cipher ++ hmac_sha256 (drop 32 keybuf) cipher)))
  ]

  abbrev pub with_header : Bytes → ℤ × Bytes → ℤ × Bytes
  with_header header (c, b) = (c, header ++ b)

  -- What `write_pri_key` writes from the form `buf` of the key on, with its return value.
  unfoldable pub pri_key_contents : Bytes → Option Bytes → Option Bytes → ℤ × Bytes
  pri_key_contents buf none salt = (success, (magic ++ (encbe64 2 ++ encbe64 1)) ++ buf)
  pri_key_contents buf (some password) salt =
      with_header (magic ++ (encbe64 2 ++ encbe64 2)) (write_pri_key_password buf password salt)

  -- After a failure of `fopen` or of the conversion the null pointer is given to `fclose`: that is
  -- undefined, and the code is `none`.
  abbrev pub write_to : Bytes → Files → Bool → ℤ × Bytes → Option ℤ × Files
  write_to path fs true (c, b) = (some c, store path b fs)
  write_to path fs false (c, b) = (none, fs)

  unfoldable pub write_pri_key :
      KeyWire lib → Bytes → Bytes → Option Bytes → Option Bytes → Files → Option ℤ × Files
  write_pri_key pri key path password salt fs =
      if mem (pri.bufsize (pri.bits key))
      then elim (pri.key2wire key) [
        | none ↦ (none, fs)
        | some buf ↦ write_to path fs (can_create path fs) (pri_key_contents buf password salt)
      ]
      else (some mem_fail, fs)

  unfoldable pub write_pub_key : KeyWire lib → Bytes → Bytes → Files → Option ℤ × Files
  write_pub_key public key path fs =
      if mem (public.bufsize (public.bits key))
      then elim (public.key2wire key) [
        | none ↦ (none, fs)
        | some buf ↦ write_to path fs (can_create path fs) (success, (magic ++ encbe64 1) ++ buf)
      ]
      else (some mem_fail, fs)

  -- The form of a key that starts with the bits of the key.
  unfoldable pub read_sized : KeyWire lib → Reading Bytes
  read_sized wire = do
    size_buf ← read 8
    let size = wire.bufsize (decbe64 size_buf)
    check mem_fail (mem size)
    rest ← read ((size + 2 ^ 64 - 8) % 2 ^ 64)
    pure (size_buf ++ rest)

  unfoldable pub read_pri_key_password : Option Bytes → Reading Bytes
  read_pri_key_password given = do
    password ← attempt no_password given
    sizebuf ← read 8
    salt ← read 32
    let size = decbe64 sizebuf
    check mem_fail (mem size)
    keybuf ← attempt cryptography_fail (keybuf_of password salt)
    buf ← read size
    macbuf1 ← read 32
    check invalid_mac (bytes_eq macbuf1 (hmac_sha256 (drop 32 keybuf) buf))
    pure (chacha_dec (take 32 keybuf) 0 buf)

  -- The cases of the type of the file.
  unfoldable pub read_by_type : KeyWire lib → Option Bytes → ℕ → Reading Bytes
  read_by_type pri password type =
      if type == 1
      then read_sized pri
      else if type == 2
      then read_pri_key_password password
      else attempt invalid_file none

  unfoldable pub read_pri_key_from : KeyWire lib → Option Bytes → Reading Bytes
  read_pri_key_from pri password = do
    magic_buf ← read 8
    check invalid_file (bytes_eq magic_buf magic)
    num_buf ← read 8
    check invalid_file (decbe64 num_buf == 2)
    type_buf ← read 8
    buf ← read_by_type pri password (decbe64 type_buf)
    attempt cryptography_fail (pri.wire2key buf)

  unfoldable pub read_pri_key : KeyWire lib → Bytes → Option Bytes → Files → Result Bytes
  read_pri_key pri path password fs = elim (open_old path fs) [
    | none ↦ code open_fail
    | some contents ↦
        returned (read_pri_key_from pri password (record { bytes = contents; pos = 0 }))
  ]

  unfoldable pub read_pub_key_from : KeyWire lib → Reading Bytes
  read_pub_key_from public = do
    magic_buf ← read 8
    check invalid_file (bytes_eq magic_buf magic)
    num_buf ← read 8
    check invalid_file (decbe64 num_buf == 1)
    buf ← read_sized public
    attempt cryptography_fail (public.wire2key buf)

  unfoldable pub read_pub_key : KeyWire lib → Bytes → Files → Result Bytes
  read_pub_key public path fs = elim (open_old path fs) [
    | none ↦ code open_fail
    | some contents ↦ returned (read_pub_key_from public (record { bytes = contents; pos = 0 }))
  ]
