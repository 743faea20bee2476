-- ===== src/External/Samples.antt =====
-- Concrete functions that meet the laws asked of the external libraries: the real big-endian
-- coding, nibbles for hexadecimal text, and toy digests and a toy cipher.
pub mod Keys
pub mod Identity
use ibchat.Prelude.{
  ℕ, zero, suc, ap, ◌==◌, if◌then◌else◌, ◌+◌, ◌-◌, ◌*◌, ◌/◌, ◌%◌, ◌^◌, ◌<◌, ◌≡◌, refl, Bytes,
  length, [], ◌∷◌, arith, get_or, replicate, ◌++◌, map, length-map, Bool, true, Option, some, none,
  bytes_eq, bytes_eq_refl,
}
use ibchat.External.{Libibur, Ibcrypt, Rsa, Scrypt}

pub enc32 : ℕ → Bytes
enc32 n = (n / 2 ^ 24 % 256) ∷ (n / 2 ^ 16 % 256) ∷ (n / 2 ^ 8 % 256) ∷ (n % 256) ∷ []

pub dec32 : Bytes → ℕ
dec32 b =
    (get_or b 0 0 * 2 ^ 24 + get_or b 1 0 * 2 ^ 16 + get_or b 2 0 * 2 ^ 8 + get_or b 3 0) % 2 ^ 32

pub enc64 : ℕ → Bytes
enc64 n =
    (n / 2 ^ 56 % 256)
    ∷ (n / 2 ^ 48 % 256)
    ∷ (n / 2 ^ 40 % 256)
    ∷ (n / 2 ^ 32 % 256)
    ∷ (n / 2 ^ 24 % 256)
    ∷ (n / 2 ^ 16 % 256)
    ∷ (n / 2 ^ 8 % 256)
    ∷ (n % 256)
    ∷ []

pub dec64 : Bytes → ℕ
dec64 b =
    (get_or b 0 0 * 2 ^ 56
      + get_or b 1 0 * 2 ^ 48
      + get_or b 2 0 * 2 ^ 40
      + get_or b 3 0 * 2 ^ 32
      + get_or b 4 0 * 2 ^ 24
      + get_or b 5 0 * 2 ^ 16
      + get_or b 6 0 * 2 ^ 8
      + get_or b 7 0)
    % 2 ^ 64

pub dec32-enc32 : (n : ℕ) → n < 2 ^ 32 → dec32 (enc32 n) ≡ n
unfolding dec32 enc32
dec32-enc32 n h = omega arith

pub dec64-enc64 : (n : ℕ) → n < 2 ^ 64 → dec64 (enc64 n) ≡ n
unfolding dec64 enc64
dec64-enc64 n h = omega arith

pub length-enc32 : (n : ℕ) → length (enc32 n) ≡ 4
unfolding enc32
length-enc32 n = refl

pub length-enc64 : (n : ℕ) → length (enc64 n) ≡ 8
unfolding enc64
length-enc64 n = refl

pub dec64-lt : (b : Bytes) → dec64 b < 2 ^ 64
unfolding dec64
dec64-lt b = omega arith

pub nibbles : Bytes → Bytes
nibbles [] = []
nibbles (b ∷ bs) = (b / 16) ∷ (b % 16) ∷ nibbles bs

pub nibbles_injective : (a b : Bytes) → nibbles a ≡ nibbles b → a ≡ b
unfolding nibbles
nibbles_injective [] [] h = refl
nibbles_injective [] (y ∷ ys) h = ground arith
nibbles_injective (x ∷ xs) [] h = ground arith
nibbles_injective (x ∷ xs) (y ∷ ys) h = ground (arith, nibbles_injective xs ys)

pub bytes_of : Bytes → Bytes
bytes_of [] = []
bytes_of (h ∷ []) = []
bytes_of (h ∷ l ∷ bs) = (h * 16 + l) ∷ bytes_of bs

pub bytes_of-nibbles : (b : Bytes) → bytes_of (nibbles b) ≡ b
unfolding bytes_of nibbles
bytes_of-nibbles [] = refl
bytes_of-nibbles (x ∷ xs) =
    let e : x / 16 * 16 + x % 16 ≡ x = omega arith in rw (e, bytes_of-nibbles xs) refl

pub length-nibbles : (b : Bytes) → length (nibbles b) ≡ 2 * length b
unfolding nibbles
length-nibbles [] = refl
length-nibbles (x ∷ xs) = omega (arith, length-nibbles xs)

pub checksum : ℕ → Bytes → ℕ
checksum acc [] = acc % 256
checksum acc (b ∷ bs) = checksum (acc * 31 + b + 7) bs

-- Only the last byte depends on the text, so that words of a digest do not cancel out.
pub toy_digest : ℕ → Bytes → Bytes
unfolding checksum
toy_digest acc b = replicate 31 0 ++ (checksum acc b ∷ [])

pub length-toy_digest : (acc : ℕ) (b : Bytes) → length (toy_digest acc b) ≡ 32
unfolding toy_digest
length-toy_digest acc b = refl

pub toy_shift : Bytes → ℕ → ℕ
unfolding checksum
toy_shift key n = checksum n key

pub toy_enc : Bytes → ℕ → Bytes → Bytes
unfolding toy_shift
toy_enc key n b = map (λ x. x + toy_shift key n) b

pub toy_dec : Bytes → ℕ → Bytes → Bytes
unfolding toy_shift
toy_dec key n b = map (λ x. x - toy_shift key n) b

pub length-toy_enc : (key : Bytes) (n : ℕ) (b : Bytes) → length (toy_enc key n b) ≡ length b
unfolding toy_enc
length-toy_enc key n b = length-map b _

pub toy_dec-toy_enc : (key : Bytes) (n : ℕ) (b : Bytes) → toy_dec key n (toy_enc key n b) ≡ b
unfolding toy_dec toy_enc
toy_dec-toy_enc key n [] = refl
toy_dec-toy_enc key n (x ∷ xs) = ground (arith, toy_dec-toy_enc key n xs)

unfoldable pub libibur : Libibur
unfolding enc32 dec32 enc64 dec64 nibbles bytes_of
libibur = record {
  encbe32 = enc32;
  decbe32 = dec32;
  encbe64 = enc64;
  decbe64 = dec64;
  to_hex = nibbles;
  from_hex = bytes_of;
  length-encbe32 = length-enc32;
  length-encbe64 = length-enc64;
  decbe32-encbe32 = dec32-enc32;
  decbe64-encbe64 = dec64-enc64;
  decbe64-lt = dec64-lt;
  to_hex_injective = nibbles_injective;
  from_hex-to_hex = bytes_of-nibbles;
  length-to_hex = length-nibbles;
}

unfoldable pub ibcrypt : Ibcrypt
unfolding toy_digest checksum toy_enc toy_dec
ibcrypt = record {
  sha256 = toy_digest 1;
  hmac_sha256 = λ key b. toy_digest (checksum 3 key) b;
  chacha_enc = toy_enc;
  chacha_dec = toy_dec;
  length-sha256 = length-toy_digest 1;
  length-hmac_sha256 = λ key b. length-toy_digest (checksum 3 key) b;
  length-chacha_enc = length-toy_enc;
  chacha_dec-chacha_enc = toy_dec-toy_enc;
}

pub toy_sign : Bytes → Bytes
toy_sign text = replicate 4 (checksum 5 text)

pub toy_verify : Bytes → Bytes → Bool
unfolding toy_sign
toy_verify sig text = bytes_eq sig (toy_sign text)

pub toy_verify-toy_sign :
    (text sig : Bytes) → some (toy_sign text) ≡ some sig → toy_verify sig text ≡ true
unfolding toy_verify
toy_verify-toy_sign text sig h = ground (arith, bytes_eq_refl sig)

pub toy_pubkey : Bytes → Option Bytes
toy_pubkey [] = none
toy_pubkey (tag ∷ k) = some k

unfoldable pub rsa : Rsa
unfolding toy_sign toy_verify toy_pubkey
rsa = record {
  sig_len = 4;
  rsa_pss_sign = λ salt text. some (toy_sign text);
  rsa_pss_verify = toy_verify;
  rsa_pubkey2wire = λ k. 1 ∷ k;
  rsa_wire2pubkey = toy_pubkey;
  length-rsa_pss_sign = λ salt text sig h. cc h;
  rsa_pss_verify-rsa_pss_sign = λ salt text sig h. toy_verify-toy_sign text sig h;
  rsa_wire2pubkey-rsa_pubkey2wire = λ k. refl;
  sig_len-pos = omega arith;
  length-rsa_pubkey2wire-pos = λ k. omega arith;
}

-- The last byte of each block of 32 bytes.
pub toy_blocks : ℕ → ℕ → Bytes
toy_blocks zero x = []
toy_blocks (suc n) x = (if n % 32 == 0 then x else 0) ∷ toy_blocks n x

pub length-toy_blocks : (n x : ℕ) → length (toy_blocks n x) ≡ n
unfolding toy_blocks
length-toy_blocks zero x = refl
length-toy_blocks (suc n) x = ap suc (length-toy_blocks n x)

pub toy_scrypt : Bytes → Bytes → ℕ → Bytes
unfolding checksum toy_blocks
toy_scrypt pass salt len = toy_blocks len (checksum (checksum 11 pass) salt)

pub length-toy_scrypt :
    (pass salt : Bytes) (len : ℕ) (out : Bytes)
    → some (toy_scrypt pass salt len) ≡ some out
    → length out ≡ len
unfolding toy_scrypt
length-toy_scrypt pass salt len out h =
    let e : toy_scrypt pass salt len ≡ out = cc h in rw (← e) (length-toy_blocks len _)

unfoldable pub scrypt_lib : Scrypt
unfolding toy_scrypt toy_blocks checksum
scrypt_lib = record {
  scrypt = λ pass salt n r p len. some (toy_scrypt pass salt len);
  length-scrypt = λ pass salt n r p len out h. length-toy_scrypt pass salt len out h;
}
