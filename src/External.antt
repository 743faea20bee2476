-- ===== src/External.antt =====
-- What the program takes from the libraries libibur and ibcrypt, whose sources are not part of the
-- repository (they are git submodules). Each is a record of functions with the laws that their
-- documentation gives.
pub mod Samples
use ibchat.Prelude.{
  ◌++◌, ℕ, ◌+◌, ◌*◌, ◌/◌, ◌%◌, ◌^◌, ◌<◌, ◌≤◌, ◌≡◌, Bool, true, Option, some, Bytes, length, take,
}

-- libibur: big-endian coding and hexadecimal text.
pub record Libibur : Type 0 where
  pub encbe32 : ℕ → Bytes
  pub decbe32 : Bytes → ℕ
  pub encbe64 : ℕ → Bytes
  pub decbe64 : Bytes → ℕ
  pub to_hex : Bytes → Bytes
  pub from_hex : Bytes → Bytes
  pub length-encbe32 : (n : ℕ) → length (encbe32 n) ≡ 4
  pub length-encbe64 : (n : ℕ) → length (encbe64 n) ≡ 8
  pub decbe32-encbe32 : (n : ℕ) → n < 2 ^ 32 → decbe32 (encbe32 n) ≡ n
  pub decbe64-encbe64 : (n : ℕ) → n < 2 ^ 64 → decbe64 (encbe64 n) ≡ n
  pub decbe64-lt : (b : Bytes) → decbe64 b < 2 ^ 64
  pub to_hex_injective : (a b : Bytes) → to_hex a ≡ to_hex b → a ≡ b
  pub from_hex-to_hex : (b : Bytes) → from_hex (to_hex b) ≡ b
  pub length-to_hex : (b : Bytes) → length (to_hex b) ≡ 2 * length b

-- ibcrypt: digests, message authentication and the stream cipher. A context that is initialised,
-- updated and finalised gives the digest of the concatenated updates.
pub record Ibcrypt : Type 0 where
  pub sha256 : Bytes → Bytes
  pub hmac_sha256 : Bytes → Bytes → Bytes
  -- key, nonce, text
  pub chacha_enc : Bytes → ℕ → Bytes → Bytes
  pub chacha_dec : Bytes → ℕ → Bytes → Bytes
  pub length-sha256 : (b : Bytes) → length (sha256 b) ≡ 32
  pub length-hmac_sha256 : (key b : Bytes) → length (hmac_sha256 key b) ≡ 32
  pub length-chacha_enc : (key : Bytes) (n : ℕ) (b : Bytes) → length (chacha_enc key n b) ≡ length b
  pub chacha_dec-chacha_enc :
      (key : Bytes) (n : ℕ) (b : Bytes) → chacha_dec key n (chacha_enc key n b) ≡ b

-- ibcrypt's RSA with the server's key pair; a public key is an opaque value. Signing draws a salt.
pub record Rsa : Type 0 where
  -- (server_key.bits + 7) / 8
  pub sig_len : ℕ
  -- salt, text
  pub rsa_pss_sign : ℕ → Bytes → Option Bytes
  -- signature, text
  pub rsa_pss_verify : Bytes → Bytes → Bool
  pub rsa_pubkey2wire : Bytes → Bytes
  pub rsa_wire2pubkey : Bytes → Option Bytes
  pub length-rsa_pss_sign :
      (salt : ℕ) (text sig : Bytes) → rsa_pss_sign salt text ≡ some sig → length sig ≡ sig_len
  pub rsa_pss_verify-rsa_pss_sign :
      (salt : ℕ) (text sig : Bytes)
      → rsa_pss_sign salt text ≡ some sig
      → rsa_pss_verify sig text ≡ true
  pub rsa_wire2pubkey-rsa_pubkey2wire : (k : Bytes) → rsa_wire2pubkey (rsa_pubkey2wire k) ≡ some k
  pub sig_len-pos : 0 < sig_len
  pub length-rsa_pubkey2wire-pos : (k : Bytes) → 0 < length (rsa_pubkey2wire k)

-- ibcrypt's password hash: password, salt, the three cost parameters, and the length of the result.
pub record Scrypt : Type 0 where
  pub scrypt : Bytes → Bytes → ℕ → ℕ → ℕ → ℕ → Option Bytes
  pub length-scrypt :
      (pass salt : Bytes) (n r p len : ℕ) (out : Bytes)
      → scrypt pass salt n r p len ≡ some out
      → length out ≡ len

-- ibcrypt's RSA with keys as values. Signing draws a salt.
pub record RsaKeys : Type 0 where
  pub rsa_pub_key : Bytes → Option Bytes
  pub rsa_pubkey_bufsize : Bytes → ℕ
  pub rsa_pubkey2wire : Bytes → Option Bytes
  pub rsa_wire2pubkey : Bytes → Option Bytes
  -- (bits + 7) / 8 of a public key
  pub sig_size : Bytes → ℕ
  -- salt, private key, text
  pub rsa_pss_sign : ℕ → Bytes → Bytes → Option Bytes
  -- public key, signature, text; `none` is an error, which is not 0
  pub rsa_pss_verify : Bytes → Bytes → Bytes → Option Bool
  pub length-rsa_pubkey2wire :
      (k wire : Bytes) → rsa_pubkey2wire k ≡ some wire → length wire ≡ rsa_pubkey_bufsize k
  pub rsa_wire2pubkey-rsa_pubkey2wire :
      (k wire : Bytes) → rsa_pubkey2wire k ≡ some wire → rsa_wire2pubkey wire ≡ some k
  pub rsa_pss_verify-rsa_pss_sign :
      (salt : ℕ) (key k text sig : Bytes)
      → rsa_pub_key key ≡ some k
      → rsa_pss_sign salt key text ≡ some sig
      → rsa_pss_verify k sig text ≡ some true

-- ibcrypt's Diffie-Hellman in a group, with values as numbers, and its key derivation.
pub record KeyExchange : Type 0 where
  -- the result of initialising the context for a group: the bits of the group's prime
  pub dh_init_ctx : ℕ → Option ℕ
  -- exponent
  pub dh_gen_pub : ℕ → Option ℕ
  -- `none` is -1, `some false` is 0
  pub dh_range_check : ℕ → Option Bool
  -- exponent, public value
  pub dh_compute_secret : ℕ → ℕ → Option ℕ
  pub dh_valwire_bufsize : ℕ → ℕ
  pub dh_val2wire : ℕ → Option Bytes
  pub dh_wire2val : Bytes → Option ℕ
  -- password, iterations, length of the result; the salt is empty
  pub pbkdf2_hmac_sha256 : Bytes → ℕ → ℕ → Bytes
  pub length-dh_val2wire :
      (v : ℕ) (wire : Bytes) → dh_val2wire v ≡ some wire → length wire ≡ dh_valwire_bufsize v
  pub dh_wire2val-dh_val2wire :
      (v : ℕ) (wire : Bytes) → dh_val2wire v ≡ some wire → dh_wire2val wire ≡ some v
  pub dh_compute_secret_comm :
      (a b pub_a pub_b : ℕ)
      → dh_gen_pub a ≡ some pub_a
      → dh_gen_pub b ≡ some pub_b
      → dh_compute_secret a pub_b ≡ dh_compute_secret b pub_a

-- ibcrypt's form of one kind of RSA keys, private or public ones: it starts with the bits of the
-- key, which give its length.
pub record KeyWire (lib : Libibur) : Type 0 where
  pub bits : Bytes → ℕ
  pub bufsize : ℕ → ℕ
  pub key2wire : Bytes → Option Bytes
  pub wire2key : Bytes → Option Bytes
  pub tail : Bytes → Bytes
  pub key2wire-bits :
      (k wire : Bytes) → key2wire k ≡ some wire → wire ≡ lib.encbe64 (bits k) ++ tail k
  pub length-key2wire : (k wire : Bytes) → key2wire k ≡ some wire → length wire ≡ bufsize (bits k)
  pub wire2key-key2wire : (k wire : Bytes) → key2wire k ≡ some wire → wire2key wire ≡ some k
  pub bits-lt : (k : Bytes) → bits k < 2 ^ 64
  pub bufsize-lt : (n : ℕ) → bufsize n < 2 ^ 64

-- ibcrypt's forms of an identity key: the private key's, which starts with the bits of the key, and
-- the public key's that is made from it. The signature has (bits + 7) / 8 bytes.
pub record IdentityKeys (lib : Libibur) (rsa : RsaKeys) : Type 0 where
  pub rsa_wire2prikey : Bytes → Option Bytes
  pub rsa_wire_prikey2pubkey : Bytes → Option Bytes
  -- of the bits
  pub rsa_pubkey_bufsize : ℕ → ℕ
  pub rsa_wire_prikey2pubkey-public :
      (wire key pub_wire : Bytes)
      → rsa_wire2prikey wire ≡ some key
      → rsa_wire_prikey2pubkey wire ≡ some pub_wire
      → (k : Bytes) × (rsa.rsa_pub_key key ≡ some k)
        × (rsa.rsa_wire2pubkey pub_wire ≡ some k)
        × (take 8 pub_wire ≡ take 8 wire)
        × (length pub_wire ≡ rsa_pubkey_bufsize (lib.decbe64 (take 8 wire)))
        × (8 ≤ length pub_wire)
  pub length-rsa_pss_sign :
      (salt : ℕ) (wire key text sig : Bytes)
      → rsa_wire2prikey wire ≡ some key
      → rsa.rsa_pss_sign salt key text ≡ some sig
      → length sig ≡ (lib.decbe64 (take 8 wire) + 7) % 2 ^ 64 / 8

-- ibcrypt's encryption with RSA keys. Encryption draws a salt; a block has (bits + 7) / 8 bytes.
pub record Oaep (lib : Libibur) (rsa : RsaKeys) : Type 0 where
  -- salt, public key, text
  pub rsa_oaep_encrypt : ℕ → Bytes → Bytes → Option Bytes
  -- private key, block
  pub rsa_oaep_decrypt : Bytes → Bytes → Option Bytes
  pub rsa_oaep_decrypt-rsa_oaep_encrypt :
      (salt : ℕ) (key k text block : Bytes)
      → rsa.rsa_pub_key key ≡ some k
      → rsa_oaep_encrypt salt k text ≡ some block
      → rsa_oaep_decrypt key block ≡ some text
  pub length-rsa_oaep_encrypt :
      (salt : ℕ) (wire k text block : Bytes)
      → rsa.rsa_wire2pubkey wire ≡ some k
      → rsa_oaep_encrypt salt k text ≡ some block
      → length block ≡ (lib.decbe64 (take 8 wire) + 7) % 2 ^ 64 / 8
