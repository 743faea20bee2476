-- ===== src/External/Samples/Keys.antt =====
-- Concrete functions that meet the laws asked of RSA keys as values, of the key exchange, whose group
-- is that of the numbers under addition, and of the forms of keys in files.
use ibchat.Prelude.{
  ℕ, ◌+◌, ◌%◌, ◌^◌, ◌≡◌, refl, ap, Bool, true, Option, some, none, Bytes, length, ◌∷◌, ◌++◌, arith,
  replicate, bytes_eq, bytes_eq_refl, length-append, drop, drop-append_eq, leb, ltb, if◌then◌else◌,
}
use ibchat.External.{RsaKeys, KeyExchange, KeyWire}
use ibchat.External.Samples.{
  libibur, enc64, dec64, length-enc64, dec64-enc64, checksum, toy_sign, toy_pubkey,
}

pub toy_verify_by : Bytes → Bytes → Bytes → Option Bool
unfolding toy_sign
toy_verify_by k sig text = some (bytes_eq sig (toy_sign (k ++ text)))

pub toy_verify_by-toy_sign :
    (key k text sig : Bytes)
    → some key ≡ some k
    → some (toy_sign (key ++ text)) ≡ some sig
    → toy_verify_by k sig text ≡ some true
unfolding toy_verify_by
toy_verify_by-toy_sign key k text sig e h =
    let same : key ≡ k = cc e in
    let made : toy_sign (key ++ text) ≡ sig = cc h in
    rw (← made, ← same, bytes_eq_refl (toy_sign (key ++ text))) refl

unfoldable pub rsa_keys : RsaKeys
unfolding toy_sign toy_verify_by toy_pubkey
rsa_keys = record {
  rsa_pub_key = λ key. some key;
  rsa_pubkey_bufsize = λ k. 1 + length k;
  rsa_pubkey2wire = λ k. some (1 ∷ k);
  rsa_wire2pubkey = toy_pubkey;
  sig_size = λ k. 4;
  rsa_pss_sign = λ salt key text. some (toy_sign (key ++ text));
  rsa_pss_verify = toy_verify_by;
  length-rsa_pubkey2wire = λ k wire h. let e : 1 ∷ k ≡ wire = cc h in rw (← e) (omega arith);
  rsa_wire2pubkey-rsa_pubkey2wire = λ k wire h. let e : 1 ∷ k ≡ wire = cc h in rw (← e) refl;
  rsa_pss_verify-rsa_pss_sign =
      λ salt key k text sig e h. toy_verify_by-toy_sign key k text sig e h;
}

-- A value that fits eight bytes.
pub val2wire : ℕ → Option Bytes
val2wire v = if ltb v (2 ^ 64) then some (enc64 v) else none

pub length-val2wire : (v : ℕ) (wire : Bytes) → val2wire v ≡ some wire → length wire ≡ 8
unfolding val2wire
length-val2wire v wire h = ground (arith, length-enc64 v)

pub dec64-val2wire : (v : ℕ) (wire : Bytes) → val2wire v ≡ some wire → some (dec64 wire) ≡ some v
unfolding val2wire
dec64-val2wire v wire h = ground (arith, dec64-enc64 v)

unfoldable pub key_exchange : KeyExchange
unfolding enc64 dec64 checksum val2wire
key_exchange = record {
  dh_init_ctx = λ group. some 2048;
  dh_gen_pub = λ e. some (e + 3);
  dh_range_check = λ v. some (leb 1 v);
  dh_compute_secret = λ e v. some (e + v);
  dh_valwire_bufsize = λ v. 8;
  dh_val2wire = val2wire;
  dh_wire2val = λ b. some (dec64 b);
  pbkdf2_hmac_sha256 = λ secret rounds len. replicate len (checksum rounds secret);
  length-dh_val2wire = length-val2wire;
  dh_wire2val-dh_val2wire = dec64-val2wire;
  dh_compute_secret_comm = λ a b pub_a pub_b h₁ h₂.
      let e₁ : a + 3 ≡ pub_a = cc h₁ in let e₂ : b + 3 ≡ pub_b = cc h₂ in ap some (omega arith);
}

pub key2wire : Bytes → Option Bytes
key2wire k = if ltb (length k) (2 ^ 32) then some (enc64 (length k % 2 ^ 32) ++ k) else none

pub key2wire-shape :
    (k wire : Bytes) → key2wire k ≡ some wire → wire ≡ enc64 (length k % 2 ^ 32) ++ k
unfolding key2wire
key2wire-shape k wire h = ground arith

pub drop-key2wire : (k wire : Bytes) → key2wire k ≡ some wire → some (drop 8 wire) ≡ some k
drop-key2wire k wire h =
    rw
      (
        key2wire-shape k wire h,
        drop-append_eq 8 (enc64 (length k % 2 ^ 32)) k (length-enc64 (length k % 2 ^ 32)),
      )
      refl

pub length-key2wire :
    (k wire : Bytes) → key2wire k ≡ some wire → length wire ≡ (8 + length k % 2 ^ 32) % 2 ^ 63
unfolding key2wire
length-key2wire k wire h =
    let total = length-append (enc64 (length k % 2 ^ 32)) k in
    let e = length-enc64 (length k % 2 ^ 32) in rw (key2wire-shape k wire h) (ground arith)

unfoldable pub key_wire : KeyWire libibur
unfolding libibur enc64 key2wire
key_wire = record {
  bits = λ k. length k % 2 ^ 32;
  bufsize = λ n. (8 + n) % 2 ^ 63;
  key2wire = key2wire;
  wire2key = λ wire. some (drop 8 wire);
  tail = λ k. k;
  key2wire-bits = key2wire-shape;
  length-key2wire = length-key2wire;
  wire2key-key2wire = drop-key2wire;
  bits-lt = λ k. omega arith;
  bufsize-lt = λ n. omega arith;
}
