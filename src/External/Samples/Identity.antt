-- ===== src/External/Samples/Identity.antt =====
-- Concrete functions that meet the laws asked of identity keys and of encryption with them: keys of
-- 512 bits, whose public form is that of the private key, with signatures and blocks of 64 bytes.
use ibchat.Prelude.{
  zero, suc, ◌+◌, ◌/◌, ◌%◌, ◌^◌, ◌≤◌, ◌==◌, ◌≡◌, refl, Bool, ◌&&◌, true, Option, some, none, Bytes,
  length, take, [], ◌∷◌, ◌++◌, arith, if◌then◌else◌, replicate, bytes_eq, bytes_eq_refl,
}
use ibchat.External.{RsaKeys, IdentityKeys, Oaep}
use ibchat.External.Samples.{libibur, dec64, checksum}

pub to_key : Bytes → Option Bytes
to_key [] = none
to_key (zero ∷ k) = some k
to_key (suc n ∷ k) = none

pub sign : Bytes → Bytes → Bytes
unfolding checksum
sign key text = replicate 64 (checksum 5 (key ++ text))

pub verify : Bytes → Bytes → Bytes → Option Bool
unfolding sign
verify k sig text = some (bytes_eq sig (sign k text))

pub verify-sign :
    (key k text sig : Bytes)
    → some key ≡ some k
    → some (sign key text) ≡ some sig
    → verify k sig text ≡ some true
unfolding verify
verify-sign key k text sig e h =
    let same : key ≡ k = cc e in
    let made : sign key text ≡ sig = cc h in rw (← made, ← same, bytes_eq_refl (sign key text)) refl

unfoldable pub identity_rsa : RsaKeys
unfolding to_key sign verify checksum
identity_rsa = record {
  rsa_pub_key = λ key. some key;
  rsa_pubkey_bufsize = λ k. 1 + length k;
  rsa_pubkey2wire = λ k. some (0 ∷ k);
  rsa_wire2pubkey = to_key;
  sig_size = λ k. 64;
  rsa_pss_sign = λ salt key text. some (sign key text);
  rsa_pss_verify = verify;
  length-rsa_pubkey2wire = λ k wire h. let e : 0 ∷ k ≡ wire = cc h in rw (← e) (omega arith);
  rsa_wire2pubkey-rsa_pubkey2wire = λ k wire h. let e : 0 ∷ k ≡ wire = cc h in rw (← e) refl;
  rsa_pss_verify-rsa_pss_sign = λ salt key k text sig e h. verify-sign key k text sig e h;
}

pub fits : Bytes → Bool
fits w = length w == 9 && (dec64 (take 8 w) + 7) % 2 ^ 64 / 8 == 64

pub to_private : Bytes → Option Bytes
unfolding fits
to_private w = if fits w then to_key w else none

pub to_public : Bytes → Option Bytes
unfolding fits
to_public w = if fits w then some w else none

pub to_public-shape :
    (w key p : Bytes)
    → to_private w ≡ some key
    → to_public w ≡ some p
    → (k : Bytes) × (some key ≡ some k)
      × (to_key p ≡ some k)
      × (take 8 p ≡ take 8 w)
      × (length p ≡ 9)
      × (8 ≤ length p)
unfolding to_private to_public fits
to_public-shape w key p h g =
    let same : p ≡ w = ground arith in
    let size : length w ≡ 9 = ground arith in
    (key, refl, rw same (ground arith), rw same, rw same size, rw same (omega arith))

pub length-signature :
    (w key text sig : Bytes)
    → to_private w ≡ some key
    → some (sign key text) ≡ some sig
    → length sig ≡ (dec64 (take 8 w) + 7) % 2 ^ 64 / 8
unfolding to_private sign fits checksum
length-signature w key text sig h g = ground arith

unfoldable pub identity_keys : IdentityKeys libibur identity_rsa
unfolding identity_rsa libibur to_private to_public fits to_key
identity_keys = record {
  rsa_wire2prikey = to_private;
  rsa_wire_prikey2pubkey = to_public;
  rsa_pubkey_bufsize = λ n. 9;
  rsa_wire_prikey2pubkey-public = to_public-shape;
  length-rsa_pss_sign = λ salt w key text sig h g. length-signature w key text sig h g;
}

-- A text that is as long as a block is its own block.
pub lock : Bytes → Bytes → Option Bytes
lock k text = if length text == (dec64 (take 8 (0 ∷ k)) + 7) % 2 ^ 64 / 8 then some text else none

pub length-lock :
    (wire k text block : Bytes)
    → to_key wire ≡ some k
    → lock k text ≡ some block
    → length block ≡ (dec64 (take 8 wire) + 7) % 2 ^ 64 / 8
unfolding to_key lock
length-lock [] k text block e h = absurd (ground arith)
length-lock (zero ∷ w) k text block e h = let same : w ≡ k = cc e in rw same (ground arith)
length-lock (suc n ∷ w) k text block e h = absurd (ground arith)

pub lock-opens : (k text block : Bytes) → lock k text ≡ some block → some block ≡ some text
unfolding lock
lock-opens k text block h = ground arith

unfoldable pub oaep : Oaep libibur identity_rsa
unfolding identity_rsa libibur lock to_key
oaep = record {
  rsa_oaep_encrypt = λ salt k text. lock k text;
  rsa_oaep_decrypt = λ key block. some block;
  rsa_oaep_decrypt-rsa_oaep_encrypt = λ salt key k text block e h. lock-opens k text block h;
  length-rsa_oaep_encrypt = λ salt wire k text block e h. length-lock wire k text block e h;
}
