-- ===== src/Client/Friendreq/Samples.antt =====
-- Two users with keys, one of whom answers the other's friend request.
use ibchat.Prelude.{plenty, refl, ℕ, some, none, Bytes, [], ◌∷◌, replicate, arith}
use ibchat.External.Samples.{libibur, ibcrypt}
use ibchat.External.Samples.Identity.{identity_rsa, identity_keys, oaep}
use ibchat.Crypto.Handshake.Flow.{Hs}
use ibchat.Client.Account.{Account}
use ibchat.Client.Identity.{IsIdentity}
use ibchat.Client.NotifFile.{Client}
use ibchat.Client.RsaMessage.{fields, signed_part}
use ibchat.Client.RsaMessage.Kept.{CanSend}
use ibchat.Client.Samples.{account_with, no_files}

-- 512 bits
abbrev pub wire_of : ℕ → Bytes
wire_of n = 0 ∷ 0 ∷ 0 ∷ 0 ∷ 0 ∷ 0 ∷ 2 ∷ 0 ∷ n ∷ []

abbrev pub key_of : ℕ → Bytes
key_of n = 0 ∷ 0 ∷ 0 ∷ 0 ∷ 0 ∷ 2 ∷ 0 ∷ n ∷ []

abbrev pub user : ℕ → Account
user n = record (account_with []) { uname = n ∷ []; key_bin = wire_of n }

abbrev pub alice : Client
alice = record { acc = user 97; notifs = []; mode = 0; files = no_files }

abbrev pub bob : Client
bob = record { acc = user 98; notifs = []; mode = 0; files = no_files }

pub is_identity :
    (n : ℕ)
    → IsIdentity libibur identity_rsa identity_keys (wire_of n) (key_of n) (key_of n) (wire_of n)
unfolding libibur ibcrypt identity_rsa identity_keys oaep
is_identity n = record {
  expanded = refl;
  public_wire = refl;
  public_key = refl;
  bits = omega arith;
}

abbrev pub keys : Bytes
keys = replicate 64 4

abbrev pub shared : Bytes
shared = replicate 128 7

abbrev pub sig : Bytes
sig =
    elim (identity_rsa.rsa_pss_sign 0 (key_of 98) (
      signed_part libibur ibcrypt identity_rsa identity_keys oaep plenty 2 keys keys (
        fields libibur ibcrypt identity_rsa identity_keys oaep plenty (user 98) (wire_of 98)
          shared))) [ none ↦ [] | some s ↦ s ]

pub sends :
    CanSend libibur ibcrypt identity_rsa identity_keys oaep 2
      (user 98)
      (user 97)
      (key_of 98)
      (key_of 98)
      (wire_of 98)
      (key_of 97)
      (key_of 97)
      (wire_of 97)
      keys
      keys
      shared
      sig
      0
      0
unfolding libibur ibcrypt identity_rsa identity_keys oaep
sends = record {
  sender = is_identity 98;
  receiver = is_identity 97;
  locked = refl;
  signed = refl;
  some_sig = omega arith;
  small = omega arith;
}

abbrev pub side : Hs
side = record {
  keys = record {
    send_symm_key = 1 ∷ [];
    recv_symm_key = 1 ∷ [];
    send_hmac_key = 2 ∷ [];
    recv_hmac_key = 2 ∷ [];
    nonce = 0;
  };
  sent = [];
  res = 0;
}
