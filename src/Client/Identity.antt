-- ===== src/Client/Identity.antt =====
-- An identity key, as an account has it, and its public key.
use ibchat.Prelude.{◌≤◌, ◌≡◌, some, Bytes, length, take, arith}
use ibchat.External.{Libibur, RsaKeys, IdentityKeys}

module _ (lib : Libibur) (rsa : RsaKeys) (ids : IdentityKeys lib rsa) where
  -- The form `wire` of a private key `key`, the public key `k`, and the form `pub_wire` of that.
  pub record IsIdentity (wire key k pub_wire : Bytes) : Type 0 where
    pub expanded : ids.rsa_wire2prikey wire ≡ some key
    pub public_wire : ids.rsa_wire_prikey2pubkey wire ≡ some pub_wire
    pub public_key : rsa.rsa_pub_key key ≡ some k
    pub bits : 8 ≤ length wire

  pub IsIdentity-parsed :
      (wire key k pub_wire : Bytes)
      → IsIdentity wire key k pub_wire
      → (rsa.rsa_wire2pubkey pub_wire ≡ some k)
        × (take 8 pub_wire ≡ take 8 wire)
        × (length pub_wire ≡ ids.rsa_pubkey_bufsize (lib.decbe64 (take 8 wire)))
        × (8 ≤ length pub_wire)
  IsIdentity-parsed wire key k pub_wire i =
      let public = ids.rsa_wire_prikey2pubkey-public wire key pub_wire i.expanded i.public_wire in
      let same : public.0 ≡ k = ground (arith, public.1, i.public_key) in
      (rw (← same) public.2, public.3, public.4, public.5)
