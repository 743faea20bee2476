-- ===== src/Client/LogIn/Pinned.antt =====
-- The server's key, by its fingerprint in the account.
use ibchat.Prelude.{ℕ, ◌≡◌, ◌⊎◌, Bool, some, Bytes, ℤ, pos}
use ibchat.External.{Libibur, Ibcrypt, RsaKeys, IdentityKeys}
use ibchat.Client.Account.{Account}

module _ (lib : Libibur) (ib : Ibcrypt) (rsa : RsaKeys) (ids : IdentityKeys lib rsa)
    (mem : ℕ → Bool) where
  -- The account that a log-in leaves has the fingerprint of the server's key, which it had before or
  -- to which the user has said yes; all else is as it was.
  abbrev pub IsPinned : Account → Bytes → ℤ → ℤ → Account → Type 0
  IsPinned acc key sure ret acc' =
      (wire : Bytes) × (rsa.rsa_pubkey2wire key ≡ some wire)
      × (acc' ≡ record acc { sfing = ib.sha256 wire })
      × ((acc.sfing ≡ ib.sha256 wire) ⊎ ((sure ≡ pos 1) × (ret ≡ pos 1)))
