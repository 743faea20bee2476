-- ===== src/Server/NewUser.antt =====
-- The set-up of a new user in server/user_db.c: a random authentication key, a file for waiting
-- messages, and the copy of the public key.
pub mod Mailbox
mod Tests
use ibchat.Prelude.{
  ℕ, Bool, true, false, Option, none, some, Bytes, ℤ, pos, negsuc, zero, suc, success,
  if◌then◌else◌,
}
use ibchat.External.{Libibur, Ibcrypt}
use ibchat.Files.{Files}
use ibchat.Server.Undelivered.{User, undel_init_file}

module _ (lib : Libibur) (ib : Ibcrypt) (mem : ℕ → Bool) (undel_dir : Bytes) where
  -- The first argument is what `cs_rand` writes, where it succeeds.
  unfoldable pub gen_undel_file : Option Bytes → User → Files → ℤ × User × Files
  gen_undel_file none u fs = (pos 1, u, fs)
  gen_undel_file (some auth) u fs =
      let ready = record u { und_auth = auth } in
      let r = undel_init_file lib ib mem undel_dir ready fs in (r.0, ready, r.1)

  -- Past the test of `gen_undel_file`: `copied` says whether `bni_cpy` succeeds.
  abbrev pub with_key : Bool → Bytes → ℤ × User × Files → ℤ × User × Files
  with_key true pkey (pos zero, u, fs) = (success, record u { pkey = pkey }, fs)
  with_key false pkey (pos zero, u, fs) = (pos 1, u, fs)
  with_key copied pkey (pos (suc n), u, fs) = (pos 1, u, fs)
  with_key copied pkey (negsuc n, u, fs) = (pos 1, u, fs)

  unfoldable pub user_init : Option Bytes → Bool → Bytes → Bytes → User → Files → ℤ × User × Files
  user_init random copied uid pkey u fs =
      with_key copied pkey (gen_undel_file random (record u { uid = uid }) fs)
