-- ===== src/Client/Profile.antt =====
-- The user's profile: the keys that the password gives, and the file of the user's accounts
-- (client/profile.c and client/userfile.c).
pub mod Keys
pub mod Kept
mod Tests
use ibchat.Prelude.{
  ℕ, zero, suc, ◌+◌, ◌%◌, ◌^◌, ◌==◌, Bool, true, false, Option, none, some, Bytes, List, [], ◌∷◌,
  ◌++◌, take, drop, length, bytes_eq, if◌then◌else◌, ℤ, pos, negsuc,
}
use ibchat.External.{Libibur, Ibcrypt, Scrypt}
use ibchat.Files.{Files}
use ibchat.Codec.{Verdict, ok, error, undefined}
use ibchat.Client.DataFile.{FormatDesc, write_datafile, read_datafile}
use ibchat.Client.Account.{Account, account_bin_size, account_write_bin, account_parse_bin}

-- `struct profile`
pub record Profile : Type 0 where
  pub pass : Bytes
  pub salt : Bytes
  pub pw_check : Bytes
  pub symm_key : Bytes
  pub hmac_key : Bytes
  pub nonce : ℕ
  pub server_accounts : List Account
  pub expanded : Bool

module _ (sc : Scrypt) where
  -- The call of `scrypt` in the functions of profile.c.
  abbrev pub scrypt_out : Bytes → Bytes → Option Bytes
  scrypt_out pass salt = sc.scrypt pass salt (2 ^ 16) 8 1 96

  abbrev pub with_keys : Bytes → Profile → Profile
  with_keys out p = record p {
    pw_check = take 32 out;
    symm_key = take 32 (drop 32 out);
    hmac_key = take 32 (drop 64 out);
  }

  abbrev pub accept : Bytes → Profile → Bool → Bool × Profile
  accept out p true = (true, record (with_keys out p) { expanded = true })
  accept out p false = (false, p)

  abbrev pub expand_to : Profile → Option Bytes → Bool × Profile
  expand_to p none = (false, p)
  expand_to p (some out) = accept out p (bytes_eq (take 32 out) p.pw_check)

  -- The test whether the password is right, and the profile after the call.
  unfoldable pub key_expand : Profile → Bool × Profile
  key_expand p = expand_to p (scrypt_out p.pass p.salt)

  abbrev pub derive_for : Profile → Option Bytes → Bool × Profile
  derive_for p none = (false, p)
  derive_for p (some out) = (true, with_keys out p)

  -- The second argument is the answer of `cs_rand`. The salt is new even if `scrypt` fails.
  unfoldable pub profile_reseed : Option Bytes → Profile → Bool × Profile
  profile_reseed none p = (false, p)
  profile_reseed (some r) p = derive_for (record p { salt = r }) (scrypt_out p.pass r)

  unfoldable pub gen_profile : Option Bytes → Profile → Bool × Profile
  gen_profile none p = (false, p)
  gen_profile (some r) p =
      derive_for (record p { salt = r; nonce = 0; server_accounts = [] }) (scrypt_out p.pass r)

  abbrev pub key_of : (Profile → Bytes) → Bool × Profile → Option Bytes × Profile
  key_of key (true, p) = (some (key p), p)
  key_of key (false, p) = (none, p)

  -- `uf_s_key` and `uf_h_key`, which copy different keys.
  unfoldable pub uf_key : (Profile → Bytes) → Profile → Bytes → Option Bytes × Profile
  uf_key key p extra =
      let r =
        key_expand (record p { salt = take 0x20 extra; pw_check = take 0x20 (drop 0x20 extra) }) in
      if p.expanded then (some (key p), p) else key_of key r

  module _ (lib : Libibur) (ib : Ibcrypt) (mem : ℕ → Bool) where
    unfoldable pub uf_format : FormatDesc Profile Account
    uf_format = record {
      pref_len = 0x40;
      p_fill = λ p. some (p.salt ++ p.pw_check);
      s_key = uf_key (λ q. q.symm_key);
      h_key = uf_key (λ q. q.hmac_key);
      datalen = account_bin_size;
      datawrite = λ a. some (account_write_bin lib mem a);
      dataread = λ p. account_parse_bin lib mem;
    }

    module _ (root_dir : Bytes) where
      -- ROOT_DIR followed by "ufile.ibc"
      abbrev pub ufile : Bytes
      ufile = root_dir ++ (117 ∷ 102 ∷ 105 ∷ 108 ∷ 101 ∷ 46 ∷ 105 ∷ 98 ∷ 99 ∷ [])

      -- UFILE_PATH after the call, if that succeeds; the argument is what it was before.
      unfoldable pub init_acc_file_str : Option Bytes → Option Bytes
      init_acc_file_str (some path) = some path
      init_acc_file_str none = if mem (length root_dir + 9 + 1) then some ufile else none

      unfoldable pub write_userfile :
          Option Bytes → Option Bytes → Profile → Files → Verdict (Unit {0}) × Profile × Files
      write_userfile ufile_path random p fs = elim (init_acc_file_str ufile_path) [
        | none ↦ (error, p, fs)
        | some path ↦ write_datafile lib ib mem uf_format path random p p.server_accounts fs
      ]

      abbrev pub with_accounts : Verdict (List Account) × Profile → Verdict Profile
      with_accounts (ok accs, p) = ok (record p { server_accounts = accs })
      with_accounts (error, p) = error
      with_accounts (undefined, p) = undefined

      -- The profile with its accounts. What a failure leaves in the profile is not followed.
      unfoldable pub read_userfile : Option Bytes → Profile → Files → Verdict Profile
      read_userfile ufile_path p fs = elim (init_acc_file_str ufile_path) [
        | none ↦ error
        | some path ↦
            with_accounts
              (read_datafile lib ib mem uf_format path (record p { expanded = false }) fs)
      ]

      -- A failure to write the file is only logged.
      abbrev pub logged :
          Verdict (Unit {0}) × Profile × Files → Verdict (Unit {0}) × Profile × Files
      logged (error, p, fs) = (ok tt, p, fs)
      logged (ok tt, p, fs) = (ok tt, p, fs)
      logged (undefined, p, fs) = (undefined, p, fs)

      abbrev pub rewrite_reseeded :
          Option Bytes
          → Option Bytes
          → Files
          → Bool × Profile
          → Verdict (Unit {0}) × Profile × Files
      rewrite_reseeded ufile_path random fs (true, p) =
          logged (write_userfile ufile_path random p fs)
      rewrite_reseeded ufile_path random fs (false, p) = (error, p, fs)

      -- `salt` is the answer of `cs_rand` in `profile_reseed`.
      unfoldable pub rewrite_profile :
          Option Bytes
          → Option Bytes
          → Option Bytes
          → Profile
          → Files
          → Verdict (Unit {0}) × Profile × Files
      rewrite_profile ufile_path salt random p fs =
          let q = record p { nonce = (p.nonce + 1) % 2 ^ 64 } in
          if q.nonce == 0
          then rewrite_reseeded ufile_path random fs (profile_reseed salt q)
          else rewrite_reseeded ufile_path random fs (true, q)

      unfoldable pub add_account :
          Option Bytes
          → Option Bytes
          → Option Bytes
          → Account
          → Profile
          → Files
          → Verdict (Unit {0}) × Profile × Files
      add_account ufile_path salt random acc p fs =
          rewrite_profile ufile_path salt random
            (record p { server_accounts = p.server_accounts ++ (acc ∷ []) }) fs

      -- `userfile_dirty` is the global of client/ibchat_client.c.
      unfoldable pub check_userfile :
          Bool
          → Option Bytes
          → Option Bytes
          → Option Bytes
          → Profile
          → Files
          → Verdict (Unit {0}) × Profile × Files
      check_userfile userfile_dirty ufile_path salt random p fs =
          if userfile_dirty then rewrite_profile ufile_path salt random p fs else (ok tt, p, fs)
