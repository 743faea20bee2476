-- ===== src/Server/UserFile.antt =====
-- The file of one user in server/user_db.c: a prefix with the length of the public key, its
-- signature, the key, and a signature of all that.
pub mod Kept
mod Tests
use ibchat.Prelude.{
  pure, guard, attempt, ◌>>=◌, ◌>>◌, ℕ, ◌+◌, ◌-◌, ◌^◌, ◌%◌, Option, none, some, Bytes, List, [],
  ◌∷◌, ◌++◌, bytes_eq, length, drop, if◌then◌else◌, ℤ, pos, success, Bool, true, false,
}
use ibchat.External.{Libibur, Rsa}
use ibchat.Stdio.{Stream, Io, fread}
use ibchat.Files.{Files, store, open_old, can_create}
use ibchat.Server.Undelivered.{User}

-- "userdb\0\0"
abbrev pub user_file_magic : Bytes
user_file_magic = 117 ∷ 115 ∷ 101 ∷ 114 ∷ 100 ∷ 98 ∷ 0 ∷ 0 ∷ []

-- 0 with what was written to `*user`, or 1.
abbrev parsed : Option User → ℤ × Option User
parsed none = (pos 1, none)
parsed (some u) = (success, some u)

-- `mem n` is the allocator's answer to a request for `n` bytes.
module _ (lib : Libibur) (rsa : Rsa) (mem : ℕ → Bool) where
  open lib use {encbe64, decbe64, to_hex, from_hex}
  open rsa use {sig_len, rsa_pss_sign, rsa_pss_verify, rsa_pubkey2wire, rsa_wire2pubkey}

  -- The body of `parse_user_file` between the opening and the closing of the file.
  unfoldable pub parse_user : Bytes → Io User
  parse_user name = do
    magic ← fread 8
    guard (bytes_eq magic user_file_magic)
    uid ← fread 0x20
    guard (bytes_eq uid (from_hex (drop (length name - 64) name)))
    undelivered ← fread 0x20
    sizebuf ← fread 8
    guard (mem sig_len)
    sig1 ← fread sig_len
    let prefix = magic ++ (uid ++ (undelivered ++ sizebuf))
    guard (rsa_pss_verify sig1 prefix)
    let pkey_size = decbe64 sizebuf
    guard (mem ((0x50 + sig_len + pkey_size) % 2 ^ 64))
    pkey_buf ← fread pkey_size
    sig2 ← fread sig_len
    guard (rsa_pss_verify sig2 (prefix ++ (sig1 ++ pkey_buf)))
    pkey ← attempt (rsa_wire2pubkey pkey_buf)
    pure (record { pkey = pkey; uid = uid; und_auth = undelivered })

  unfoldable pub parse_user_file : Bytes → Files → ℤ × Option User
  parse_user_file name fs = elim (open_old name fs) [
    | none ↦ (pos 1, none)
    | some contents ↦ parsed (parse_user name (record { bytes = contents; pos = 0 })).0
  ]

  -- `buf` up to the first signature.
  unfoldable pub user_prefix : User → Bytes
  user_prefix u =
      user_file_magic ++ (u.uid ++ (u.und_auth ++ encbe64 (length (rsa_pubkey2wire u.pkey))))

  -- `buf`, with the salts that the two signatures draw; `none` is a jump to the error label.
  unfoldable pub user_image : ℕ → ℕ → User → Option Bytes
  user_image salt1 salt2 u =
      let wire = rsa_pubkey2wire u.pkey in
      if mem (8 + 0x20 + 0x20 + 8 + sig_len + length wire + sig_len)
      then elim (rsa_pss_sign salt1 (user_prefix u)) [
        | none ↦ none
        | some sig1 ↦
            let signed = user_prefix u ++ (sig1 ++ wire) in
            elim (rsa_pss_sign salt2 signed) [ none ↦ none | some sig2 ↦ some (signed ++ sig2) ]
      ]
      else none

  -- `user_dir` is the string USER_DIR.
  unfoldable pub user_path : Bytes → User → Bytes
  user_path user_dir u = user_dir ++ to_hex u.uid

  -- The file is opened, and so emptied, before the buffer is made.
  unfoldable pub write_user_file : ℕ → ℕ → Bytes → User → Files → ℤ × Files
  write_user_file salt1 salt2 user_dir u fs =
      let path = user_path user_dir u in
      if mem (length user_dir + 64 + 1)
      then if can_create path fs
        then elim (user_image salt1 salt2 u) [
          | none ↦ (pos 1, store path [] fs)
          | some buf ↦ (success, store path buf fs)
        ]
        else (pos 1, fs)
      else (pos 1, fs)
