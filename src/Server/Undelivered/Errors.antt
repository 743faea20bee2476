-- ===== src/Server/Undelivered/Errors.antt =====
-- The refusals of `undel_add_message` and `undel_load`, and what stays untouched.
use mathlib.Core.List.{append_cancel_left}
use ibchat.Prelude.{
  plenty, ◌<◌, ◌≡◌, ◌≢◌, Bytes, length, arith, take, drop, some, none, bytes_eq→eq, failure, ℤ,
  Option-cases, inl, inr, ◌⊎◌,
}
use ibchat.External.{Libibur, Ibcrypt}
use ibchat.Stdio.{fread}
use ibchat.Files.{Files, store, open_old, open_old-store_ne}
use ibchat.Server.Undelivered.{
  User, header, undel_path, undel_init_file, undel_add_message, undel_load, add_message, load_file,
}

-- The header of a file is not the one that a holder of the key wrote: it is short, or its MAC is
-- not that of its two fields.
abbrev pub BadHeader : Ibcrypt → Bytes → Bytes → Type 0
BadHeader ib auth contents =
    (length contents < 0x30)
    ⊎ (ib.hmac_sha256 auth (take 0x10 (take 0x30 contents)) ≢ drop 0x10 (take 0x30 contents))

module _ (lib : Libibur) (ib : Ibcrypt) where
  open ib use {hmac_sha256}

  add_message_refuses :
      (auth m contents : Bytes)
      → BadHeader ib auth contents
      → (let r = add_message lib ib auth m (record { bytes = contents; pos = 0 }) in
          (r.0 ≡ none) × (r.1.bytes ≡ contents))
  unfolding add_message fread
  add_message_refuses auth m contents (inl short) = ground arith
  add_message_refuses auth m contents (inr bad) = ground (
    arith,
    bytes_eq→eq (hmac_sha256 auth (take 0x10 (take 0x30 contents)))
        (drop 0x10 (take 0x30 contents)),
  )

  load_file_refuses :
      (auth contents : Bytes)
      → BadHeader ib auth contents
      → (load_file lib ib plenty auth (record { bytes = contents; pos = 0 })).0 ≡ none
  unfolding load_file fread
  load_file_refuses auth contents (inl short) = ground arith
  load_file_refuses auth contents (inr bad) = ground (
    arith,
    bytes_eq→eq (hmac_sha256 auth (take 0x10 (take 0x30 contents)))
        (drop 0x10 (take 0x30 contents)),
  )

module _ (lib : Libibur) (ib : Ibcrypt) (undel_dir : Bytes) (u : User) (contents : Bytes)
    (fs : Files) where
  -- Where there is memory, a file whose header is short or has a wrong MAC is refused by both with -1:
  -- `undel_add_message` writes back the bytes that were there, and `undel_load` sets no message
  -- list and changes no file.
  pub BadHeader-refused :
      (m : Bytes)
      → open_old (undel_path lib ib undel_dir u) fs ≡ some contents
      → BadHeader ib u.und_auth contents
      → (undel_add_message lib ib plenty undel_dir u m fs
          ≡ some (failure, store (undel_path lib ib undel_dir u) contents fs))
        × (undel_load lib ib plenty undel_dir u fs ≡ some (failure, none, fs))
  unfolding undel_add_message undel_load
  BadHeader-refused m held bad =
      let (refused, same) = add_message_refuses lib ib u.und_auth m contents bad in
      (
        rw (held, undel_add_message, refused, same),
        rw (held, undel_load, load_file_refuses lib ib u.und_auth contents bad),
      )

module _ (lib : Libibur) (ib : Ibcrypt) (undel_dir : Bytes) (u v : User) (fs : Files) where
  paths_differ : u.uid ≢ v.uid → undel_path lib ib undel_dir u ≢ undel_path lib ib undel_dir v
  unfolding undel_path
  paths_differ h e = h (lib.to_hex_injective u.uid v.uid (append_cancel_left undel_dir _ _ e))

  -- Whatever `undel_add_message` returns for `u`, the file of a user with another id stays as it
  -- was, and so it does under `undel_init_file`.
  pub other_file_kept :
      (m : Bytes) (code : ℤ) (fs' : Files)
      → u.uid ≢ v.uid
      → undel_add_message lib ib plenty undel_dir u m fs ≡ some (code, fs')
      → (open_old (undel_path lib ib undel_dir v) fs' ≡ open_old (undel_path lib ib undel_dir v) fs)
        × (open_old (undel_path lib ib undel_dir v) (undel_init_file lib ib plenty undel_dir u fs).1
            ≡ open_old (undel_path lib ib undel_dir v) fs)
  unfolding undel_add_message undel_init_file
  other_file_kept m code fs' h e =
      let kept = λ (contents : Bytes).
        open_old-store_ne (undel_path lib ib undel_dir u) contents (undel_path lib ib undel_dir v)
          fs (paths_differ h) in
      (
        elim (Option-cases (open_old (undel_path lib ib undel_dir u) fs)) [
          | inl missing ↦ absurd (cc (rw (missing, undel_add_message) at e))
          | inr (contents, held) ↦
              let result = rw (held, undel_add_message) at e in
              ground (
                arith,
                result,
                kept
                    (add_message lib ib u.und_auth m
                      (record { bytes = contents; pos = 0 })).1.bytes,
              )
        ],
        ground (arith, kept (header lib ib u.und_auth 0x30 0)),
      )
