-- ===== src/Server/UserFile/Kept.antt =====
-- Writing a user file and parsing it again.
use ibchat.Prelude.{
  plenty, ℕ, ◌-◌, ◌^◌, ◌<◌, ◌≡◌, refl, ap, some, Bytes, [], ◌++◌, bytes_eq_refl, length,
  length-append, append_assoc, append-nil, drop, drop-append_eq, success, true, arith,
}
use ibchat.External.{Libibur, Rsa}
use ibchat.Stdio.{fread}
use ibchat.Stdio.Steps.{at, fread-at}
use ibchat.Files.{Files, store, can_create, open_old-store_self}
use ibchat.Server.Undelivered.{User}
use ibchat.Server.UserFile.{
  user_file_magic, parse_user, parse_user_file, user_prefix, user_image, user_path, write_user_file,
}

module _ (lib : Libibur) (rsa : Rsa) (user_dir : Bytes) (u : User) where
  open lib use {encbe64}
  open rsa use {sig_len, rsa_pss_sign, rsa_pubkey2wire}

  -- The parts of the file, in the order in which they are read.
  abbrev pub layout : Bytes → Bytes → Bytes
  layout sig1 sig2 =
      user_file_magic
      ++ (u.uid
          ++ (u.und_auth
              ++ (encbe64 (length (rsa_pubkey2wire u.pkey))
                  ++ (sig1 ++ (rsa_pubkey2wire u.pkey ++ sig2)))))

  layout_eq :
      (sig1 sig2 : Bytes)
      → (user_prefix lib rsa plenty u ++ (sig1 ++ rsa_pubkey2wire u.pkey)) ++ sig2
        ≡ layout sig1 sig2
  unfolding user_prefix
  layout_eq sig1 sig2 = simp append_assoc

  uid_of_path :
      length u.uid ≡ 0x20
      → lib.from_hex (
          drop
            (length (user_path lib rsa plenty user_dir u) - 64)
            (user_path lib rsa plenty user_dir u))
        ≡ u.uid
  unfolding user_path
  uid_of_path size =
      let cut : length user_dir ≡ length (user_dir ++ lib.to_hex u.uid) - 64 =
        omega (arith, length-append user_dir (lib.to_hex u.uid), lib.length-to_hex u.uid) in
      rw
        (drop-append_eq (length (user_dir ++ lib.to_hex u.uid) - 64) user_dir (lib.to_hex u.uid)
          cut)
        (lib.from_hex-to_hex u.uid)

  module _ (salt1 salt2 : ℕ) (sig1 sig2 : Bytes) (size : length u.uid ≡ 0x20)
      (auth_size : length u.und_auth ≡ 0x20) (small : length (rsa_pubkey2wire u.pkey) < 2 ^ 63)
      (signed1 : rsa_pss_sign salt1 (user_prefix lib rsa plenty u) ≡ some sig1)
      (signed2 : rsa_pss_sign salt2
          (user_prefix lib rsa plenty u ++ (sig1 ++ rsa_pubkey2wire u.pkey))
        ≡ some sig2) where
    user_image_eq : user_image lib rsa plenty salt1 salt2 u ≡ some (layout sig1 sig2)
    unfolding user_image
    user_image_eq = rw (signed1, signed2) (ap some (layout_eq sig1 sig2))

    parse_user-layout :
        (parse_user lib rsa plenty
          (user_path lib rsa plenty user_dir u)
          (at [] (layout sig1 sig2))).0
        ≡ some u
    unfolding parse_user user_prefix
    parse_user-layout =
        let wire = rsa_pubkey2wire u.pkey in
        let sz = encbe64 (length wire) in
        let l₁ = rsa.length-rsa_pss_sign salt1 _ sig1 signed1 in
        let l₂ = rsa.length-rsa_pss_sign salt2 _ sig2 signed2 in
        let b₁ = user_file_magic in
        let b₂ = b₁ ++ u.uid in
        let b₃ = b₂ ++ u.und_auth in
        let b₄ = b₃ ++ sz in
        let b₅ = b₄ ++ sig1 in
        let b₆ = b₅ ++ wire in
        let r₈ = wire ++ sig2 in
        let r₅ = sig1 ++ r₈ in
        let r₄ = sz ++ r₅ in
        let r₃ = u.und_auth ++ r₄ in
        let end = fread-at sig_len b₆ sig2 [] rsa.sig_len-pos l₂ in
        let last : fread sig_len (at b₆ sig2) ≡ (some sig2, at (b₆ ++ sig2) []) =
          rw append-nil at end in
        rw (
          fread-at 8 [] user_file_magic (u.uid ++ r₃) (omega arith) refl,
          fread-at 0x20 b₁ u.uid r₃ (omega arith) size,
          uid_of_path size,
          bytes_eq_refl u.uid,
          fread-at 0x20 b₂ u.und_auth r₄ (omega arith) auth_size,
          fread-at 8 b₃ sz r₅ (omega arith) (lib.length-encbe64 (length wire)),
          fread-at sig_len b₄ sig1 r₈ rsa.sig_len-pos l₁,
          rsa.rsa_pss_verify-rsa_pss_sign salt1 _ sig1 signed1,
          lib.decbe64-encbe64 (length wire) (omega arith),
          fread-at (length wire) b₅ wire sig2 (rsa.length-rsa_pubkey2wire-pos u.pkey) refl,
          last,
          rsa.rsa_pss_verify-rsa_pss_sign salt2 _ sig2 signed2,
          rsa.rsa_wire2pubkey-rsa_pubkey2wire u.pkey,
        )

    parse_user_file-store :
        (fs : Files)
        → can_create (user_path lib rsa plenty user_dir u) fs ≡ true
        → parse_user_file lib rsa plenty
            (user_path lib rsa plenty user_dir u)
            (store (user_path lib rsa plenty user_dir u) (layout sig1 sig2) fs)
          ≡ (success, some u)
    unfolding parse_user_file
    parse_user_file-store fs fopen =
        rw
          (
            open_old-store_self (user_path lib rsa plenty user_dir u) (layout sig1 sig2) fs fopen,
            parse_user-layout,
            parse_user_file,
          )
          refl

    -- With memory for its buffers, `write_user_file` returns 0 for a user whose two signatures
    -- succeed and whose path can be created, and `parse_user_file` of that path then returns 0 and
    -- exactly that user. The id and the authentication key have their 32 bytes.
    pub parse_user_file-write_user_file :
        (fs : Files)
        → can_create (user_path lib rsa plenty user_dir u) fs ≡ true
        → (let r = write_user_file lib rsa plenty salt1 salt2 user_dir u fs in
            (r.0 ≡ success)
            × (parse_user_file lib rsa plenty (user_path lib rsa plenty user_dir u) r.1
                ≡ (success, some u)))
    unfolding write_user_file
    parse_user_file-write_user_file fs fopen =
        rw (fopen, user_image_eq) (refl, parse_user_file-store fs fopen)
