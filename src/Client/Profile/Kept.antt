-- ===== src/Client/Profile/Kept.antt =====
-- What the user's file gives back, by the password.
use ibchat.Prelude.{
  plenty, ◌+◌, ◌%◌, ◌^◌, ◌<◌, ◌==◌, ◌≡◌, ◌≢◌, refl, sym, ap, true, false, none, some, Bytes, List,
  [], ◌∷◌, ◌++◌, Bool-cases, inl, inr, take, length, length-append, arith,
}
use ibchat.External.{Libibur, Ibcrypt, Scrypt}
use ibchat.Files.{Files, can_create}
use ibchat.Codec.{Verdict, ok, error, undefined}
use ibchat.Codec.Steps.{joined, AllRead}
use ibchat.Client.Account.{Account, account_write_bin}
use ibchat.Client.Account.Kept.{
  IsAccount, length-account_write_bin, account_write_bin-pos, account-Reads,
}
use ibchat.Client.DataFile.Image.{AllWritten, Keeps}
use ibchat.Client.DataFile.Kept.{read_datafile-write_datafile, read_datafile-locked}
use ibchat.Client.Profile.{
  Profile, scrypt_out, uf_format, ufile, init_acc_file_str, write_userfile, read_userfile,
  with_accounts, profile_reseed, logged, rewrite_profile, add_account,
}
use ibchat.Client.Profile.Keys.{
  reseeded, reseeded-IsKeyed, same_keys-IsKeyed, IsKeyed, extra_of, opened, length-pw_check,
  keys_of-own, keys_of-right, keys_of-wrong,
}

abbrev pub AllAccounts : List Account → Type 0
AllAccounts [] = Unit
AllAccounts (a ∷ accs) = IsAccount a × AllAccounts accs

module _ (sc : Scrypt) (lib : Libibur) (ib : Ibcrypt) where
  accounts-AllWritten :
      (accs : List Account)
      → AllAccounts accs
      → AllWritten (uf_format sc lib ib plenty) (account_write_bin lib plenty) accs
  unfolding uf_format
  accounts-AllWritten [] h = tt
  accounts-AllWritten (a ∷ accs) h =
      (refl, sym (length-account_write_bin lib a h.0), accounts-AllWritten accs h.1)

  accounts-AllRead :
      (q : Profile) (accs : List Account)
      → AllAccounts accs
      → AllRead ((uf_format sc lib ib plenty).dataread q) (account_write_bin lib plenty) accs
  unfolding uf_format
  accounts-AllRead q [] h = tt
  accounts-AllRead q (a ∷ accs) h =
      (account_write_bin-pos lib a h.0, account-Reads lib a h.0, accounts-AllRead q accs h.1)

  -- The profile with which a client starts that was given the password.
  abbrev pub starting : Profile → Profile
  starting q = record q { expanded = false }

  accounts-Keeps :
      (p q : Profile)
      → IsKeyed sc p
      → q.pass ≡ p.pass
      → AllAccounts p.server_accounts
      → length (joined (account_write_bin lib plenty) p.server_accounts) < 2 ^ 63
      → length p.server_accounts < 2 ^ 64
      → Keeps (uf_format sc lib ib plenty) p (starting q) p.server_accounts
  unfolding uf_format
  accounts-Keeps p q keyed same valid fits count = record {
    extra = extra_of sc p;
    symm = p.symm_key;
    hmac = p.hmac_key;
    after = opened sc p p;
    after_r = opened sc p q;
    write = account_write_bin lib plenty;
    filled = refl;
    size = omega (arith, length-append p.salt p.pw_check, keyed.salted, length-pw_check sc p keyed);
    finds = keys_of-own sc p keyed lib ib plenty;
    finds_r = keys_of-right sc p keyed lib ib plenty (starting q) same refl;
    written = accounts-AllWritten p.server_accounts valid;
    fits = fits;
    count = count;
  }

  module _ (root_dir random : Bytes) (drawn : length random ≡ 0x20) (fs : Files)
      (able : can_create (ufile sc lib ib plenty root_dir) fs ≡ true) (p q : Profile)
      (keyed : IsKeyed sc p) (valid : AllAccounts p.server_accounts)
      (fits : length (joined (account_write_bin lib plenty) p.server_accounts) < 2 ^ 63)
      (count : length p.server_accounts < 2 ^ 64) where
    pub read_userfile-write_userfile :
        q.pass ≡ p.pass
        → (let w = write_userfile sc lib ib plenty root_dir none (some random) p fs in
            (w.0 ≡ ok tt)
            × (w.1 ≡ opened sc p p)
            × (read_userfile sc lib ib plenty root_dir none q w.2
                ≡ ok (record (opened sc p q) { server_accounts = p.server_accounts })))
    unfolding write_userfile read_userfile init_acc_file_str accounts-Keeps
    read_userfile-write_userfile same =
        let k = accounts-Keeps p q keyed same valid fits count in
        let (done, changed, read) =
          read_datafile-write_datafile lib ib (uf_format sc lib ib plenty) p (starting q)
            p.server_accounts k random drawn (ufile sc lib ib plenty root_dir) fs able
            (accounts-AllRead (opened sc p q) p.server_accounts valid) in
        (done, changed, ap (with_accounts sc lib ib plenty root_dir) read)

    -- The user's file is not read with a password that, with the file's salt, gives another check: the
    -- call returns -1. The file was written without an error from a profile that has the keys of its
    -- password, every account has the fields' sizes, the file can be created, 32 random bytes are
    -- drawn, and there is memory.
    pub read_userfile-wrong :
        (out : Bytes)
        → scrypt_out sc q.pass p.salt ≡ some out
        → take 32 out ≢ p.pw_check
        → (let w = write_userfile sc lib ib plenty root_dir none (some random) p fs in
            (w.0 ≡ ok tt) × (read_userfile sc lib ib plenty root_dir none q w.2 ≡ error))
    unfolding write_userfile read_userfile init_acc_file_str accounts-Keeps
    read_userfile-wrong out derived apart =
        let k = accounts-Keeps p p keyed refl valid fits count in
        let unknown = keys_of-wrong sc p keyed lib ib plenty (starting q) out derived apart refl in
        let (done, read) =
          read_datafile-locked lib ib (uf_format sc lib ib plenty) p (starting p) p.server_accounts
            k random drawn (ufile sc lib ib plenty root_dir) fs able (starting q) unknown in
        (done, rw read refl)

  -- What a client reads that was given the same password: the accounts and the keys.
  abbrev Reopens : Bytes → List Account → Profile → Verdict (Unit {0}) × Profile × Files → Type 0
  Reopens root_dir accs q w =
      (w.0 ≡ ok tt)
      × (w.1.server_accounts ≡ accs)
      × (read_userfile sc lib ib plenty root_dir none q w.2
          ≡ ok (record (opened sc w.1 q) { server_accounts = accs }))

  logged-ok :
      (root_dir : Bytes) (w : Verdict (Unit {0}) × Profile × Files)
      → w.0 ≡ ok tt
      → logged sc lib ib plenty root_dir w ≡ w
  logged-ok root_dir (ok tt, p, fs) h = refl
  logged-ok root_dir (error, p, fs) h = ground arith
  logged-ok root_dir (undefined, p, fs) h = ground arith

  module _ (root_dir random : Bytes) (drawn : length random ≡ 0x20) (fs : Files)
      (able : can_create (ufile sc lib ib plenty root_dir) fs ≡ true) where
    written-Reopens :
        (p q : Profile)
        → IsKeyed sc p
        → q.pass ≡ p.pass
        → AllAccounts p.server_accounts
        → length (joined (account_write_bin lib plenty) p.server_accounts) < 2 ^ 63
        → length p.server_accounts < 2 ^ 64
        → Reopens root_dir p.server_accounts q (
            logged sc lib ib plenty root_dir
              (write_userfile sc lib ib plenty root_dir none (some random) p fs))
    written-Reopens p q keyed same valid fits count =
        let (done, changed, read) =
          read_userfile-write_userfile root_dir random drawn fs able p q keyed valid fits count
            same in
        rw
          (logged-ok root_dir (write_userfile sc lib ib plenty root_dir none (some random) p fs)
            done)
          (done, ap (λ (r : Profile). r.server_accounts) changed, rw changed read)

    module _ (salt out : Bytes) (salted : length salt ≡ 32) where
      read_userfile-rewrite_profile :
          (p q : Profile)
          → IsKeyed sc p
          → q.pass ≡ p.pass
          → scrypt_out sc p.pass salt ≡ some out
          → AllAccounts p.server_accounts
          → length (joined (account_write_bin lib plenty) p.server_accounts) < 2 ^ 63
          → length p.server_accounts < 2 ^ 64
          → Reopens root_dir p.server_accounts q
              (rewrite_profile sc lib ib plenty root_dir none (some salt) (some random) p fs)
      unfolding rewrite_profile profile_reseed
      read_userfile-rewrite_profile p q keyed same derived valid fits count =
          let counted = record p { nonce = (p.nonce + 1) % 2 ^ 64 } in
          elim (Bool-cases ((p.nonce + 1) % 2 ^ 64 == 0)) [
            | inl wraps ↦
                rw (rewrite_profile, wraps, derived)
                  (written-Reopens (reseeded sc salt out counted) q
                    (reseeded-IsKeyed sc salt out counted salted derived) same valid fits count)
            | inr goes_on ↦
                rw (rewrite_profile, goes_on)
                  (written-Reopens counted q
                    (same_keys-IsKeyed sc p counted.nonce p.server_accounts keyed) same valid fits
                    count)
          ]

      -- An account that the user added is in the user's file: a client that is given the same password
      -- reads the accounts that were there and, after them, the new one, and finds the keys that the
      -- profile now has. This holds for each value of the counter of writes, also where it wraps and
      -- new keys are made from a new salt. The profile has the keys of its password, every account
      -- has the fields' sizes, the file can be created, the random bytes are drawn, `scrypt` succeeds
      -- for the new salt, and there is memory.
      pub read_userfile-add_account :
          (acc : Account) (p q : Profile)
          → IsKeyed sc p
          → q.pass ≡ p.pass
          → scrypt_out sc p.pass salt ≡ some out
          → AllAccounts (p.server_accounts ++ (acc ∷ []))
          → length (joined (account_write_bin lib plenty) (p.server_accounts ++ (acc ∷ [])))
            < 2 ^ 63
          → length (p.server_accounts ++ (acc ∷ [])) < 2 ^ 64
          → (let w =
                add_account sc lib ib plenty root_dir none (some salt) (some random) acc p fs in
              let accs = p.server_accounts ++ (acc ∷ []) in
              (w.0 ≡ ok tt)
              × (w.1.server_accounts ≡ accs)
              × (read_userfile sc lib ib plenty root_dir none q w.2
                  ≡ ok (record (opened sc w.1 q) { server_accounts = accs })))
      unfolding add_account
      read_userfile-add_account acc p q keyed same derived valid fits count =
          let more = record p { server_accounts = p.server_accounts ++ (acc ∷ []) } in
          read_userfile-rewrite_profile more q
            (same_keys-IsKeyed sc p p.nonce more.server_accounts keyed) same derived valid fits
            count
