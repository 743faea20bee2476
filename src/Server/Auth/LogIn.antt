-- ===== src/Server/Auth/LogIn.antt =====
-- A return of 0 from the log-in: who the client is, and what has become of the user table.
use ibchat.Prelude.{
  ℕ, zero, suc, ◌≡◌, refl, subst, Bool, Option, none, some, Bytes, arith, inl, inr, ◌⊎◌, ℤ, pos,
  negsuc,
}
use ibchat.External.{Libibur, Ibcrypt, Rsa, RsaKeys}
use ibchat.Files.{Files}
use ibchat.Inet.Connection.{Message}
use ibchat.Crypto.Handshake.Flow.{Hs, Step, go, exit, crash}
use ibchat.Server.Undelivered.{User}
use ibchat.Server.UserDb.{UserDb, user_db_get_nolock, user_db_add}
use ibchat.Server.NewUser.{user_init}
use ibchat.Server.HandlerTable.{HandlerTable, get_handler}
use ibchat.Server.Auth.{
  auth_client, prompt_user_register, user_register, auth_user, added, after_add, admitted,
}
use ibchat.Server.Auth.Proven.{Proven, key_len}
use ibchat.Server.Auth.Admitted.{Welcome, auth_client-Welcome}

module _ (lib : Libibur) (ib : Ibcrypt) (rsa : RsaKeys) (mem : ℕ → Bool) (pubkey_size : ℕ → ℕ)
    (server_rsa : Rsa) (salt1 salt2 : ℕ) (user_dir undel_dir : Bytes) (random : Option Bytes)
    (copied ent room : Bool) (blank : User) where
  -- The new user's files are made, and the user is in the table and in its file.
  abbrev pub Registered : Bytes → Bytes → UserDb → Files → UserDb → Files → Type 0
  Registered uid key db fs db' fs' =
      (u : User) × (made : Files) × (user_init lib ib mem undel_dir random copied uid key blank fs
        ≡ (pos 0, u, made))
      × (user_db_add lib ib server_rsa mem salt1 salt2 user_dir ent room u db made
          ≡ some (pos 0, db', fs'))

  after_add-go :
      (uid i : Bytes) (s end : Hs) (r : Option (ℤ × UserDb × Files)) (db' : UserDb) (fs' : Files)
      → after_add lib ib rsa mem pubkey_size server_rsa salt1 salt2 user_dir undel_dir random copied
          ent room blank uid s r
        ≡ some ((go i, end), db', fs')
      → (uid ≡ i) × (r ≡ some (pos 0, db', fs'))
  after_add-go uid i s end none db' fs' e = absurd (ground arith)
  after_add-go uid i s end (some (pos zero, db, fs)) db' fs' e = ground arith
  after_add-go uid i s end (some (pos (suc n), db, fs)) db' fs' e = absurd (ground arith)
  after_add-go uid i s end (some (negsuc n, db, fs)) db' fs' e = absurd (ground arith)

  added-go :
      (db : UserDb) (r : ℤ × User × Files) (db' : UserDb) (fs' : Files)
      → added lib ib rsa mem pubkey_size server_rsa salt1 salt2 user_dir undel_dir random copied ent
          room blank db r
        ≡ some (pos 0, db', fs')
      → (u : User) × (made : Files) × (r ≡ (pos 0, u, made))
        × (user_db_add lib ib server_rsa mem salt1 salt2 user_dir ent room u db made
            ≡ some (pos 0, db', fs'))
  added-go db (pos zero, u, fs) db' fs' e = (u, fs, refl, e)
  added-go db (pos (suc n), u, fs) db' fs' e = absurd (ground arith)
  added-go db (negsuc n, u, fs) db' fs' e = absurd (ground arith)

  user_register-go :
      (uid key i : Bytes) (db : UserDb) (fs : Files) (asked : Step (Unit {0}) × Hs) (end : Hs)
      (db' : UserDb) (fs' : Files)
      → user_register lib ib rsa mem pubkey_size server_rsa salt1 salt2 user_dir undel_dir random
          copied ent room blank uid key db fs asked
        ≡ some ((go i, end), db', fs')
      → (uid ≡ i) × ((s : Hs) × (asked ≡ (go tt, s))) × Registered uid key db fs db' fs'
  unfolding user_register
  user_register-go uid key i db fs (go u, s) end db' fs' e =
      let done = after_add-go uid i s end _ db' fs' e in
      (done.0, (s, refl), added-go db _ db' fs' done.1)
  user_register-go uid key i db fs (exit c, s) end db' fs' e = absurd (ground arith)
  user_register-go uid key i db fs (crash, s) end db' fs' e = absurd (ground arith)

  -- How a client gets in: as a known user, or by registration.
  abbrev pub Entered :
      UserDb → HandlerTable → Files → Option Message → Bytes → Bytes → UserDb → Files → Type 0
  Entered db ht fs answer uid key db' fs' =
      (((u : User) × (user_db_get_nolock lib ib db uid ≡ some (some u)) × (u.pkey ≡ key))
        × (get_handler lib ib ht uid ≡ none)
        × (db' ≡ db)
        × (fs' ≡ fs))
      ⊎ ((user_db_get_nolock lib ib db uid ≡ some none)
          × ((s end : Hs) × (prompt_user_register lib ib rsa mem pubkey_size answer s
                ≡ (go tt, end)))
          × Registered uid key db fs db' fs')

  admitted-Entered :
      (db : UserDb) (ht : HandlerTable) (fs : Files) (answer : Option Message) (uid key i : Bytes)
      (ret : ℕ) (s end : Hs) (db' : UserDb) (fs' : Files)
      → Welcome lib ib rsa mem pubkey_size db ht uid key ret
      → admitted lib ib rsa mem pubkey_size server_rsa salt1 salt2 user_dir undel_dir random copied
          ent room blank db fs answer
          (go (uid, key, ret), s)
        ≡ some ((go i, end), db', fs')
      → (uid ≡ i) × Entered db ht fs answer uid key db' fs'
  admitted-Entered db ht fs answer uid key i zero s end db' fs' (inl w) e =
      (ground arith, inl (w.1, w.2, ground arith, ground arith))
  admitted-Entered db ht fs answer uid key i zero s end db' fs' (inr w) e =
      absurd (omega (arith, w.0))
  admitted-Entered db ht fs answer uid key i (suc n) s end db' fs' (inl w) e =
      absurd (omega (arith, w.0))
  admitted-Entered db ht fs answer uid key i (suc n) s end db' fs' (inr w) e =
      let done = user_register-go uid key i db fs _ end db' fs' e in
      (done.0, inr (w.1, (s, (done.1).0, (done.1).1), done.2))

  -- A client is logged in as `uid`, after whatever messages, only when its answer to this log-in's
  -- challenge is signed by a key for which one of these holds: the user table already has the key
  -- under `uid`, no client is logged in as that user, and the table and the files are as they were;
  -- or the table had no user `uid`, the client asked to register, and the user is added with the key.
  pub auth_user-Entered :
      (db : UserDb) (ht : HandlerTable) (fs : Files) (cs_rand : Option Bytes)
      (response answer : Option Message) (uid : Bytes) (s end : Hs) (db' : UserDb) (fs' : Files)
      → auth_user lib ib rsa mem pubkey_size server_rsa salt1 salt2 user_dir undel_dir random copied
          ent room blank db ht fs cs_rand response answer s
        ≡ some ((go uid, end), db', fs')
      → (key challenge m : Bytes) × (cs_rand ≡ some challenge)
        × Proven lib ib rsa mem pubkey_size
            (key_len lib ib rsa mem pubkey_size m)
            challenge
            m
            uid
            key
        × Entered db ht fs answer uid key db' fs'
  unfolding auth_user
  auth_user-Entered db ht fs cs_rand response answer uid s end db' fs' =
      by_client (auth_client lib ib rsa mem pubkey_size db ht cs_rand response s) refl
    where
      by_client :
          (r : Step (Bytes × Bytes × ℕ) × Hs)
          → auth_client lib ib rsa mem pubkey_size db ht cs_rand response s ≡ r
          → admitted lib ib rsa mem pubkey_size server_rsa salt1 salt2 user_dir undel_dir random
              copied ent room blank db fs answer r
            ≡ some ((go uid, end), db', fs')
          → (key challenge m : Bytes) × (cs_rand ≡ some challenge)
            × Proven lib ib rsa mem pubkey_size
                (key_len lib ib rsa mem pubkey_size m)
                challenge
                m
                uid
                key
            × Entered db ht fs answer uid key db' fs'
      by_client (exit c, mid) r e = absurd (ground arith)
      by_client (crash, mid) r e = absurd (ground arith)
      by_client (go (i, key, ret), mid) r e =
          let w =
            auth_client-Welcome lib ib rsa mem pubkey_size db ht cs_rand response i key ret s mid
              r in
          let entered = admitted-Entered db ht fs answer i key uid ret mid end db' fs' w.1 e in
          let proof = w.0 in
          let both =
            subst
              (λ u.
                Proven lib ib rsa mem pubkey_size (key_len lib ib rsa mem pubkey_size proof.1)
                  proof.0 proof.1 u key
                × Entered db ht fs answer u key db' fs')
              entered.0 (proof.3, entered.1) in
          (key, proof.0, proof.1, proof.2, both.0, both.1)
