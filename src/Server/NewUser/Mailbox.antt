-- ===== src/Server/NewUser/Mailbox.antt =====
-- The file of a new user, from its creation to the loading of messages.
use ibchat.Prelude.{plenty, ◌+◌, ◌^◌, ◌<◌, ◌≡◌, refl, true, some, Bytes, List, [], length, success}
use ibchat.External.{Libibur, Ibcrypt}
use ibchat.Files.{Files, store, can_create}
use ibchat.Server.Undelivered.{User, undel_init_file, undel_path, undel_load}
use ibchat.Server.Undelivered.Image.{Storable, file_image}
use ibchat.Server.Undelivered.Delivery.{add_all, blocks_size, undel_load-add_all}
use ibchat.Server.NewUser.{gen_undel_file, user_init}

module _ (lib : Libibur) (ib : Ibcrypt) (undel_dir : Bytes) where
  user_init-ready :
      (auth uid pkey : Bytes) (u : User) (fs : Files)
      → can_create
          (undel_path lib ib undel_dir (record { pkey = pkey; uid = uid; und_auth = auth }))
          fs
        ≡ true
      → user_init lib ib plenty undel_dir (some auth) true uid pkey u fs ≡ (
        success,
        record { pkey = pkey; uid = uid; und_auth = auth },
        (undel_init_file lib ib plenty undel_dir
            (record { pkey = pkey; uid = uid; und_auth = auth })
            fs).1,
      )
  unfolding user_init gen_undel_file undel_init_file undel_path
  user_init-ready auth uid pkey u fs able = rw able refl

  -- Where the random key is drawn, the key's copy succeeds and the user's path can be created,
  -- `user_init` returns 0 and a user with the given id and public key and the drawn key. Messages
  -- added for that user afterwards, not empty and within the sizes of the fields, are loaded in their
  -- order. There is memory.
  pub user_init-undel_load :
      (auth uid pkey : Bytes) (u : User) (fs : Files) (ms : List Bytes)
      → can_create
          (undel_path lib ib undel_dir (record { pkey = pkey; uid = uid; und_auth = auth }))
          fs
        ≡ true
      → Storable ms
      → 0x30 + blocks_size ms < 2 ^ 63
      → length ms < 2 ^ 64
      → (let r = user_init lib ib plenty undel_dir (some auth) true uid pkey u fs in
          (fs' : Files) × (r.0 ≡ success)
          × (r.1 ≡ record { pkey = pkey; uid = uid; und_auth = auth })
          × (add_all lib ib undel_dir r.1 ms r.2 ≡ some fs')
          × (undel_load lib ib plenty undel_dir r.1 fs'
              ≡ some (
                success,
                some ms,
                store (undel_path lib ib undel_dir r.1) (file_image lib ib auth []) fs',
              )))
  user_init-undel_load auth uid pkey u fs ms able fits small few =
      let v : User = record { pkey = pkey; uid = uid; und_auth = auth } in
      let (fs', run, loaded) = undel_load-add_all lib ib undel_dir v ms fs able fits small few in
      rw (user_init-ready auth uid pkey u fs able) (fs', refl, refl, run, loaded)
