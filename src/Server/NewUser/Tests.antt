-- ===== src/Server/NewUser/Tests.antt =====
-- One new user, with the sample external libraries.
use ibchat.Prelude.{
  plenty, ◌≡◌, refl, true, none, some, Bytes, [], ◌∷◌, success, replicate, false, arith,
}
use ibchat.External.Samples.{libibur, ibcrypt}
use ibchat.Files.{Files, store, can_create}
use ibchat.Server.Undelivered.{User, undel_path, undel_load}
use ibchat.Server.Undelivered.Image.{file_image}
use ibchat.Server.Undelivered.Delivery.{add_all}
use ibchat.Server.NewUser.{user_init}
use ibchat.Server.NewUser.Mailbox.{user_init-undel_load}

program : Unit {0}
unfolding libibur ibcrypt can_create undel_path
program = tt

abbrev unset : User
unset = record { pkey = []; uid = []; und_auth = [] }

abbrev no_files : Files
no_files = record { file = λ q. none; denied = λ q. false }

abbrev dir : Bytes
dir = 117 ∷ []

user_init-undel_load_example :
    (let r =
        user_init libibur ibcrypt plenty dir
          (some (replicate 32 9))
          true
          (replicate 32 7)
          (5 ∷ [])
          unset
          no_files in
      (fs' : Files) × (r.0 ≡ success)
      × (r.1 ≡ record { pkey = 5 ∷ []; uid = replicate 32 7; und_auth = replicate 32 9 })
      × (add_all libibur ibcrypt dir r.1 ((104 ∷ 105 ∷ []) ∷ []) r.2 ≡ some fs')
      × (undel_load libibur ibcrypt plenty dir r.1 fs'
          ≡ some (
            success,
            some ((104 ∷ 105 ∷ []) ∷ []),
            store
                (undel_path libibur ibcrypt dir r.1)
                (file_image libibur ibcrypt (replicate 32 9) [])
                fs',
          )))
unfolding program
user_init-undel_load_example =
    user_init-undel_load libibur ibcrypt dir (replicate 32 9) (replicate 32 7) (5 ∷ []) unset
      no_files ((104 ∷ 105 ∷ []) ∷ []) refl (omega arith, omega arith, tt) (omega arith)
      (omega arith)
