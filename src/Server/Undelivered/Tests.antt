-- ===== src/Server/Undelivered/Tests.antt =====
-- Runs on concrete files, with the sample external libraries.
use ibchat.Prelude.{plenty, ◌≡◌, refl, Bytes, List, [], ◌∷◌, arith, some, none, success, false}
use ibchat.External.Samples.{libibur, ibcrypt}
use ibchat.Stdio.{fread, fwrite, fseek, write_at}
use ibchat.Files.{Files, store, open_old, can_create}
use ibchat.Server.Undelivered.{
  User, header, undel_path, undel_init_file, undel_add_message, undel_load, add_message, load_file,
  load_message, load_messages,
}
use ibchat.Server.Undelivered.Image.{file_image}
use ibchat.Server.Undelivered.Delivery.{add_all, undel_load-add_all, path}

abbrev dir : Bytes
dir = 47 ∷ 117 ∷ []

abbrev alice : User
alice = record { pkey = []; uid = 7 ∷ []; und_auth = 1 ∷ 2 ∷ [] }

abbrev fresh : Files
fresh = record { file = λ _. none; denied = λ _. false }

abbrev two_messages : List Bytes
two_messages = (10 ∷ 20 ∷ 30 ∷ []) ∷ (40 ∷ []) ∷ []

program : Unit {0}
unfolding libibur ibcrypt undel_path undel_init_file undel_add_message undel_load add_message
    load_file load_message load_messages header fread fwrite fseek write_at store open_old
    can_create add_all file_image
program = tt

undel_load-add_all_example :
    (fs' : Files) × (add_all libibur ibcrypt dir alice two_messages
        (undel_init_file libibur ibcrypt plenty dir alice fresh).1
      ≡ some fs')
    × (undel_load libibur ibcrypt plenty dir alice fs'
        ≡ some (
          success,
          some two_messages,
          store (path libibur ibcrypt dir alice) (file_image libibur ibcrypt alice.und_auth []) fs',
        ))
unfolding program
undel_load-add_all_example =
    undel_load-add_all libibur ibcrypt dir alice two_messages fresh refl (omega arith) (omega arith)
      (omega arith)
