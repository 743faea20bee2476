-- ===== src/Server/UserFile/Tests.antt =====
-- The file of one user, with the sample external libraries.
use ibchat.Prelude.{
  plenty, ◌≡◌, refl, none, some, Bytes, [], ◌∷◌, replicate, pos, success, false, arith,
}
use ibchat.External.Samples.{libibur, rsa}
use ibchat.Stdio.{fread}
use ibchat.Files.{Files, store, open_old, can_create}
use ibchat.Server.Undelivered.{User}
use ibchat.Server.UserFile.{
  parse_user, parse_user_file, user_prefix, user_image, user_path, write_user_file,
}
use ibchat.Server.UserFile.Kept.{parse_user_file-write_user_file}

abbrev carol : User
carol = record { pkey = 5 ∷ 6 ∷ []; uid = replicate 32 7; und_auth = replicate 32 9 }

abbrev eve : User
eve = record { pkey = 5 ∷ 6 ∷ []; uid = replicate 32 8; und_auth = replicate 32 9 }

abbrev users : Bytes
users = 117 ∷ 47 ∷ []

abbrev no_files : Files
no_files = record { file = λ q. none; denied = λ q. false }

program : Unit {0}
unfolding libibur rsa fread store open_old can_create parse_user parse_user_file user_prefix
    user_image user_path write_user_file
program = tt

parse_user_file-write_user_file_example :
    (let r = write_user_file libibur rsa plenty 1 2 users carol no_files in
      (r.0 ≡ success)
      × (parse_user_file libibur rsa plenty (user_path libibur rsa plenty users carol) r.1
          ≡ (success, some carol)))
unfolding program
parse_user_file-write_user_file_example =
    parse_user_file-write_user_file libibur rsa users carol 1 2 _ _ refl refl (omega arith) refl
      refl no_files refl

-- The file of one user is refused under the name of another.
renamed :
    (let r = write_user_file libibur rsa plenty 1 2 users carol no_files in
      parse_user_file libibur rsa plenty (user_path libibur rsa plenty users eve) (
        store
          (user_path libibur rsa plenty users eve)
          (elim (r.1.file (user_path libibur rsa plenty users carol)) [ none ↦ [] | some b ↦ b ])
          r.1)
      ≡ (pos 1, none))
unfolding program
renamed = refl
