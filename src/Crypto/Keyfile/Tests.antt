-- ===== src/Crypto/Keyfile/Tests.antt =====
-- Key files with the sample external libraries: a key of three bytes under a password.
use ibchat.Prelude.{
  plenty, ◌≡◌, refl, false, some, none, Bytes, [], ◌∷◌, success, arith, replicate, pos,
}
use ibchat.External.Samples.{libibur, ibcrypt, scrypt_lib}
use ibchat.External.Samples.Keys.{key_wire}
use ibchat.Files.{Files, store, open_old, can_create}
use ibchat.Stdio.{fread_bytes}
use ibchat.Crypto.Keyfile.{
  got, code, no_password, invalid_mac, write_pri_key_password, pri_key_contents, write_pri_key,
  write_pub_key, read_sized, read_pri_key_password, read_by_type, read_pri_key_from, read_pri_key,
  read_pub_key_from, read_pub_key,
}
use ibchat.Crypto.Keyfile.Kept.{read_pri_key-write_pri_key}

program : Unit {0}
unfolding libibur ibcrypt scrypt_lib key_wire store open_old can_create fread_bytes
    write_pri_key_password pri_key_contents write_pri_key write_pub_key read_sized
    read_pri_key_password read_by_type read_pri_key_from read_pri_key read_pub_key_from read_pub_key
program = tt

abbrev no_files : Files
no_files = record { file = λ q. none; denied = λ q. false }

abbrev key : Bytes
key = 5 ∷ 6 ∷ 7 ∷ []

abbrev secret : Bytes
secret = 1 ∷ 2 ∷ []

abbrev guess : Bytes
guess = 1 ∷ 3 ∷ []

abbrev path : Bytes
path = 107 ∷ []

abbrev salt : Bytes
salt = replicate 32 4

read_pri_key-write_pri_key_example :
    (let plain =
        write_pri_key libibur ibcrypt scrypt_lib plenty key_wire key path none
          (some salt)
          no_files in
      let w =
        write_pri_key libibur ibcrypt scrypt_lib plenty key_wire key path
          (some secret)
          (some salt)
          no_files in
      (plain.0 ≡ some success)
      × (read_pri_key libibur ibcrypt scrypt_lib plenty key_wire path none plain.1 ≡ got key)
      × (w.0 ≡ some success)
      × (read_pri_key libibur ibcrypt scrypt_lib plenty key_wire path (some secret) w.1 ≡ got key)
      × (read_pri_key libibur ibcrypt scrypt_lib plenty key_wire path none w.1 ≡ code no_password)
      × (read_pri_key libibur ibcrypt scrypt_lib plenty key_wire path (some guess) w.1
          ≡ code invalid_mac))
unfolding program
read_pri_key-write_pri_key_example =
    read_pri_key-write_pri_key libibur ibcrypt scrypt_lib key_wire key _ salt _ path no_files refl
      refl refl secret guess _ refl refl (λ e. ground (arith, e))

-- A public key.
public :
    (let w = write_pub_key libibur ibcrypt scrypt_lib plenty key_wire key path no_files in
      read_pub_key libibur ibcrypt scrypt_lib plenty key_wire path w.1 ≡ got key)
unfolding program
public = refl

-- A public key's file is not a private key's.
mixed_up :
    (let w = write_pub_key libibur ibcrypt scrypt_lib plenty key_wire key path no_files in
      read_pri_key libibur ibcrypt scrypt_lib plenty key_wire path none w.1 ≡ code (pos 5))
unfolding program
mixed_up = refl
