-- ===== src/Client/Profile/Tests.antt =====
-- The profile of a user whose counter of writes wraps, and a wrong password.
use ibchat.Prelude.{
  plenty, ◌-◌, ◌^◌, ◌≡◌, ◌≢◌, refl, true, false, some, none, Bytes, [], ◌∷◌, ◌++◌, arith, replicate,
  take, drop,
}
use ibchat.External.Samples.{libibur, ibcrypt, scrypt_lib}
use ibchat.Files.{can_create}
use ibchat.Codec.{ok, error}
use ibchat.Client.Account.{Account, account_write_bin}
use ibchat.Client.Account.Kept.{IsAccount}
use ibchat.Client.Samples.{no_files, random, root_dir, account_with}
use ibchat.Client.Profile.{Profile, scrypt_out, add_account, read_userfile, write_userfile}
use ibchat.Client.Profile.Keys.{IsKeyed, opened}
use ibchat.Client.Profile.Kept.{read_userfile-add_account, read_userfile-wrong}

program : Unit {0}
unfolding libibur ibcrypt scrypt_lib can_create account_write_bin
program = tt

abbrev salt : Bytes
salt = replicate 32 8

abbrev new_salt : Bytes
new_salt = replicate 32 9

abbrev hash_of : Bytes → Bytes → Bytes
hash_of pass s = elim (scrypt_out scrypt_lib pass s) [ none ↦ [] | some out ↦ out ]

abbrev secret : Bytes
secret = 1 ∷ 2 ∷ []

abbrev guess : Bytes
guess = 1 ∷ 3 ∷ []

abbrev me : Account
me = account_with []

abbrev profile : Profile
profile = record {
  pass = secret;
  salt = salt;
  pw_check = take 32 (hash_of secret salt);
  symm_key = take 32 (drop 32 (hash_of secret salt));
  hmac_key = take 32 (drop 64 (hash_of secret salt));
  nonce = 2 ^ 64 - 1;
  server_accounts = me ∷ [];
  expanded = true;
}

abbrev started : Bytes → Profile
started pass = record {
  pass = pass;
  salt = [];
  pw_check = [];
  symm_key = [];
  hmac_key = [];
  nonce = 0;
  server_accounts = [];
  expanded = false;
}

keyed : IsKeyed scrypt_lib profile
unfolding program
keyed = record {
  out = hash_of secret salt;
  derived = refl;
  salted = refl;
  check = refl;
  symm = refl;
  hmac = refl;
}

sized : IsAccount me
sized = record {
  short = omega arith;
  sfing = refl;
  f_file = refl;
  f_symm = refl;
  f_hmac = refl;
  n_file = refl;
  n_symm = refl;
  n_hmac = refl;
  alone = refl;
}

read_userfile-add_account_example :
    (let w =
        add_account scrypt_lib libibur ibcrypt plenty root_dir none
          (some new_salt)
          (some random)
          me
          profile
          no_files in
      let accs = (me ∷ []) ++ (me ∷ []) in
      (w.0 ≡ ok tt)
      × (w.1.server_accounts ≡ accs)
      × (read_userfile scrypt_lib libibur ibcrypt plenty root_dir none (started secret) w.2
          ≡ ok (record (opened scrypt_lib w.1 (started secret)) { server_accounts = accs })))
unfolding program
read_userfile-add_account_example =
    read_userfile-add_account scrypt_lib libibur ibcrypt root_dir random refl no_files refl new_salt
      (hash_of secret new_salt) refl me profile (started secret) keyed refl refl
      (sized, (sized, tt)) (omega arith) (omega arith)

read_userfile-wrong_example :
    (let w =
        write_userfile scrypt_lib libibur ibcrypt plenty root_dir none
          (some random)
          profile
          no_files in
      (w.0 ≡ ok tt)
      × (read_userfile scrypt_lib libibur ibcrypt plenty root_dir none (started guess) w.2 ≡ error))
unfolding program
read_userfile-wrong_example =
    read_userfile-wrong scrypt_lib libibur ibcrypt root_dir random refl no_files refl profile
      (started guess) keyed (sized, tt) (omega arith) (omega arith) (hash_of guess salt) refl apart
  where
    apart : take 32 (hash_of guess salt) ≢ take 32 (hash_of secret salt)
    apart e = ground (arith, e)
