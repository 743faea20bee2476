-- ===== src/Client/Samples.antt =====
-- Accounts and friends for the tests of the client.
use ibchat.Prelude.{none, false, Bytes, List, [], ◌∷◌, replicate}
use ibchat.External.Samples.{ibcrypt}
use ibchat.Files.{Files}
use ibchat.Client.Uname.{gen_uid}
use ibchat.Client.Friend.{Friend}
use ibchat.Client.Account.{Account}

abbrev pub no_files : Files
no_files = record { file = λ q. none; denied = λ q. false }

abbrev pub random : Bytes
random = replicate 32 5

-- ".ibchat/" in short
abbrev pub root_dir : Bytes
root_dir = 46 ∷ 47 ∷ []

abbrev pub friend_named : Bytes → Friend
friend_named name = record {
  uname = name;
  pkey = 9 ∷ 9 ∷ [];
  uid = gen_uid ibcrypt name;
  c_file = replicate 32 1;
  f_symm_key = replicate 32 2;
  f_hmac_key = replicate 32 3;
  s_symm_key = replicate 32 4;
  s_hmac_key = replicate 32 5;
  r_symm_key = replicate 32 6;
  r_hmac_key = replicate 32 7;
  s_nonce = 8;
  r_nonce = 300;
}

-- "bo" and "al"
abbrev pub bo : Friend
bo = friend_named (98 ∷ 111 ∷ [])

abbrev pub al : Friend
al = friend_named (97 ∷ 108 ∷ [])

abbrev pub account_with : List Friend → Account
account_with friends = record {
  uname = 109 ∷ 101 ∷ [];
  addr = 104 ∷ [];
  key_bin = 1 ∷ 2 ∷ 3 ∷ [];
  sfing = replicate 32 1;
  f_file = replicate 32 2;
  f_symm = replicate 32 3;
  f_hmac = replicate 32 4;
  n_file = replicate 32 5;
  n_symm = replicate 32 6;
  n_hmac = replicate 32 7;
  friends = friends;
}
