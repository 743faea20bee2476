-- ===== src/Client/FriendFile/Tests.antt =====
-- An account with one friend, to which another one is added.
use ibchat.Prelude.{plenty, ◌≡◌, refl, some, Bytes, [], ◌∷◌, ◌++◌, length, ◌<◌, arith}
use ibchat.External.Samples.{libibur, ibcrypt}
use ibchat.Files.{can_create}
use ibchat.Codec.{ok, undefined, bytes}
use ibchat.Client.Uname.{gen_uid}
use ibchat.Client.Friend.{friend_bin_size, friend_write_bin, friend_parse_bin}
use ibchat.Client.Friend.Kept.{IsFriend}
use ibchat.Client.Samples.{no_files, random, root_dir, friend_named, bo, al, account_with}
use ibchat.Client.FriendFile.{init_friend, read_friendfile, add_friend}
use ibchat.Client.FriendFile.Kept.{read_friendfile-add_friend}

program : Unit {0}
unfolding libibur ibcrypt can_create gen_uid friend_bin_size friend_write_bin friend_parse_bin
    init_friend bytes
program = tt

sized : (name : Bytes) → length name < 100 → IsFriend ibcrypt (friend_named name)
unfolding program
sized name short = record {
  named = refl;
  short = omega arith;
  c_file = refl;
  f_symm = refl;
  f_hmac = refl;
  s_symm = refl;
  s_hmac = refl;
  r_symm = refl;
  r_hmac = refl;
  s_count = omega arith;
  r_count = omega arith;
}

read_friendfile-add_friend_example :
    (let acc = account_with (al ∷ []) in
      let w = add_friend libibur ibcrypt plenty root_dir (some random) bo acc no_files in
      (w.0 ≡ ok tt)
      × (w.1.friends ≡ acc.friends ++ (bo ∷ []))
      × (read_friendfile libibur ibcrypt plenty root_dir (account_with []) w.2 ≡ undefined))
unfolding program
read_friendfile-add_friend_example =
    read_friendfile-add_friend libibur ibcrypt root_dir random refl no_files
      (account_with (al ∷ [])) bo
      (sized (97 ∷ 108 ∷ []) (omega arith), (sized (98 ∷ 111 ∷ []) (omega arith), tt)) (omega arith)
      (omega arith) refl
