-- ===== src/Client/FriendFile/Kept.antt =====
-- What the file of an account's friends gives back.
use ibchat.Prelude.{
  plenty, ◌^◌, ◌<◌, ◌≡◌, refl, sym, ap, true, some, Bytes, List, [], ◌∷◌, ◌++◌, length,
  length-append, ltb, arith,
}
use ibchat.External.{Libibur, Ibcrypt}
use ibchat.Files.{Files, can_create}
use ibchat.Codec.{ok, undefined, items}
use ibchat.Codec.Steps.{joined}
use ibchat.Client.DataFile.{keys_of}
use ibchat.Client.DataFile.Image.{AllWritten, Keeps}
use ibchat.Client.DataFile.Kept.{read_datafile-parsed}
use ibchat.Client.Friend.{Friend, friend_write_bin, friend_parse_bin}
use ibchat.Client.Friend.Kept.{
  IsFriend, length-friend_write_bin, friend_write_bin-pos, friend-overruns,
}
use ibchat.Client.Account.{Account}
use ibchat.Client.Paths.{file_path}
use ibchat.Client.FriendFile.{
  ff_format, friendfile_path, write_friendfile, read_friendfile, add_friend, with_friends,
}

-- Each friend has the sizes of the structure.
abbrev pub AllFriends : Ibcrypt → List Friend → Type 0
AllFriends ib [] = Unit
AllFriends ib (f ∷ fs) = IsFriend ib f × AllFriends ib fs

module _ (lib : Libibur) (ib : Ibcrypt) where
  friends-AllWritten :
      (fs : List Friend)
      → AllFriends ib fs
      → AllWritten (ff_format lib ib plenty) (friend_write_bin lib ib plenty) fs
  unfolding ff_format
  friends-AllWritten [] h = tt
  friends-AllWritten (f ∷ fs) h =
      (refl, sym (length-friend_write_bin lib ib f h.0), friends-AllWritten fs h.1)

  -- The account that reads the file: its name and its keys, with any list.
  abbrev forgetful : Account → Account
  forgetful acc = record acc { friends = [] }

  friends-Keeps :
      (acc : Account)
      → AllFriends ib acc.friends
      → length (joined (friend_write_bin lib ib plenty) acc.friends) < 2 ^ 63
      → length acc.friends < 2 ^ 64
      → Keeps (ff_format lib ib plenty) acc (forgetful acc) acc.friends
  unfolding ff_format keys_of
  friends-Keeps acc valid fits count = record {
    extra = [];
    symm = acc.f_symm;
    hmac = acc.f_hmac;
    after = acc;
    after_r = forgetful acc;
    write = friend_write_bin lib ib plenty;
    filled = refl;
    size = refl;
    finds = refl;
    finds_r = refl;
    written = friends-AllWritten acc.friends valid;
    fits = fits;
    count = count;
  }

  -- The reader of the items meets the first friend.
  items-overruns :
      (fs : List Friend)
      → 0 < length fs
      → AllFriends ib fs
      → items
          (friend_parse_bin lib ib plenty)
          (length fs)
          (joined (friend_write_bin lib ib plenty) fs)
          0
        ≡ undefined
  unfolding items
  items-overruns [] some_friend h = absurd (omega (arith, some_friend))
  items-overruns (f ∷ fs) some_friend h =
      let rest = joined (friend_write_bin lib ib plenty) fs in
      let full : ltb 0 (length (friend_write_bin lib ib plenty f ++ rest)) ≡ true =
        rw (length-append (friend_write_bin lib ib plenty f) rest)
          (ground (arith, friend_write_bin-pos lib ib f h.0)) in
      rw (full, friend-overruns lib ib f h.0 [] rest) refl

  module _ (root_dir random : Bytes) (drawn : length random ≡ 0x20) (fs : Files) where
    read_friendfile-overruns :
        (acc : Account)
        → 0 < length acc.friends
        → AllFriends ib acc.friends
        → length (joined (friend_write_bin lib ib plenty) acc.friends) < 2 ^ 63
        → length acc.friends < 2 ^ 64
        → can_create (root_dir ++ lib.to_hex acc.f_file) fs ≡ true
        → (let w = write_friendfile lib ib plenty root_dir (some random) acc fs in
            (w.0 ≡ ok tt)
            × (w.1 ≡ acc)
            × (read_friendfile lib ib plenty root_dir (forgetful acc) w.2 ≡ undefined))
    unfolding write_friendfile read_friendfile friendfile_path file_path ff_format friends-Keeps
    read_friendfile-overruns acc some_friend valid fits count able =
        let (done, same, read) =
          read_datafile-parsed lib ib (ff_format lib ib plenty) acc (forgetful acc) acc.friends
            (friends-Keeps acc valid fits count) random drawn (root_dir ++ lib.to_hex acc.f_file) fs
            able in
        (
          done,
          same,
          ap (with_friends lib ib plenty root_dir (forgetful acc))
              (rw (items-overruns acc.friends some_friend valid) at read),
        )

    -- A friend that was added cannot be read back: `add_friend` returns 0 with the friend in the list
    -- and the file written, and reading that file from the account alone is undefined behaviour,
    -- since the first friend's name is written past the block that was allocated for it. Each friend
    -- has the fields' sizes and its name's id, the file can be created, 32 random bytes are drawn,
    -- and there is memory.
    pub read_friendfile-add_friend :
        (acc : Account) (f : Friend)
        → AllFriends ib (acc.friends ++ (f ∷ []))
        → length (joined (friend_write_bin lib ib plenty) (acc.friends ++ (f ∷ []))) < 2 ^ 63
        → length (acc.friends ++ (f ∷ [])) < 2 ^ 64
        → can_create (root_dir ++ lib.to_hex acc.f_file) fs ≡ true
        → (let w = add_friend lib ib plenty root_dir (some random) f acc fs in
            (w.0 ≡ ok tt)
            × (w.1.friends ≡ acc.friends ++ (f ∷ []))
            × (read_friendfile lib ib plenty root_dir (forgetful acc) w.2 ≡ undefined))
    unfolding add_friend
    read_friendfile-add_friend acc f valid fits count able =
        let more = record acc { friends = acc.friends ++ (f ∷ []) } in
        let (done, same, read) =
          read_friendfile-overruns more (omega (arith, length-append acc.friends (f ∷ []))) valid
            fits count able in
        (done, ap (λ (a : Account). a.friends) same, read)
