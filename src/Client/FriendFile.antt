-- ===== src/Client/FriendFile.antt =====
-- The file of an account's friends, and the operations that change it (client/friends.c).
pub mod Kept
mod Tests
use ibchat.Prelude.{
  ◌&&◌, ltb, ℕ, ◌+◌, ◌%◌, ◌^◌, Bool, true, false, Option, none, some, Bytes, List, [], ◌∷◌, ◌++◌,
  length, take, drop, replicate, if◌then◌else◌,
}
use ibchat.External.{Libibur, Ibcrypt}
use ibchat.Files.{Files}
use ibchat.Codec.{Verdict, ok, error, undefined}
use ibchat.Client.DataFile.{FormatDesc, write_datafile, read_datafile}
use ibchat.Client.Uname.{gen_uid, c_string}
use ibchat.Client.Friend.{Friend, friend_size, friend_bin_size, friend_write_bin, friend_parse_bin}
use ibchat.Client.Account.{Account}
use ibchat.Client.Paths.{file_path}

-- A new friend with no keys yet. `name` has the bytes of the given name before its null byte, padded
-- with null bytes as `strncpy` does it; `cs_rand` answers `random`.
unfoldable pub new_friend : Ibcrypt → Option Bytes → Bytes → Bytes → Verdict Friend
new_friend ib none name pkey = error
new_friend ib (some r) name pkey =
    let zeros = replicate 32 0 in
    ok (record {
      uname = name;
      pkey = pkey;
      uid = gen_uid ib name;
      c_file = r;
      f_symm_key = zeros;
      f_hmac_key = zeros;
      s_symm_key = zeros;
      s_hmac_key = zeros;
      r_symm_key = zeros;
      r_hmac_key = zeros;
      s_nonce = 0;
      r_nonce = 0;
    })

-- A name that is longer than `u_len` is copied without its null byte, and `gen_uid` reads past the
-- end of the block.
unfoldable pub init_friend :
    Ibcrypt → (ℕ → Bool) → Option Bytes → Bytes → Bytes → ℕ → Verdict Friend
init_friend ib mem random uname pkey u_len =
    let given = c_string uname in
    if mem friend_size && mem ((u_len + 1) % 2 ^ 64) && mem ((length pkey + 1) % 2 ^ 64)
    then if ltb u_len (length given)
      then undefined
      else new_friend ib random (take u_len (given ++ replicate u_len 0)) pkey
    else error

module _ (lib : Libibur) (ib : Ibcrypt) (mem : ℕ → Bool) where
  unfoldable pub ff_format : FormatDesc Account Friend
  ff_format = record {
    pref_len = 0;
    p_fill = λ acc. some [];
    s_key = λ acc extra. (some acc.f_symm, acc);
    h_key = λ acc extra. (some acc.f_hmac, acc);
    datalen = friend_bin_size;
    datawrite = λ f. some (friend_write_bin lib ib mem f);
    dataread = λ acc. friend_parse_bin lib ib mem;
  }

  module _ (root_dir : Bytes) where
    unfoldable pub friendfile_path : Account → Option Bytes
    friendfile_path acc = file_path lib mem root_dir acc.f_file

    unfoldable pub write_friendfile :
        Option Bytes → Account → Files → Verdict (Unit {0}) × Account × Files
    write_friendfile random acc fs = elim (friendfile_path acc) [
      | none ↦ (error, acc, fs)
      | some path ↦ write_datafile lib ib mem ff_format path random acc acc.friends fs
    ]

    abbrev pub with_friends : Account → Verdict (List Friend) × Account → Verdict Account
    with_friends acc (ok friends, after) = ok (record after { friends = friends })
    with_friends acc (error, after) = error
    with_friends acc (undefined, after) = undefined

    -- The account with its friends. What a failure leaves of its list is not followed.
    unfoldable pub read_friendfile : Account → Files → Verdict Account
    read_friendfile acc fs = elim (friendfile_path acc) [
      | none ↦ error
      | some path ↦ with_friends acc (read_datafile lib ib mem ff_format path acc fs)
    ]

    -- The friend stays in the list if the file cannot be written.
    unfoldable pub add_friend :
        Option Bytes → Friend → Account → Files → Verdict (Unit {0}) × Account × Files
    add_friend random f acc fs =
        write_friendfile random (record acc { friends = acc.friends ++ (f ∷ []) }) fs

    -- The account with the name and the keys of its new file.
    unfoldable pub with_friendfile : Bytes → Account → Account
    with_friendfile buf acc = record acc {
      friends = [];
      f_file = take 32 buf;
      f_symm = take 32 (drop 32 buf);
      f_hmac = take 32 (drop 64 buf);
    }

    -- `keys` and `random` are the answers of `cs_rand` here and in `write_datafile`. A denied path
    -- fails in `stat` or, if that says ENOENT, in `write_datafile`.
    unfoldable pub init_friendfile :
        Option Bytes → Option Bytes → Account → Files → Verdict (Unit {0}) × Account × Files
    init_friendfile none random acc fs = (error, acc, fs)
    init_friendfile (some buf) random acc fs =
        let new = with_friendfile buf acc in
        elim (friendfile_path new) [
          | none ↦ (error, new, fs)
          | some path ↦ elim (fs.file path) [
            | none ↦ write_friendfile random new fs
            | some old ↦ (error, new, fs)
          ]
        ]
