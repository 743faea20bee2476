-- ===== src/Server/UserDb.antt =====
-- The table of users in server/user_db.c: chains of users by id, written to files as they register.
-- Its hash function and its limits on the size are those of server/client_handler.c, word for word.
pub mod Valid
pub mod Register
mod Tests
use ibchat.Prelude.{
  ℕ, ◌+◌, ◌-◌, ◌*◌, ◌/◌, ◌%◌, ◌^◌, bit_xor, Bool, true, false, ◌&&◌, Option, none, some, Bytes,
  List, [], ◌∷◌, ◌==◌, length, take, drop, get_or, set, replicate, ltb, if◌then◌else◌, ℤ, pos,
  negsuc, zero, suc, success, failure,
}
use ibchat.External.{Libibur, Ibcrypt, Rsa}
use ibchat.Buckets.{first}
use ibchat.Buckets.Moved.{move_all}
use ibchat.Files.{Files}
use ibchat.Server.Undelivered.{User}
use ibchat.Server.HandlerTable.{hash_id, max_size, min_size}
use ibchat.Server.UserFile.{write_user_file}

-- `struct user_db_st`; an entry is its user, and the `next` pointers are the order of a chain.
pub record UserDb : Type 0 where
  pub buckets : List (List User)
  pub size : ℕ
  pub elements : ℕ

abbrev pub uid_of : User → Bytes
uid_of u = u.uid

unfoldable pub init_user_db_st : Bool → UserDb → ℤ × UserDb
init_user_db_st false db = (pos 1, db)
init_user_db_st true db =
    (success, record { buckets = replicate min_size []; size = min_size; elements = 0 })

-- The size after the first test of `resize`, and after the second one. The bounds
-- `elements / 0.75` and `elements / 0.25` are cut to integers as in the source.
abbrev pub grown_size : UserDb → ℕ
grown_size db =
    if ltb db.size max_size && ltb db.size (db.elements * 4 / 3) then db.size * 2 else db.size

abbrev pub new_size : UserDb → ℕ
new_size db =
    if ltb min_size (grown_size db) && ltb (db.elements * 4) (grown_size db)
    then grown_size db / 2
    else grown_size db

-- In this module `none` is undefined behaviour: a read past the end of the array of buckets.
module _ (lib : Libibur) (ib : Ibcrypt) where
  abbrev pub hash : Bytes → ℕ
  hash q = hash_id lib ib q

  -- `nsize` is the old size and `db.size` the new one. The new array has `nsize` buckets, the loop
  -- reads the first `db.size` buckets of the old one, and the old size is put back at the end.
  unfoldable pub resize : Bool → UserDb → Option (ℤ × UserDb)
  resize mem db =
      let nsize = db.size in
      let sized = record db { size = new_size db } in
      if nsize == sized.size
      then some (success, sized)
      else if mem
      then if ltb (length db.buckets) sized.size
        then none
        else some (
          success,
          record sized {
            buckets = move_all uid_of hash (take sized.size db.buckets) (replicate nsize []);
            size = nsize;
          },
        )
      else some (pos 1, sized)

  -- The index of the bucket of an id; the bucket, where the index is one of the array.
  abbrev pub index : UserDb → Bytes → ℕ
  index db uid = hash uid % db.size

  abbrev pub bucket : UserDb → Bytes → List User
  bucket db uid = get_or db.buckets (index db uid) []

  unfoldable pub user_db_get_nolock : UserDb → Bytes → Option (Option User)
  user_db_get_nolock db uid =
      if ltb (index db uid) (length db.buckets)
      then some (first uid_of uid (bucket db uid))
      else none

  -- `ent` says whether the entry and its mutex can be made; `mem` is the allocator's answer to
  -- `resize`.
  unfoldable pub user_db_add_no_write : Bool → Bool → User → UserDb → Option (ℤ × UserDb)
  user_db_add_no_write false mem u db = some (pos 1, db)
  user_db_add_no_write true mem u db =
      let linked = record db {
        buckets = set db.buckets (index db u.uid) (u ∷ bucket db u.uid);
        elements = (db.elements + 1) % 2 ^ 64;
      } in
      if ltb (index db u.uid) (length db.buckets) then resize mem linked else none

-- if(user_db_add_no_write(u) != 0) ret = 1;
abbrev pub one_on_failure : Files → ℤ × UserDb → ℤ × UserDb × Files
one_on_failure fs (pos zero, db) = (success, db, fs)
one_on_failure fs (pos (suc n), db) = (pos 1, db, fs)
one_on_failure fs (negsuc n, db) = (pos 1, db, fs)

-- `malloc` is the allocator's answer to `write_user_file`, and the salts are those of its
-- signatures.
module _ (lib : Libibur) (ib : Ibcrypt) (rsa : Rsa) (malloc : ℕ → Bool) (salt1 salt2 : ℕ)
    (user_dir : Bytes) where
  -- Past the search of the id: the file is written first, and then the table.
  unfoldable pub add_written : Bool → Bool → User → UserDb → ℤ × Files → Option (ℤ × UserDb × Files)
  add_written ent mem u db (pos zero, fs) = elim (user_db_add_no_write lib ib ent mem u db) [
    | none ↦ none
    | some r ↦ some (one_on_failure fs r)
  ]
  add_written ent mem u db (pos (suc n), fs) = some (pos 1, db, fs)
  add_written ent mem u db (negsuc n, fs) = some (pos 1, db, fs)

  -- The error path for an id that is in the table makes its 64 hexadecimal digits in `char name[64]`
  -- and prints them as a string: with a null byte they overrun the array, and without one the
  -- reading does.
  unfoldable pub user_db_add : Bool → Bool → User → UserDb → Files → Option (ℤ × UserDb × Files)
  user_db_add ent mem u db fs = elim (user_db_get_nolock lib ib db u.uid) [
    | none ↦ none
    | some (some old) ↦ none
    | some none ↦
        add_written ent mem u db (write_user_file lib rsa malloc salt1 salt2 user_dir u fs)
  ]
