-- ===== src/Server/UserDb/Valid.antt =====
-- The invariant of the table of users: it has its first size, and at most 12 users.
use ibchat.Prelude.{
  ◌≤◌, ◌≡◌, refl, sym, ◌∙◌, true, some, Bytes, List, [], length, flatten, arith, length-replicate,
  flatten-replicate, ap,
}
use ibchat.External.{Libibur, Ibcrypt}
use ibchat.Buckets.{first}
use ibchat.Buckets.Placed.{IsPlaced, chain_of, first-flatten, replicate-IsPlaced}
use ibchat.Server.Undelivered.{User}
use ibchat.Server.HandlerTable.{hash_id, min_size}
use ibchat.Server.UserDb.{UserDb, uid_of, user_db_get_nolock, init_user_db_st}

module _ (lib : Libibur) (ib : Ibcrypt) where
  pub record IsValid (db : UserDb) : Type 0 where
    pub first_size : db.size ≡ min_size
    pub width : length db.buckets ≡ min_size
    pub placed : IsPlaced uid_of (hash_id lib ib) db.buckets
    pub counted : db.elements ≡ length (flatten db.buckets)
    pub few : db.elements ≤ 12

  -- The read of the array that a lookup makes is in range, and it searches the home chain.
  pub user_db_get_nolock-chain_of :
      (db : UserDb) (q : Bytes)
      → db.size ≡ min_size
      → length db.buckets ≡ min_size
      → user_db_get_nolock lib ib db q
        ≡ some (first uid_of q (chain_of uid_of (hash_id lib ib) db.buckets q))
  unfolding user_db_get_nolock
  user_db_get_nolock-chain_of db q size width = rw (size, width) (ground arith)

  -- In a valid table a lookup is defined, and it finds what a search of all users finds.
  pub user_db_get_nolock-flatten :
      (db : UserDb) (q : Bytes)
      → IsValid db
      → user_db_get_nolock lib ib db q ≡ some (first uid_of q (flatten db.buckets))
  user_db_get_nolock-flatten db q valid =
      user_db_get_nolock-chain_of db q valid.first_size valid.width
      ∙ ap some (sym (first-flatten uid_of (hash_id lib ib) db.buckets q valid.placed).0)

  pub init_user_db_st-IsValid : (db : UserDb) → IsValid (init_user_db_st true db).1
  unfolding init_user_db_st
  init_user_db_st-IsValid db = record {
    first_size = refl;
    width = length-replicate {A = List User} min_size [];
    placed = replicate-IsPlaced uid_of (hash_id lib ib) min_size;
    counted = ap length (sym (flatten-replicate {A = User} min_size));
    few = omega arith;
  }
