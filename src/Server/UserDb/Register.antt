-- ===== src/Server/UserDb/Register.antt =====
-- Registering a user in a table of up to twelve users.
use ibchat.Prelude.{
  ℕ, ◌+◌, ◌%◌, ◌^◌, ◌≤◌, ◌<◌, ◌≡◌, refl, ◌∙◌, Bool, true, false, some, none, Bytes, bytes_eq,
  bytes_eq_refl, [], ◌∷◌, ltb, length, set, length-set, get_or, if◌then◌else◌, success, pos, arith,
  ap,
}
use ibchat.External.{Libibur, Ibcrypt, Rsa}
use ibchat.Buckets.{first, copies, copies-absent}
use ibchat.Buckets.Placed.{home, chain_of, set-IsPlaced, first-set, length-flatten-home}
use ibchat.Files.{Files}
use ibchat.Server.Undelivered.{User}
use ibchat.Server.HandlerTable.{hash_id, min_size}
use ibchat.Server.UserFile.{write_user_file}
use ibchat.Server.UserDb.{
  UserDb, uid_of, resize, user_db_get_nolock, user_db_add_no_write, add_written, user_db_add, index,
  bucket,
}
use ibchat.Server.UserDb.Valid.{IsValid, user_db_get_nolock-chain_of}

module _ (lib : Libibur) (ib : Ibcrypt) (db : UserDb) (valid : IsValid lib ib db) (u : User) where
  -- The table with `u` at the front of its chain.
  abbrev pub linked : UserDb
  linked = record db {
    buckets = set db.buckets (index lib ib db u.uid) (u ∷ bucket lib ib db u.uid);
    elements = (db.elements + 1) % 2 ^ 64;
  }

  spot : index lib ib db u.uid ≡ home uid_of (hash_id lib ib) u.uid (length db.buckets)
  spot = rw (valid.first_size, valid.width) refl

  in_range : ltb (index lib ib db u.uid) (length db.buckets) ≡ true
  in_range = rw (valid.first_size, valid.width) (ground arith)

  pub linked-IsValid :
      (q : Bytes)
      → user_db_get_nolock lib ib db u.uid ≡ some none
      → db.elements < 12
      → IsValid lib ib linked
        × (user_db_get_nolock lib ib linked q
            ≡ (if bytes_eq u.uid q then some (some u) else user_db_get_nolock lib ib db q))
  linked-IsValid q absent few =
      let h = hash_id lib ib in
      let old = chain_of uid_of h db.buckets u.uid in
      let room : 0 < length db.buckets = omega (arith, valid.width) in
      let same : bucket lib ib db u.uid ≡ old = ap (λ i. get_or db.buckets i []) spot in
      let nobody : first uid_of u.uid old ≡ none =
        cc (absent, user_db_get_nolock-chain_of lib ib db u.uid valid.first_size valid.width) in
      let zero_old = copies-absent uid_of u.uid old nobody in
      let width : length (set db.buckets (index lib ib db u.uid) (u ∷ bucket lib ib db u.uid))
          ≡ min_size =
        length-set db.buckets _ _ ∙ valid.width in
      (
        record {
          first_size = valid.first_size;
          width = width;
          placed =
              rw (same, spot)
                (set-IsPlaced uid_of h db.buckets u.uid (u ∷ old) room valid.placed
                  (unfold copies in ground (arith, bytes_eq_refl u.uid))
                  (λ r ne. unfold copies in ground arith));
          counted =
              rw (same, spot)
                (omega (
                  arith,
                  length-flatten-home uid_of h db.buckets u.uid (u ∷ old) room,
                  valid.counted,
                ));
          few = omega arith;
        },
        user_db_get_nolock-chain_of lib ib linked q valid.first_size width
            ∙ rw
                (
                  same,
                  spot,
                  user_db_get_nolock-chain_of lib ib db q valid.first_size valid.width,
                  first-set uid_of h db.buckets u.uid (u ∷ old) room (some u) q
                      (unfold first in refl),
                )
                (ground arith),
      )

  pub user_db_add_no_write-linked :
      (mem : Bool)
      → db.elements < 12
      → user_db_add_no_write lib ib true mem u db ≡ some (success, linked)
  unfolding user_db_add_no_write resize
  user_db_add_no_write-linked mem few =
      let counts : (db.elements + 1) % 2 ^ 64 ≡ db.elements + 1 = omega arith in
      rw (in_range, valid.first_size, counts) (ground arith)

  -- Registering a user whose id is not in a valid table of fewer than 12 users, where the user's
  -- file can be written and there is memory for the entry, returns 0 and leaves the file written.
  -- The table stays valid, finds the new user under its id, and every other lookup is as before.
  pub user_db_add-new :
      (rsa : Rsa) (malloc : ℕ → Bool) (salt1 salt2 : ℕ) (user_dir : Bytes) (mem : Bool)
      (fs fs' : Files)
      → user_db_get_nolock lib ib db u.uid ≡ some none
      → db.elements < 12
      → write_user_file lib rsa malloc salt1 salt2 user_dir u fs ≡ (success, fs')
      → (db' : UserDb) × (user_db_add lib ib rsa malloc salt1 salt2 user_dir true mem u db fs
          ≡ some (success, db', fs'))
        × IsValid lib ib db'
        × (db'.elements ≡ db.elements + 1)
        × ((q : Bytes)
            → user_db_get_nolock lib ib db' q
              ≡ (if bytes_eq u.uid q then some (some u) else user_db_get_nolock lib ib db q))
  unfolding user_db_add add_written
  user_db_add-new rsa malloc salt1 salt2 user_dir mem fs fs' absent few wrote = (
    linked,
    rw (absent, wrote, user_db_add_no_write-linked mem few, user_db_add, add_written) refl,
    (linked-IsValid [] absent few).0,
    omega arith,
    λ q. (linked-IsValid q absent few).1,
  )

  -- Where a user whose id is not in a valid table of fewer than 12 users is registered, with its file
  -- written and memory for the entry, registering any user with the same id after that is undefined
  -- behaviour, whatever the files and the memory then are: the error path overruns a local array.
  pub user_db_add-again :
      (rsa : Rsa) (malloc : ℕ → Bool) (salt1 salt2 : ℕ) (user_dir : Bytes) (mem : Bool)
      (fs fs' : Files)
      → user_db_get_nolock lib ib db u.uid ≡ some none
      → db.elements < 12
      → write_user_file lib rsa malloc salt1 salt2 user_dir u fs ≡ (success, fs')
      → (db' : UserDb) × (user_db_add lib ib rsa malloc salt1 salt2 user_dir true mem u db fs
          ≡ some (success, db', fs'))
        × ((v : User) (ent mem' : Bool) (now : Files)
            → v.uid ≡ u.uid
            → user_db_add lib ib rsa malloc salt1 salt2 user_dir ent mem' v db' now ≡ none)
  unfolding user_db_add
  user_db_add-again rsa malloc salt1 salt2 user_dir mem fs fs' absent few wrote =
      let (db', run, valid', count, found) =
        user_db_add-new rsa malloc salt1 salt2 user_dir mem fs fs' absent few wrote in
      let there : user_db_get_nolock lib ib db' u.uid ≡ some (some u) =
        rw (bytes_eq_refl u.uid) at (found u.uid) in
      (db', run, λ v ent mem' now same. rw (same, there, user_db_add) refl)

  -- With 12 users in the table, adding another one either reads past the end of the array of
  -- buckets, where `resize` gets its memory, or returns 1 where it does not, and the table then has
  -- twice the size of its array: looking up an id whose hash modulo 32 is 16 or more reads past the
  -- end.
  pub user_db_add_no_write-thirteenth :
      (q : Bytes)
      → db.elements ≡ 12
      → 16 ≤ hash_id lib ib q % 32
      → (user_db_add_no_write lib ib true true u db ≡ none)
        × ((db' : UserDb) × (user_db_add_no_write lib ib true false u db ≡ some (pos 1, db'))
            × (user_db_get_nolock lib ib db' q ≡ none))
  unfolding user_db_add_no_write resize user_db_get_nolock
  user_db_add_no_write-thirteenth q full far =
      let width : length (set db.buckets (index lib ib db u.uid) (u ∷ bucket lib ib db u.uid))
          ≡ min_size =
        length-set db.buckets _ _ ∙ valid.width in
      (
        rw (in_range, width, valid.first_size, full) refl,
        (
          record linked { size = 32 },
          rw (in_range, valid.first_size, full) refl,
          rw width (ground arith),
        ),
      )
