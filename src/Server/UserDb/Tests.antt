-- ===== src/Server/UserDb/Tests.antt =====
-- A table of users that fills up, with the sample external libraries.
use ibchat.Prelude.{
  Bool, plenty, ℕ, zero, suc, ◌+◌, ◌≡◌, refl, none, some, Bytes, [], ◌∷◌, bytes_eq, replicate,
  if◌then◌else◌, pos, success, true, false, arith, flatten, ltb,
}
use ibchat.External.Samples.{libibur, ibcrypt, rsa}
use ibchat.Buckets.{first, copies}
use ibchat.Files.{Files, store, can_create}
use ibchat.Server.Undelivered.{User}
use ibchat.Server.HandlerTable.{hash_id}
use ibchat.Server.UserFile.{user_prefix, user_image, user_path, write_user_file}
use ibchat.Server.UserDb.{
  UserDb, uid_of, init_user_db_st, resize, user_db_get_nolock, user_db_add_no_write, add_written,
  user_db_add,
}
use ibchat.Server.UserDb.Valid.{IsValid, init_user_db_st-IsValid, user_db_get_nolock-flatten}
use ibchat.Server.UserDb.Register.{
  linked-IsValid, user_db_add_no_write-linked, user_db_add-new, user_db_add-again,
  user_db_add_no_write-thirteenth,
}

abbrev person : ℕ → User
person n = record { pkey = 5 ∷ 6 ∷ []; uid = n ∷ []; und_auth = replicate 32 9 }

abbrev users : Bytes
users = 117 ∷ 47 ∷ []

abbrev no_files : Files
no_files = record { file = λ q. none; denied = λ q. false }

abbrev unset : UserDb
unset = record { buckets = []; size = 0; elements = 0 }

abbrev empty : UserDb
empty = (init_user_db_st true unset).1

empty-IsValid : IsValid libibur ibcrypt empty
empty-IsValid = init_user_db_st-IsValid libibur ibcrypt unset

program : Unit {0}
unfolding libibur ibcrypt rsa hash_id store can_create user_prefix user_image user_path
    write_user_file init_user_db_st resize user_db_get_nolock user_db_add_no_write add_written
    user_db_add first copies flatten
program = tt

abbrev written : Files
written = (write_user_file libibur rsa plenty 1 2 users (person 3) no_files).1

user_db_add-new_example :
    (db' : UserDb) × (user_db_add libibur ibcrypt rsa plenty 1 2 users true true
        (person 3)
        empty
        no_files
      ≡ some (success, db', written))
    × IsValid libibur ibcrypt db'
    × (db'.elements ≡ empty.elements + 1)
    × ((q : Bytes)
        → user_db_get_nolock libibur ibcrypt db' q ≡ (
            if bytes_eq (person 3).uid q
            then some (some (person 3))
            else user_db_get_nolock libibur ibcrypt empty q))
unfolding program
user_db_add-new_example =
    user_db_add-new libibur ibcrypt empty empty-IsValid (person 3) rsa plenty 1 2 users true
      no_files written refl (omega arith) refl

abbrev added : User → UserDb → UserDb
added u db = elim (user_db_add_no_write libibur ibcrypt true true u db) [ none ↦ db | some r ↦ r.1 ]

added-IsValid :
    (u : User) (db : UserDb)
    → IsValid libibur ibcrypt db
    → user_db_get_nolock libibur ibcrypt db u.uid ≡ some none
    → ltb db.elements 12 ≡ true
    → IsValid libibur ibcrypt (added u db)
added-IsValid u db valid absent few =
    rw (user_db_add_no_write-linked libibur ibcrypt db valid u true (ground arith), added)
      (linked-IsValid libibur ibcrypt db valid u [] absent (ground arith)).0

-- The first `n` people, registered from the last to the first.
abbrev crowd : ℕ → UserDb
crowd zero = empty
crowd (suc n) = added (person n) (crowd n)

-- Each of them is new when registered, and there is room.
abbrev IsFresh : ℕ → Type 0
IsFresh zero = Unit {0}
IsFresh (suc n) =
    IsFresh n
    × (user_db_get_nolock libibur ibcrypt (crowd n) (n ∷ []) ≡ some none)
    × (ltb ((crowd n).elements) 12 ≡ true)

crowd-IsValid : (n : ℕ) → IsFresh n → IsValid libibur ibcrypt (crowd n)
crowd-IsValid zero h = empty-IsValid
crowd-IsValid (suc n) h = added-IsValid (person n) (crowd n) (crowd-IsValid n h.0) h.1 h.2

twelve-IsFresh : IsFresh 12
unfolding program
twelve-IsFresh = (
  (
    (
      (
        (
          (
            ((((((tt, refl, refl), refl, refl), refl, refl), refl, refl), refl, refl), refl, refl),
            refl,
            refl,
          ),
          refl,
          refl,
        ),
        refl,
        refl,
      ),
      refl,
      refl,
    ),
    refl,
    refl,
  ),
  refl,
  refl,
)

twelve-IsValid : IsValid libibur ibcrypt (crowd 12)
twelve-IsValid = crowd-IsValid 12 twelve-IsFresh

user_db_add_no_write-thirteenth_example :
    (user_db_add_no_write libibur ibcrypt true true (person 12) (crowd 12) ≡ none)
    × ((db' : UserDb) × (user_db_add_no_write libibur ibcrypt true false (person 12) (crowd 12)
          ≡ some (pos 1, db'))
        × (user_db_get_nolock libibur ibcrypt db' (10 ∷ []) ≡ none))
unfolding program
user_db_add_no_write-thirteenth_example =
    user_db_add_no_write-thirteenth libibur ibcrypt (crowd 12) twelve-IsValid (person 12) (10 ∷ [])
      refl (omega arith)

user_db_add-again_example :
    (db' : UserDb) × (user_db_add libibur ibcrypt rsa plenty 1 2 users true true
        (person 3)
        empty
        no_files
      ≡ some (success, db', written))
    × ((v : User) (ent mem' : Bool) (now : Files)
        → v.uid ≡ (person 3).uid
        → user_db_add libibur ibcrypt rsa plenty 1 2 users ent mem' v db' now ≡ none)
unfolding program
user_db_add-again_example =
    user_db_add-again libibur ibcrypt empty empty-IsValid (person 3) rsa plenty 1 2 users true
      no_files written refl (omega arith) refl

user_db_get_nolock-flatten_example :
    user_db_get_nolock libibur ibcrypt (crowd 12) (3 ∷ [])
    ≡ some (first uid_of (3 ∷ []) (flatten (crowd 12).buckets))
user_db_get_nolock-flatten_example =
    user_db_get_nolock-flatten libibur ibcrypt (crowd 12) (3 ∷ []) twelve-IsValid
