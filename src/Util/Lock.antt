-- ===== src/Util/Lock.antt =====
-- util/lock.c: a lock for many readers or one writer. The mutex makes each call one step; a call that
-- waits on the condition has not taken its step yet.
pub mod Reach
pub mod Drains
mod Tests
use ibchat.Prelude.{
  ℕ, zero, suc, ◌+◌, ◌-◌, ◌^◌, ◌==◌, ◌≡◌, Bool, true, false, ◌&&◌, Option, none, some,
  if◌then◌else◌, ℤ, pos, negsuc,
}

-- INT_MAX - 1
abbrev pub max_readers : ℕ
max_readers = 2 ^ 31 - 2

-- The calls on `use_state`. `none` is to wait, or, in the two releases, the failure of the assertion.
unfoldable pub acquire_readlock : ℤ → Option ℤ
acquire_readlock (negsuc n) = none
acquire_readlock (pos n) = if n == max_readers then none else some (pos (n + 1))

unfoldable pub release_readlock : ℤ → Option ℤ
release_readlock (negsuc n) = none
release_readlock (pos zero) = none
release_readlock (pos (suc n)) = some (pos n)

unfoldable pub acquire_writelock : ℤ → Option ℤ
acquire_writelock (negsuc n) = none
acquire_writelock (pos zero) = some (negsuc 0)
acquire_writelock (pos (suc n)) = none

unfoldable pub release_writelock : ℤ → Option ℤ
release_writelock (negsuc zero) = some (pos 0)
release_writelock (negsuc (suc n)) = none
release_writelock (pos n) = none

-- The lock, and how many threads are between an acquisition and its release.
pub record Lock : Type 0 where
  pub use_state : ℤ
  pub readers : ℕ
  pub writers : ℕ

abbrev pub init_lock : Lock
init_lock = record { use_state = pos 0; readers = 0; writers = 0 }

-- One call by some thread; only a thread that holds the lock releases it.
pub data Step (l : Lock) : Lock → Type 0 where
  read_in :
      {v : ℤ}
      → acquire_readlock l.use_state ≡ some v
      → Step l (record l { use_state = v; readers = l.readers + 1 })
  read_out :
      {v : ℤ} {n : ℕ}
      → l.readers ≡ suc n
      → release_readlock l.use_state ≡ some v
      → Step l (record l { use_state = v; readers = n })
  write_in :
      {v : ℤ}
      → acquire_writelock l.use_state ≡ some v
      → Step l (record l { use_state = v; writers = l.writers + 1 })
  write_out :
      {v : ℤ} {n : ℕ}
      → l.writers ≡ suc n
      → release_writelock l.use_state ≡ some v
      → Step l (record l { use_state = v; writers = n })

pub data Steps : Lock → Lock → Type 0 where
  done : {l : Lock} → Steps l l
  later : {l m n : Lock} → Steps l m → Step m n → Steps l n

abbrev pub is_release : {l m : Lock} → Step l m → Bool
is_release (read_in e) = false
is_release (read_out r e) = true
is_release (write_in e) = false
is_release (write_out w e) = true

abbrev pub all_releases : {l m : Lock} → Steps l m → Bool
all_releases done = true
all_releases (later r s) = all_releases r && is_release s
