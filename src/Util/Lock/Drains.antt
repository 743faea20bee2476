-- ===== src/Util/Lock/Drains.antt =====
-- The lock comes free once its holders release it.
use ibchat.Prelude.{
  ℕ, zero, suc, ◌+◌, ◌≡◌, refl, subst, inl, inr, true, some, ℤ, pos, negsuc, arith,
}
use ibchat.Util.Lock.{
  acquire_readlock, release_readlock, acquire_writelock, release_writelock, Lock, init_lock,
  read_out, write_out, Steps, done, later, all_releases,
}
use ibchat.Util.Lock.Reach.{Steps-Excludes}

abbrev at : ℕ → Lock
at n = record { use_state = pos n; readers = n; writers = 0 }

abbrev written : Lock
written = record { use_state = negsuc 0; readers = 0; writers = 1 }

-- The lock can be released by its holders alone to a state that it can be taken in.
abbrev Drains : Lock → Type 0
Drains l =
    (m : Lock) × (s : Steps l m) × (all_releases s ≡ true)
    × (acquire_writelock m.use_state ≡ some (negsuc 0))
    × (acquire_readlock m.use_state ≡ some (pos 1))

release_to :
    (total k j : ℕ) → j + k ≡ total → (s : Steps (at total) (at j)) × (all_releases s ≡ true)
unfolding release_readlock
release_to total zero j e =
    let same : j ≡ total = omega arith in
    subst (λ t. (s : Steps (at t) (at j)) × (all_releases s ≡ true)) same (done, refl)
release_to total (suc k) j e =
    let r = release_to total k (suc j) (omega arith) in (later r.0 (read_out refl refl), rw r.1)

readers-Drains : (n : ℕ) → Drains (at n)
unfolding acquire_writelock acquire_readlock
readers-Drains n = let r = release_to n n 0 (omega arith) in (at 0, r.0, r.1, refl, refl)

writer-Drains : Drains written
unfolding acquire_writelock acquire_readlock release_writelock
writer-Drains = (at 0, later done (write_out refl refl), refl, refl, refl)

at-Drains :
    (u : ℤ) (r w : ℕ)
    → Steps init_lock (record { use_state = u; readers = r; writers = w })
    → Drains (record { use_state = u; readers = r; writers = w })
at-Drains u r w s = elim (Steps-Excludes _ s) [
  | inl read ↦ rw (read.0, read.1) (readers-Drains r)
  | inr wrote ↦ rw (wrote.0, wrote.1, wrote.2) writer-Drains
]

-- From every state that calls lead to, the threads that hold the lock can all release it, with no call
-- by any other, and it is then given to the next writer, or the next reader, that asks.
pub Steps-Drains :
    (l : Lock)
    → Steps init_lock l
    → (m : Lock) × (s : Steps l m) × (all_releases s ≡ true)
      × (acquire_writelock m.use_state ≡ some (negsuc 0))
      × (acquire_readlock m.use_state ≡ some (pos 1))
Steps-Drains l s = at-Drains l.use_state l.readers l.writers s
