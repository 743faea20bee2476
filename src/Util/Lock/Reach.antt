-- ===== src/Util/Lock/Reach.antt =====
-- What holds of the lock in every state that its calls lead to.
use ibchat.Prelude.{
  ℕ, zero, suc, ◌+◌, ◌-◌, ◌≤◌, ◌<◌, ◌≡◌, refl, ◌⊎◌, inl, none, some, ℤ, pos, negsuc, arith,
}
use ibchat.Util.Lock.{
  max_readers, acquire_readlock, release_readlock, acquire_writelock, release_writelock, Lock,
  init_lock, Step, read_in, read_out, write_in, write_out, Steps, done, later,
}

-- No writer, and as many readers as `use_state` says, or one writer and no reader.
abbrev pub Excludes : Lock → Type 0
Excludes l =
    ((l.use_state ≡ pos l.readers) × (l.writers ≡ 0) × (l.readers ≤ max_readers))
    ⊎ ((l.use_state ≡ negsuc 0) × (l.readers ≡ 0) × (l.writers ≡ 1))

read_in-Excludes :
    (u v : ℤ) (r w : ℕ)
    → acquire_readlock u ≡ some v
    → Excludes (record { use_state = u; readers = r; writers = w })
    → Excludes (record { use_state = v; readers = r + 1; writers = w })
unfolding acquire_readlock
read_in-Excludes (negsuc k) v r w e h = absurd (ground arith)
read_in-Excludes (pos n) v r w e h = ground arith

read_out-Excludes :
    (u v : ℤ) (r w n : ℕ)
    → r ≡ suc n
    → release_readlock u ≡ some v
    → Excludes (record { use_state = u; readers = r; writers = w })
    → Excludes (record { use_state = v; readers = n; writers = w })
unfolding release_readlock
read_out-Excludes (negsuc k) v r w n some_r e h = absurd (ground arith)
read_out-Excludes (pos zero) v r w n some_r e h = absurd (ground arith)
read_out-Excludes (pos (suc k)) v r w n some_r e h = ground arith

write_in-Excludes :
    (u v : ℤ) (r w : ℕ)
    → acquire_writelock u ≡ some v
    → Excludes (record { use_state = u; readers = r; writers = w })
    → Excludes (record { use_state = v; readers = r; writers = w + 1 })
unfolding acquire_writelock
write_in-Excludes (negsuc k) v r w e h = absurd (ground arith)
write_in-Excludes (pos zero) v r w e h = ground arith
write_in-Excludes (pos (suc k)) v r w e h = absurd (ground arith)

write_out-Excludes :
    (u v : ℤ) (r w n : ℕ)
    → w ≡ suc n
    → release_writelock u ≡ some v
    → Excludes (record { use_state = u; readers = r; writers = w })
    → Excludes (record { use_state = v; readers = r; writers = n })
unfolding release_writelock
write_out-Excludes (negsuc zero) v r w n some_w e h = ground arith
write_out-Excludes (negsuc (suc k)) v r w n some_w e h = absurd (ground arith)
write_out-Excludes (pos k) v r w n some_w e h = absurd (ground arith)

Step-Excludes : (l m : Lock) → Step l m → Excludes l → Excludes m
Step-Excludes l m (read_in {v} e) h = read_in-Excludes l.use_state v l.readers l.writers e h
Step-Excludes l m (read_out {v} {n} r e) h =
    read_out-Excludes l.use_state v l.readers l.writers n r e h
Step-Excludes l m (write_in {v} e) h = write_in-Excludes l.use_state v l.readers l.writers e h
Step-Excludes l m (write_out {v} {n} w e) h =
    write_out-Excludes l.use_state v l.readers l.writers n w e h

Excludes-Steps : {l m : Lock} → Excludes l → Steps l m → Excludes m
Excludes-Steps h done = h
Excludes-Steps h (later r s) = Step-Excludes _ _ s (Excludes-Steps h r)

-- Whatever calls come in whatever order, readers and a writer never hold the lock together, there is
-- one writer at most, and `use_state` is the number of readers, which stays below the largest `int`,
-- or -1 with a writer.
pub Steps-Excludes : (l : Lock) → Steps init_lock l → Excludes l
Steps-Excludes l s = Excludes-Steps (inl (refl, refl, omega arith)) s

releases-defined :
    (u : ℤ) (r w : ℕ)
    → Excludes (record { use_state = u; readers = r; writers = w })
    → (0 < r → (release_readlock u ≡ some (pos (r - 1))) × (acquire_writelock u ≡ none))
      × (0 < w
          → (release_writelock u ≡ some (pos 0))
            × (acquire_readlock u ≡ none)
            × (acquire_writelock u ≡ none))
unfolding release_readlock acquire_writelock release_writelock acquire_readlock
releases-defined (pos zero) r w h =
    (λ some_r. absurd (ground arith), λ some_w. absurd (ground arith))
releases-defined (pos (suc n)) r w h = (λ some_r. ground arith, λ some_w. absurd (ground arith))
releases-defined (negsuc zero) r w h = (λ some_r. absurd (ground arith), λ some_w. ground arith)
releases-defined (negsuc (suc n)) r w h =
    (λ some_r. absurd (ground arith), λ some_w. absurd (ground arith))

-- In every state that calls lead to, a thread that holds the lock can release it, which never fails
-- the assertion, and no thread gets past a wait that another excludes: while a reader holds the lock
-- a writer waits, and while a writer holds it readers and writers wait.
pub Steps-releases :
    (l : Lock)
    → Steps init_lock l
    → (0 < l.readers
        → (release_readlock l.use_state ≡ some (pos (l.readers - 1)))
          × (acquire_writelock l.use_state ≡ none))
      × (0 < l.writers
          → (release_writelock l.use_state ≡ some (pos 0))
            × (acquire_readlock l.use_state ≡ none)
            × (acquire_writelock l.use_state ≡ none))
Steps-releases l s = releases-defined l.use_state l.readers l.writers (Steps-Excludes l s)
