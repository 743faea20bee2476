-- ===== src/Util/Lock/Tests.antt =====
-- Two readers at once, and what they leave to a writer.
use ibchat.Prelude.{◌≡◌, refl, true, some, pos, negsuc}
use ibchat.Util.Lock.{
  acquire_readlock, acquire_writelock, Lock, init_lock, Steps, read_in, done, later, all_releases,
}
use ibchat.Util.Lock.Reach.{Excludes, Steps-Excludes}
use ibchat.Util.Lock.Drains.{Steps-Drains}

abbrev two : Lock
two = record { use_state = pos 2; readers = 2; writers = 0 }

two_readers : Steps init_lock two
unfolding acquire_readlock
two_readers = later (later done (read_in refl)) (read_in refl)

Steps-Excludes_example : Excludes two
Steps-Excludes_example = Steps-Excludes two two_readers

Steps-Drains_example :
    (m : Lock) × (s : Steps two m) × (all_releases s ≡ true)
    × (acquire_writelock m.use_state ≡ some (negsuc 0))
    × (acquire_readlock m.use_state ≡ some (pos 1))
Steps-Drains_example = Steps-Drains two two_readers
