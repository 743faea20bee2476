-- ===== src/Client/Friendreq/Unchanged.antt =====
-- Adding a friend and a notification: what becomes of the account in memory.
use ibchat.Prelude.{
  ℕ, ◌≡◌, refl, sym, ap, ◌∙◌, Bool, Option, none, some, Bytes, List, [], ◌∷◌, ◌++◌,
}
use ibchat.External.{Libibur, Ibcrypt}
use ibchat.Files.{Files}
use ibchat.Codec.{Verdict, ok, error, undefined}
use ibchat.Client.DataFile.{keys_of, write_datafile}
use ibchat.Client.DataFile.Argument.{write_datafile-arg}
use ibchat.Client.Account.{Account}
use ibchat.Client.Friend.{Friend}
use ibchat.Client.Notif.{Notif}
use ibchat.Client.NotifFile.{
  Client, nf_format, write_notiffile, written_notifs, insert_notif, after_insert, add_notif,
}
use ibchat.Client.Paths.{file_path}
use ibchat.Client.FriendFile.{ff_format, friendfile_path, write_friendfile, add_friend}

module _ (lib : Libibur) (ib : Ibcrypt) (mem : ℕ → Bool) where
  -- Writing the file changes nothing of the account in memory.
  write_friendfile-acc :
      (root_dir : Bytes) (random : Option Bytes) (acc : Account) (fs : Files)
      → (write_friendfile lib ib mem root_dir random acc fs).1 ≡ acc
  unfolding write_friendfile ff_format keys_of
  write_friendfile-acc root_dir random acc fs = by_path (friendfile_path lib ib mem root_dir acc)
    where
      by_path :
          (o : Option Bytes)
          → (elim o as (λ _. Verdict (Unit {0}) × Account × Files) [
            | none ↦ (error, acc, fs)
            | some path ↦
                write_datafile lib ib mem (ff_format lib ib mem) path random acc acc.friends fs
          ]).1
            ≡ acc
      by_path none = refl
      by_path (some path) =
          write_datafile-arg lib ib mem (ff_format lib ib mem) acc (λ extra. refl) path random
            acc.friends fs

  pub add_friend-acc :
      (root_dir : Bytes) (random : Option Bytes) (f : Friend) (acc acc' : Account) (fs fs' : Files)
      (r : Verdict (Unit {0}))
      → add_friend lib ib mem root_dir random f acc fs ≡ (r, acc', fs')
      → acc' ≡ record acc { friends = acc.friends ++ (f ∷ []) }
  unfolding add_friend
  add_friend-acc root_dir random f acc acc' fs fs' r e =
      let added = record acc { friends = acc.friends ++ (f ∷ []) } in
      sym (ap (λ w. w.1) e) ∙ write_friendfile-acc root_dir random added fs

  write_notiffile-acc :
      (root_dir : Bytes) (random : Option Bytes) (acc : Account) (ns : List Notif) (fs : Files)
      → (write_notiffile lib ib mem root_dir random acc ns fs).1 ≡ acc
  unfolding write_notiffile nf_format keys_of
  write_notiffile-acc root_dir random acc ns fs = by_path (file_path lib mem root_dir acc.n_file)
    where
      by_path :
          (o : Option Bytes)
          → (elim o as (λ _. Verdict (Unit {0}) × Account × Files) [
            | none ↦ (error, acc, fs)
            | some path ↦ write_datafile lib ib mem (nf_format lib ib mem) path random acc ns fs
          ]).1
            ≡ acc
      by_path none = refl
      by_path (some path) =
          write_datafile-arg lib ib mem (nf_format lib ib mem) acc (λ extra. refl) path random ns fs

  after_insert-acc :
      (root_dir : Bytes) (r : Verdict (Unit {0}) × Client)
      → (after_insert lib ib mem root_dir r).1.acc ≡ r.1.acc
  after_insert-acc root_dir (ok tt, c) = refl
  after_insert-acc root_dir (error, c) = refl
  after_insert-acc root_dir (undefined, c) = refl

  pub add_notif-acc :
      (root_dir : Bytes) (random : Option Bytes) (n : Notif) (c : Client)
      → (add_notif lib ib mem root_dir random n c).1.acc ≡ c.acc
  unfolding add_notif insert_notif written_notifs
  add_notif-acc root_dir random n c =
      after_insert-acc root_dir (insert_notif lib ib mem root_dir random n c)
      ∙ write_notiffile-acc root_dir random c.acc (c.notifs ++ (n ∷ [])) c.files
