-- ===== src/Client/NotifFile.antt =====
-- The list of notifications, its file, and the operations that change them
-- (client/notifications.c). Locks are taken around each operation and left out.
pub mod Kept
mod Tests
pub mod Messages
use ibchat.Prelude.{
  ℕ, zero, suc, ◌+◌, ◌%◌, ◌^◌, ◌==◌, Bool, true, false, Option, none, some, Bytes, List, [], ◌∷◌,
  ◌++◌, take, drop, length, if◌then◌else◌,
}
use ibchat.External.{Libibur, Ibcrypt}
use ibchat.Files.{Files}
use ibchat.Codec.{Verdict, ok, error, undefined}
use ibchat.Client.DataFile.{FormatDesc, write_datafile, read_datafile}
use ibchat.Client.Friend.{Friend}
use ibchat.Client.Account.{Account}
use ibchat.Client.Notif.{
  Notif, message, request, response, unknown, notif_size, notif_bin_len, notif_bin_write,
  notif_bin_parse,
}
use ibchat.Client.Paths.{file_path}

-- The globals `acc`, `notifs` and the mode of the interface, and the files.
pub record Client : Type 0 where
  pub acc : Account
  pub notifs : List Notif
  pub mode : ℕ
  pub files : Files

module _ (lib : Libibur) (ib : Ibcrypt) (mem : ℕ → Bool) where
  unfoldable pub nf_format : FormatDesc Account Notif
  nf_format = record {
    pref_len = 0;
    p_fill = λ acc. some [];
    s_key = λ acc extra. (some acc.n_symm, acc);
    h_key = λ acc extra. (some acc.n_hmac, acc);
    datalen = notif_bin_len;
    datawrite = λ n. some (notif_bin_write lib mem n);
    dataread = notif_bin_parse lib mem;
  }

  module _ (root_dir : Bytes) where
    unfoldable pub write_notiffile :
        Option Bytes → Account → List Notif → Files → Verdict (Unit {0}) × Account × Files
    write_notiffile random acc notifs fs = elim (file_path lib mem root_dir acc.n_file) [
      | none ↦ (error, acc, fs)
      | some path ↦ write_datafile lib ib mem nf_format path random acc notifs fs
    ]

    unfoldable pub read_notiffile : Account → Files → Verdict (List Notif)
    read_notiffile acc fs = elim (file_path lib mem root_dir acc.n_file) [
      | none ↦ error
      | some path ↦ (read_datafile lib ib mem nf_format path acc fs).0
    ]

    -- The account with the name and the keys of its new file.
    unfoldable pub with_notiffile : Bytes → Account → Account
    with_notiffile buf acc = record acc {
      n_file = take 32 buf;
      n_symm = take 32 (drop 32 buf);
      n_hmac = take 32 (drop 64 buf);
    }

    -- `keys` and `random` are the answers of `cs_rand` here and in `write_datafile`.
    unfoldable pub init_notiffile :
        Option Bytes → Option Bytes → Account → Files → Verdict (Unit {0}) × Account × Files
    init_notiffile none random acc fs = (error, acc, fs)
    init_notiffile (some buf) random acc fs =
        let new = with_notiffile buf acc in
        elim (file_path lib mem root_dir new.n_file) [
          | none ↦ (error, new, fs)
          | some path ↦ elim (fs.file path) [
            | none ↦ write_notiffile random new [] fs
            | some old ↦ (error, new, fs)
          ]
        ]

    -- Writing the notifications of the client, whose list has just been changed.
    unfoldable pub written_notifs : Option Bytes → Client → Verdict (Unit {0}) × Client
    written_notifs random c =
        let w = write_notiffile random c.acc c.notifs c.files in
        (w.0, record c { acc = w.1; files = w.2 })

    unfoldable pub insert_notif : Option Bytes → Notif → Client → Verdict (Unit {0}) × Client
    insert_notif random n c = written_notifs random (record c { notifs = c.notifs ++ (n ∷ []) })

    -- if(get_mode() == 0) set_mode(0xff);
    abbrev pub woken : Client → Client
    woken c = record c { mode = if c.mode == 0 then 0xff else c.mode }

    abbrev pub after_insert : Verdict (Unit {0}) × Client → Verdict (Unit {0}) × Client
    after_insert (ok tt, c) = (ok tt, woken c)
    after_insert (error, c) = (error, c)
    after_insert (undefined, c) = (undefined, c)

    abbrev pub woken_always : Verdict (Unit {0}) × Client → Verdict (Unit {0}) × Client
    woken_always (r, c) = (r, woken c)

    unfoldable pub add_notif : Option Bytes → Notif → Client → Verdict (Unit {0}) × Client
    add_notif random n c = after_insert (insert_notif random n c)

    -- `same` is the comparison of two pointers to friends.
    module _ (same : Friend → Friend → Bool) where
      abbrev pub is_message_from : Friend → Notif → Bool
      is_message_from f (message fr nunread) = same fr f
      is_message_from f (request freq) = false
      is_message_from f (response fr) = false
      is_message_from f (unknown type) = false

      abbrev pub with_one_more : Notif → Notif
      with_one_more (message fr nunread) = message fr ((nunread + 1) % 2 ^ 64)
      with_one_more (request freq) = request freq
      with_one_more (response fr) = response fr
      with_one_more (unknown type) = unknown type

      -- The loop over `cur`, which it does not move: `none` while it still runs after `fuel` rounds,
      -- then the list with one more unread message, or no change at the end of the list.
      unfoldable pub count_message : ℕ → Friend → List Notif → Option (Option (List Notif))
      count_message zero f cur = none
      count_message (suc fuel) f [] = some none
      count_message (suc fuel) f (n ∷ ns) =
          let again = count_message fuel f (n ∷ ns) in
          if is_message_from f n then some (some (with_one_more n ∷ ns)) else again

      abbrev pub after_count :
          Option Bytes → Friend → Client → Option (List Notif) → Verdict (Unit {0}) × Client
      after_count random f c (some ns) = written_notifs random (record c { notifs = ns })
      after_count random f c none =
          if mem notif_size then woken_always (insert_notif random (message f 1) c) else (error, c)

      unfoldable pub add_new_message :
          ℕ → Option Bytes → Friend → Client → Option (Verdict (Unit {0}) × Client)
      add_new_message fuel random f c = elim (count_message fuel f c.notifs) [
        | none ↦ none
        | some r ↦ some (after_count random f c r)
      ]
