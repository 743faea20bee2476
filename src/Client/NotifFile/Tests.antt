-- ===== src/Client/NotifFile/Tests.antt =====
-- Lists of notifications of an account with two friends.
use ibchat.Prelude.{plenty, ◌≡◌, refl, some, none, [], ◌∷◌, ◌++◌, arith, bytes_eq, Bool}
use ibchat.External.Samples.{libibur, ibcrypt}
use ibchat.Files.{can_create}
use ibchat.Codec.{ok, error}
use ibchat.Client.Uname.{gen_uid}
use ibchat.Client.Friend.{Friend}
use ibchat.Client.Account.{Account}
use ibchat.Client.Notif.{Notif, message, request, response, friend_by_uid, notif_bin_write}
use ibchat.Client.Samples.{no_files, random, root_dir, bo, al, account_with}
use ibchat.Client.NotifFile.{
  Client, read_notiffile, write_notiffile, insert_notif, count_message, add_new_message,
}
use ibchat.Client.NotifFile.Kept.{read_notiffile-insert_notif, read_notiffile-response}
use ibchat.Client.NotifFile.Messages.{add_new_message-returns}

program : Unit {0}
unfolding libibur ibcrypt can_create gen_uid friend_by_uid count_message notif_bin_write
program = tt

abbrev acc : Account
acc = account_with (al ∷ bo ∷ [])

abbrev from_al : Notif
from_al = message al 3

abbrev client : Client
client = record { acc = acc; notifs = from_al ∷ []; mode = 0; files = no_files }

abbrev asked : Notif
asked = request (record { uname = 101 ∷ []; pkey = 7 ∷ 7 ∷ [] })

read_notiffile-insert_notif_example :
    (let r = insert_notif libibur ibcrypt plenty root_dir (some random) asked client in
      (r.0 ≡ ok tt)
      × (r.1.notifs ≡ client.notifs ++ (asked ∷ []))
      × (read_notiffile libibur ibcrypt plenty root_dir r.1.acc r.1.files ≡ ok r.1.notifs))
unfolding program
read_notiffile-insert_notif_example =
    read_notiffile-insert_notif libibur ibcrypt root_dir random refl client asked
      ((record { sized = refl; found = refl }, omega arith), (omega arith, tt)) (omega arith)
      (omega arith) refl

read_notiffile-response_example :
    (let w =
        write_notiffile libibur ibcrypt plenty root_dir
          (some random)
          acc
          (from_al ∷ response bo ∷ [])
          no_files in
      (w.0 ≡ ok tt) × (read_notiffile libibur ibcrypt plenty root_dir acc w.2 ≡ error))
unfolding program
read_notiffile-response_example =
    read_notiffile-response libibur ibcrypt root_dir random refl acc no_files (from_al ∷ []) bo
      ((record { sized = refl; found = refl }, omega arith), tt)
      (record { sized = refl; found = refl }) (omega arith) (omega arith) refl

abbrev same : Friend → Friend → Bool
same f g = bytes_eq f.uname g.uname

-- The second friend's message does not get past the first one's entry.
add_new_message-returns_example :
    add_new_message libibur ibcrypt plenty root_dir same 50 (some random) bo client ≡ none
unfolding program
add_new_message-returns_example =
    add_new_message-returns libibur ibcrypt plenty root_dir same 49 (some random) bo client

counted :
    count_message libibur ibcrypt plenty root_dir same 1 al (from_al ∷ [])
    ≡ some (some (message al 4 ∷ []))
unfolding program
counted = refl
