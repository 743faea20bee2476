-- ===== src/Client/NotifFile/Messages.antt =====
-- When the loop of `add_new_message` ends.
use ibchat.Prelude.{
  ℕ, zero, suc, ◌≡◌, refl, Bool, true, Option, none, some, Bytes, List, [], ◌∷◌, if◌then◌else◌,
  arith,
}
use ibchat.External.{Libibur, Ibcrypt}
use ibchat.Client.Friend.{Friend}
use ibchat.Client.Notif.{Notif}
use ibchat.Client.NotifFile.{
  Client, is_message_from, with_one_more, count_message, after_count, add_new_message,
}

module _ (lib : Libibur) (ib : Ibcrypt) (mem : ℕ → Bool) (root_dir : Bytes)
    (same : Friend → Friend → Bool) where
  -- The first notification, if any, is an entry of unread messages from the friend.
  abbrev pub ready : Friend → List Notif → Bool
  ready f [] = true
  ready f (n ∷ ns) = is_message_from lib ib mem root_dir same f n

  -- The list with one more unread message from the friend, where the search ends.
  abbrev pub counted : List Notif → Option (List Notif)
  counted [] = none
  counted (n ∷ ns) = some (with_one_more lib ib mem root_dir same n ∷ ns)

  pub count_message-ready :
      (fuel : ℕ) (f : Friend) (ns : List Notif)
      → count_message lib ib mem root_dir same (suc fuel) f ns
        ≡ (if ready f ns then some (counted ns) else none)
  unfolding count_message
  count_message-ready fuel f [] = refl
  count_message-ready zero f (n ∷ ns) = refl
  count_message-ready (suc fuel) f (n ∷ ns) = ground (arith, count_message-ready fuel f (n ∷ ns))

  -- A new message from a friend is counted, with one round or more of the loop, where the list is
  -- empty (then it gets its first entry) or the first entry is of messages from that friend (then
  -- its counter goes up, modulo 2^64). In every other case no number of rounds ends the loop: the
  -- call never returns, since nothing in the loop moves to the next notification.
  pub add_new_message-returns :
      (fuel : ℕ) (random : Option Bytes) (f : Friend) (c : Client)
      → add_new_message lib ib mem root_dir same (suc fuel) random f c ≡ (
          if ready f c.notifs
          then some (after_count lib ib mem root_dir same random f c (counted c.notifs))
          else none)
  unfolding add_new_message
  add_new_message-returns fuel random f c =
      rw (add_new_message, count_message-ready fuel f c.notifs) (ground arith)
