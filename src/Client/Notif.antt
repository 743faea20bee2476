-- ===== src/Client/Notif.antt =====
-- One notification, and its form in a file (client/notifications.c).
pub mod Kept
use ibchat.Prelude.{
  ℕ, zero, suc, ◌+◌, ◌*◌, ◌-◌, ◌%◌, ◌^◌, ◌==◌, Bool, Option, none, some, Bytes, List, [], ◌∷◌, ◌++◌,
  length, if◌then◌else◌, bytes_eq,
}
use ibchat.External.{Libibur}
use ibchat.Codec.{
  Verdict, ok, error, undefined, Parse, pure, guard, bytes, peek, skip, fail, ◌>>=◌, ◌>>◌,
}
use ibchat.Client.Friend.{Friend}
use ibchat.Client.Account.{Account}

-- `struct friendreq`; `u_len` and `k_len` are the lengths.
pub record Friendreq : Type 0 where
  pub uname : Bytes
  pub pkey : Bytes

-- `struct notif` by its type: 1, 2 and 3, and the other bytes that a file may have. `fr` is the
-- friend that the pointer leads to.
pub data Notif : Type 0 where
  message : (fr : Friend) (nunread : ℕ) → Notif
  request : (freq : Friendreq) → Notif
  response : (fr : Friend) → Notif
  unknown : (type : ℕ) → Notif

-- sizeof(struct notif), sizeof(struct friendreq)
abbrev pub notif_size : ℕ
notif_size = 40

abbrev pub friendreq_size : ℕ
friendreq_size = 32

unfoldable pub notif_bin_len : Notif → ℕ
notif_bin_len (message fr nunread) = 1 + 0x20 + 8
notif_bin_len (request freq) = (1 + 8 + 8 + length freq.uname + length freq.pkey) % 2 ^ 64
notif_bin_len (response fr) = 1 + 0x20
notif_bin_len (unknown type) = 1

-- The loop over the account's friends.
unfoldable pub friend_by_uid : Bytes → List Friend → Option Friend
friend_by_uid uid [] = none
friend_by_uid uid (f ∷ fs) = if bytes_eq f.uid uid then some f else friend_by_uid uid fs

module _ (lib : Libibur) (mem : ℕ → Bool) where
  open lib use {encbe64, decbe64}

  unfoldable pub notif_bin_write : Notif → Bytes
  notif_bin_write (message fr nunread) = (1 ∷ []) ++ (fr.uid ++ encbe64 nunread)
  notif_bin_write (request freq) =
      (2 ∷ [])
      ++ (encbe64 (length freq.uname) ++ (encbe64 (length freq.pkey) ++ (freq.uname ++ freq.pkey)))
  notif_bin_write (response fr) = (3 ∷ []) ++ fr.uid
  notif_bin_write (unknown type) = type ∷ []

  abbrev parse_found : (Friend → Notif) → Option Friend → Parse Notif
  parse_found make none = fail
  parse_found make (some fr) = skip 0x28 >> pure (make fr)

  -- The friend whose id stands at the pointer, which is looked at only if there are friends. The
  -- pointer moves past the counter in both cases.
  unfoldable pub parse_friend : (Friend → Notif) → List Friend → Parse Notif
  parse_friend make [] = fail
  parse_friend make (f ∷ fs) = do uid ← peek 0 0x20; parse_found make (friend_by_uid uid (f ∷ fs))

  unfoldable pub parse_message : Account → Parse Notif
  parse_message acc = do
    nunread ← peek 0x20 8
    parse_friend (λ fr. message fr (decbe64 nunread)) acc.friends

  unfoldable pub parse_request : Parse Notif
  parse_request = do
    guard (mem friendreq_size)
    u_len ← bytes 8
    k_len ← bytes 8
    guard (mem ((decbe64 u_len + 1) % 2 ^ 64))
    guard (mem (decbe64 k_len))
    uname ← bytes (decbe64 u_len)
    pkey ← bytes (decbe64 k_len)
    pure (request (record { uname = uname; pkey = pkey }))

  -- The cases of the type byte.
  unfoldable pub parse_case : Account → ℕ → Parse Notif
  parse_case acc type =
      if type == 1
      then parse_message acc
      else if type == 2
      then parse_request
      else if type == 3
      then parse_friend response acc.friends
      else pure (unknown type)

  abbrev first_byte : Bytes → ℕ
  first_byte [] = 0
  first_byte (b ∷ bs) = b

  unfoldable pub notif_bin_parse : Account → Parse Notif
  notif_bin_parse acc = do guard (mem notif_size); type ← bytes 1; parse_case acc (first_byte type)
