-- ===== src/Client/Friendreq.antt =====
-- client/friendreq.c: friend requests, and the responses that give both users the keys of their
-- conversation. A result `undefined` is the use of memory that was never set or is freed.
pub mod Send
pub mod Unchanged
pub mod Agreed
mod Confirmed
mod Samples
mod Tests
use ibchat.Prelude.{
  ℕ, zero, suc, ◌+◌, ◌%◌, ◌^◌, ◌==◌, not, Bool, true, false, Option, none, some, Bytes, List, [],
  ◌∷◌, ◌++◌, length, take, drop, get_or, leb, bytes_eq, if◌then◌else◌, ℤ, pos, negsuc, success,
  failure,
}
use ibchat.External.{Libibur, Ibcrypt, RsaKeys, IdentityKeys, Oaep}
use ibchat.Files.{Files}
use ibchat.Codec.{Verdict, ok, error, undefined}
use ibchat.Crypto.Handshake.Flow.{
  Run, Hs, Step, go, exit, crash, pure, ◌>>=◌, ◌>>◌, check, attempt, within,
}
use ibchat.Server.Auth.{send_plain}
use ibchat.Client.Uname.{gen_uid}
use ibchat.Client.Account.{Account}
use ibchat.Client.Friend.{Friend}
use ibchat.Client.FriendFile.{init_friend, add_friend}
use ibchat.Client.Notif.{Friendreq, friendreq_size, notif_size, request, response}
use ibchat.Client.NotifFile.{Client, add_notif}
use ibchat.Client.RsaMessage.{send_rsa_message, open_message, check_sender}

-- The keys of a response are those of the user who sends it for sending, then for receiving.
unfoldable pub with_sent_keys : Bytes → Friend → Friend
with_sent_keys keys f = record f {
  s_symm_key = take 32 keys;
  s_hmac_key = take 32 (drop 32 keys);
  r_symm_key = take 32 (drop 64 keys);
  r_hmac_key = take 32 (drop 96 keys);
}

unfoldable pub with_received_keys : Bytes → Friend → Friend
with_received_keys keys f = record f {
  r_symm_key = take 32 keys;
  r_hmac_key = take 32 (drop 32 keys);
  s_symm_key = take 32 (drop 64 keys);
  s_hmac_key = take 32 (drop 96 keys);
}

module _ (lib : Libibur) (ib : Ibcrypt) (rsa : RsaKeys) (ids : IdentityKeys lib rsa)
    (oaep : Oaep lib rsa) (mem : ℕ → Bool) (root_dir : Bytes) where
  open lib use {decbe64}

  -- The queue of notifications takes a new one; the code of `add_notif` is not looked at.
  abbrev pub queued : Verdict (Unit {0}) × Client → Verdict (Unit {0}) × Client
  queued (ok u, c) = (ok tt, c)
  queued (error, c) = (ok tt, c)
  queued (undefined, c) = (undefined, c)

  -- The request with the name and the key that were parsed, once its signature has been checked.
  abbrev pub checked_request :
      Option Bytes → Friendreq → Client → Step (Unit {0}) × Hs → Verdict (Unit {0}) × Client
  checked_request random freq c (go u, s) =
      if mem notif_size
      then queued (add_notif lib ib mem root_dir random (request freq) c)
      else (error, c)
  checked_request random freq c (exit (pos n), s) = (ok tt, c)
  checked_request random freq c (exit (negsuc n), s) = (error, c)
  checked_request random freq c (crash, s) = (undefined, c)

  -- A message that is refused before the name and the key are read has these pointers of the request
  -- freed without a value.
  abbrev pub opened_request :
      Option Bytes
      → Bytes
      → Hs
      → Client
      → Step ((ℕ × ℕ) × Bytes × Bytes × (Bytes × Bytes × Bytes)) × Hs
      → Verdict (Unit {0}) × Client
  opened_request random p s c (go (lens, keys, work, (uname, pkey, ex)), s') =
      checked_request random (record { uname = uname; pkey = pkey }) c
        (check_sender lib ib rsa ids oaep mem p keys lens.0 lens.1 work pkey s)
  opened_request random p s c (exit code, s') = (undefined, c)
  opened_request random p s c (crash, s') = (undefined, c)

  unfoldable pub parse_friendreq : Option Bytes → Bytes → Hs → Client → Verdict (Unit {0}) × Client
  parse_friendreq random p s c =
      if mem friendreq_size
      then opened_request random p s c (open_message lib ib rsa ids oaep mem c.acc p 0 s)
      else (error, c)

  -- The friend stays in the account's list when `add_friend` fails, where it is freed.
  abbrev pub befriended :
      Option Bytes
      → Friend
      → Client
      → Verdict (Unit {0}) × Account × Files
      → Verdict (Unit {0}) × Client
  befriended random f c (ok u, acc, fs) =
      if mem notif_size
      then queued
          (add_notif lib ib mem root_dir random (response f) (record c { acc = acc; files = fs }))
      else (undefined, record c { acc = acc; files = fs })
  befriended random f c (error, acc, fs) = (undefined, record c { acc = acc; files = fs })
  befriended random f c (undefined, acc, fs) = (undefined, record c { acc = acc; files = fs })

  -- A friend that is not made is a null pointer, to which the keys are written.
  abbrev pub made_friend :
      Option Bytes → Option Bytes → Bytes → Client → Verdict Friend → Verdict (Unit {0}) × Client
  made_friend random_f random_n keys c (ok f) =
      befriended random_n (with_received_keys keys f) c
        (add_friend lib ib mem root_dir random_f (with_received_keys keys f) c.acc c.files)
  made_friend random_f random_n keys c error = (undefined, c)
  made_friend random_f random_n keys c undefined = (undefined, c)

  -- A message that is not parsed leaves the friend's pointer null, and `delete_friend` uses it.
  abbrev pub checked_response :
      Option Bytes
      → Option Bytes
      → Option Bytes
      → Bytes × Bytes × Bytes
      → Client
      → Step (Unit {0}) × Hs
      → Verdict (Unit {0}) × Client
  checked_response drawn random_f random_n (uname, pkey, keys) c (go u, s) =
      made_friend random_f random_n keys c (init_friend ib mem drawn uname pkey (length uname))
  checked_response drawn random_f random_n found c (exit code, s) = (undefined, c)
  checked_response drawn random_f random_n found c (crash, s) = (undefined, c)

  abbrev pub opened_response :
      Option Bytes
      → Option Bytes
      → Option Bytes
      → Bytes
      → Hs
      → Client
      → Step ((ℕ × ℕ) × Bytes × Bytes × (Bytes × Bytes × Bytes)) × Hs
      → Verdict (Unit {0}) × Client
  opened_response drawn random_f random_n p s c (go (lens, keys, work, found), s') =
      checked_response drawn random_f random_n found c
        (check_sender lib ib rsa ids oaep mem p keys lens.0 lens.1 work found.1 s)
  opened_response drawn random_f random_n p s c (exit code, s') = (undefined, c)
  opened_response drawn random_f random_n p s c (crash, s') = (undefined, c)

  -- `drawn` is the answer of `cs_rand` in `init_friend`, and the two others those for the two files.
  unfoldable pub parse_friendreq_response :
      Option Bytes → Option Bytes → Option Bytes → Bytes → Hs → Client → Verdict (Unit {0}) × Client
  parse_friendreq_response drawn random_f random_n p s c =
      opened_response drawn random_f random_n p s c
        (open_message lib ib rsa ids oaep mem c.acc p 0x80 s)
