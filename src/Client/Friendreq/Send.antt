-- ===== src/Client/Friendreq/Send.antt =====
-- client/friendreq.c: what a client sends, a friend request or the response to one.
use ibchat.Prelude.{
  ℕ, zero, suc, ◌+◌, ◌==◌, not, Bool, false, Option, Bytes, [], ◌∷◌, length, take, drop, get_or,
  leb, bytes_eq, ℤ, pos, negsuc, success, failure,
}
use ibchat.External.{Libibur, Ibcrypt, RsaKeys, IdentityKeys, Oaep}
use ibchat.Files.{Files}
use ibchat.Codec.{Verdict, ok, error, undefined}
use ibchat.Crypto.Handshake.Flow.{
  Run, Hs, Step, go, exit, crash, pure, ◌>>=◌, ◌>>◌, check, attempt, within,
}
use ibchat.Server.Auth.{send_plain}
use ibchat.Client.Uname.{gen_uid}
use ibchat.Client.Account.{Account}
use ibchat.Client.Friend.{Friend}
use ibchat.Client.FriendFile.{init_friend, add_friend}
use ibchat.Client.Notif.{Friendreq}
use ibchat.Client.NotifFile.{Client}
use ibchat.Client.RsaMessage.{send_rsa_message}
use ibchat.Client.Friendreq.{with_sent_keys}

module _ (lib : Libibur) (ib : Ibcrypt) (rsa : RsaKeys) (ids : IdentityKeys lib rsa)
    (oaep : Oaep lib rsa) (mem : ℕ → Bool) (root_dir : Bytes) where
  open lib use {decbe64}

  -- The network lock is given to each call unless the mode is -1: `up` says whether it is.
  unfoldable pub friendreq_send_resp_message :
      Option Bytes → Option Bytes → ℕ → ℕ → Bool → Friendreq → Account → Run Bytes
  friendreq_send_resp_message cs_keys drawn salt_e salt_s up freq acc = do
    keys ← attempt (pos 1) cs_keys
    send_rsa_message lib ib rsa ids oaep mem 2 acc (gen_uid ib freq.uname) freq.pkey keys drawn
        salt_e salt_s up
    pure keys

  abbrev pub friend_added : Client → Verdict (Unit {0}) × Account × Files → Verdict ℤ × Client
  friend_added c (ok u, acc, fs) = (ok success, record c { acc = acc; files = fs })
  friend_added c (error, acc, fs) = (undefined, record c { acc = acc; files = fs })
  friend_added c (undefined, acc, fs) = (undefined, record c { acc = acc; files = fs })

  -- The friend is added once the response is sent; a response that is not sent is a return of 1.
  abbrev pub responded :
      Option Bytes → Friend → Client → Step Bytes × Hs → (Verdict ℤ × Client) × Hs
  responded random_f f c (go keys, s) = (
    friend_added c (add_friend lib ib mem root_dir random_f (with_sent_keys keys f) c.acc c.files),
    s,
  )
  responded random_f f c (exit code, s) = ((ok (pos 1), c), s)
  responded random_f f c (crash, s) = ((undefined, c), s)

  abbrev pub respond_to :
      Option Bytes
      → Option Bytes
      → ℕ
      → ℕ
      → Bool
      → Option Bytes
      → Friendreq
      → Client
      → Hs
      → Verdict Friend
      → (Verdict ℤ × Client) × Hs
  respond_to cs_keys drawn salt_e salt_s up random_f freq c s (ok f) =
      responded random_f f c
        (friendreq_send_resp_message cs_keys drawn salt_e salt_s up freq c.acc s)
  respond_to cs_keys drawn salt_e salt_s up random_f freq c s error = ((ok (pos 1), c), s)
  respond_to cs_keys drawn salt_e salt_s up random_f freq c s undefined = ((undefined, c), s)

  unfoldable pub friendreq_send_response :
      Option Bytes
      → Option Bytes
      → Option Bytes
      → ℕ
      → ℕ
      → Bool
      → Option Bytes
      → Friendreq
      → Client
      → Hs
      → (Verdict ℤ × Client) × Hs
  friendreq_send_response c_file cs_keys drawn salt_e salt_s up random_f freq c s =
      respond_to cs_keys drawn salt_e salt_s up random_f freq c s
        (init_friend ib mem c_file freq.uname freq.pkey (length freq.uname))

  -- `answer` is that of `yn_prompt`; a failed prompt, -1, goes on as a yes does.
  unfoldable pub friendreq_response :
      ℤ
      → Option Bytes
      → Option Bytes
      → Option Bytes
      → ℕ
      → ℕ
      → Bool
      → Option Bytes
      → Friendreq
      → Client
      → Hs
      → (Verdict ℤ × Client) × Hs
  friendreq_response (pos zero) c_file cs_keys drawn salt_e salt_s up random_f freq c s =
      ((ok success, c), s)
  friendreq_response (pos (suc n)) c_file cs_keys drawn salt_e salt_s up random_f freq c s =
      friendreq_send_response c_file cs_keys drawn salt_e salt_s up random_f freq c s
  friendreq_response (negsuc n) c_file cs_keys drawn salt_e salt_s up random_f freq c s =
      friendreq_send_response c_file cs_keys drawn salt_e salt_s up random_f freq c s

  unfoldable pub send_pkey_req : Bytes → Bool → Run (Unit {0})
  send_pkey_req target up = do
    check failure up
    check failure (mem 0x21)
    send_plain lib ib rsa mem ids.rsa_pubkey_bufsize (1 ∷ target)

  -- The answer of `yn_prompt`: -1 is a failure, 0 a return of 1 with which `send_friendreq` ends.
  abbrev pub verify_pkey : ℤ → Run (Unit {0})
  verify_pkey (negsuc n) = check failure (not (leb n 0))
  verify_pkey (pos zero) = check success false
  verify_pkey (pos (suc n)) = pure tt

  -- The size of the key in the server's response, and the key.
  abbrev pub key_size : Bytes → ℕ
  key_size m = ids.rsa_pubkey_bufsize (decbe64 (take 8 (drop 0x21 m)))

  -- What the server has to say of a user's key. A key that is not as long as the rest of the message
  -- is logged as an error and used.
  unfoldable pub check_pkey_resp : Bytes → Bytes → Run Bytes
  check_pkey_resp uid m = do
    check failure (leb 0x21 (length m))
    check success (not (get_or m 0 0 == 0xff))
    check failure (leb 0x29 (length m))
    check failure (bytes_eq (take 32 (drop 1 m)) uid)
    within (leb (0x21 + key_size m) (length m))
    pure (take (key_size m) (drop 0x21 m))

  -- A run to the end has sent the request; a return of 0 before it has not. `resp` is the text of the
  -- message that the background thread stores, if the mode does not become -1 first.
  unfoldable pub send_friendreq :
      Option Bytes
      → Bool
      → Option Bytes
      → ℤ
      → Option Bytes
      → ℕ
      → ℕ
      → Bool
      → Account
      → Run (Unit {0})
  send_friendreq name up resp answer drawn salt_e salt_s up' acc = do
    uname ← attempt failure name
    send_pkey_req (gen_uid ib uname) up
    m ← attempt failure resp
    pkey ← check_pkey_resp (gen_uid ib uname) m
    verify_pkey answer
    send_rsa_message lib ib rsa ids oaep mem 1 acc (gen_uid ib uname) pkey [] drawn salt_e salt_s
        up'
