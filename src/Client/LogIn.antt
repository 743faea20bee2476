-- ===== src/Client/LogIn.antt =====
-- client/login_server.c: the answer to the server's challenge, the server's verdict, the check of the
-- server's key, and the log-in as a whole; with client/connect_server.c.
pub mod Accepted
pub mod Entered
mod Pinned
mod Unset
mod Tests
use ibchat.Prelude.{
  ℕ, zero, suc, ◌+◌, ◌/◌, ◌%◌, ◌^◌, ◌==◌, ◌&&◌, ◌||◌, Bool, true, false, Option, none, some, Bytes,
  List, [], ◌∷◌, ◌++◌, length, take, get_or, leb, ltb, bytes_eq, if◌then◌else◌, ℤ, pos, negsuc,
  success, failure,
}
use ibchat.External.{Libibur, Ibcrypt, RsaKeys, IdentityKeys}
use ibchat.Inet.Connection.{Message}
use ibchat.Crypto.Layer.{Keyset}
use ibchat.Crypto.Handshake.Flow.{
  Run, Hs, Step, go, exit, crash, pure, ◌>>=◌, ◌>>◌, check, attempt, within,
}
use ibchat.Server.Auth.{send_plain, received, cliauth, register}
use ibchat.Client.Uname.{gen_uid}
use ibchat.Client.Account.{Account}

module _ (lib : Libibur) (ib : Ibcrypt) (rsa : RsaKeys) (ids : IdentityKeys lib rsa)
    (mem : ℕ → Bool) where
  open lib use {encbe64, decbe64}
  open ids use {rsa_pubkey_bufsize, rsa_wire_prikey2pubkey, rsa_wire2prikey}

  abbrev pub send_text : Bytes → Run (Unit {0})
  send_text = send_plain lib ib rsa mem rsa_pubkey_bufsize

  abbrev pub receive : Option Message → Run Bytes
  receive = received lib ib rsa mem rsa_pubkey_bufsize

  abbrev pub key_bits : Account → ℕ
  key_bits acc = decbe64 (take 8 acc.key_bin)

  -- (bits + 7) / 8
  abbrev pub siglen_of : Account → ℕ
  siglen_of acc = (key_bits acc + 7) % 2 ^ 64 / 8

  abbrev pub answer_size : Account → ℕ
  answer_size acc = 0x20 + rsa_pubkey_bufsize (key_bits acc) + 0x20 + 0x08 + siglen_of acc

  -- The answer up to its signature.
  abbrev pub signed_text : Account → Bytes → Bytes → Bytes
  signed_text acc pkey challenge =
      gen_uid ib acc.uname ++ (pkey ++ (challenge ++ encbe64 (siglen_of acc)))

  -- The answer's memory is used without a test of `malloc`, and is too short if its size wraps.
  unfoldable pub send_login_message : Account → Bytes → ℕ → Option Message → Run (Unit {0})
  send_login_message acc rkey salt challenge_m = do
    challenge ← receive challenge_m
    check failure (length challenge == 0x20)
    within (leb 8 (length acc.key_bin))
    within (ltb (answer_size acc) (2 ^ 64) && mem (answer_size acc))
    pkey ← attempt failure (rsa_wire_prikey2pubkey acc.key_bin)
    sig ← attempt failure (rsa.rsa_pss_sign salt rkey (signed_text acc pkey challenge))
    send_text (signed_text acc pkey challenge ++ sig)

  unfoldable pub get_server_authresponse : Option Message → Run ℕ
  get_server_authresponse answer = do
    m ← receive answer
    check failure (length m == 8 && bytes_eq (take 7 m) cliauth && leb (get_or m 7 0) 4)
    pure (get_or m 7 0)

  -- `sure` is the answer of `yn_prompt`, which is 1, 0 or -1. The result `none` is the hash of bytes
  -- that were never written.
  abbrev pub trusted : Bool → ℤ → Bytes → Account → ℤ × Account
  trusted firsttime (pos (suc zero)) hash acc =
      (if firsttime then success else pos 1, record acc { sfing = hash })
  trusted firsttime (pos zero) hash acc = (failure, acc)
  trusted firsttime (pos (suc (suc n))) hash acc = (failure, acc)
  trusted firsttime (negsuc n) hash acc = (failure, acc)

  abbrev pub compared : Account → Bytes → Bool → ℤ → Bool → ℤ × Account
  compared acc wire firsttime sure same =
      if same then (success, acc) else trusted firsttime sure (ib.sha256 wire) acc

  unfoldable pub prompt_verify_skey : Account → Bytes → Bool → ℤ → Option (ℤ × Account)
  prompt_verify_skey acc key firsttime sure =
      if mem (rsa.rsa_pubkey_bufsize key)
      then elim (rsa.rsa_pubkey2wire key) [
        | none ↦ none
        | some wire ↦ some (compared acc wire firsttime sure (bytes_eq (ib.sha256 wire) acc.sfing))
      ]
      else some (failure, acc)

  -- The tests of the return of `client_handshake` and of `res`: only -1 and 1 are failures.
  abbrev pub by_return : ℤ → Option Bytes → Run (Option Bytes)
  by_return (negsuc zero) key s = (exit failure, s)
  by_return (pos (suc zero)) key s = (exit (pos 1), s)
  by_return (pos zero) key s = (if s.res == 0 then go key else exit (pos 2), s)
  by_return (pos (suc (suc n))) key s = (if s.res == 0 then go key else exit (pos 2), s)
  by_return (negsuc (suc n)) key s = (if s.res == 0 then go key else exit (pos 2), s)

  -- The return of 0 is `go`, with the key that the handshake wrote; it is `none` where an early
  -- return of the handshake left the key unset. `sock` is whether `client_connect` gives a socket.
  abbrev pub connect_server : Bool → Run (ℤ × Bytes) → Run (Option Bytes)
  connect_server false shake s = (exit (pos 1), s)
  connect_server true shake s = connected (shake s)
    where
      connected : Step (ℤ × Bytes) × Hs → Step (Option Bytes) × Hs
      connected (go (ret, key), s') = by_return ret (some key) s'
      connected (exit c, s') = by_return c none s'
      connected (crash, s') = (crash, s')

  -- Case 1 of `login_account` asks the user, by `yn_prompt`; case 0 has nothing more to do.
  abbrev pub register_if : ℕ → ℤ → Run (Unit {0})
  register_if zero answer = pure tt
  register_if (suc n) (pos (suc zero)) = send_text register
  register_if (suc n) (pos zero) = check failure false
  register_if (suc n) (pos (suc (suc k))) = check failure false
  register_if (suc n) (negsuc k) = check failure false

  -- From the answer to the challenge on; the messages are those that arrive.
  unfoldable pub login_session :
      Account → Bytes → ℕ → Option Message → Option Message → ℤ → Run (Unit {0})
  login_session acc rkey salt challenge_m answer again = do
    send_login_message acc rkey salt challenge_m
    servresp ← get_server_authresponse answer
    check failure (servresp == 0 || servresp == 1)
    register_if servresp again

  -- Of `create_account`: the server must say that the user is new.
  unfoldable pub create_session :
      Account → Bytes → ℕ → Option Message → Option Message → Run (Unit {0})
  create_session acc rkey salt challenge_m answer = do
    send_login_message acc rkey salt challenge_m
    servresp ← get_server_authresponse answer
    check failure (servresp == 1)
    send_text register

  -- Every failure after the connection is a return of -1.
  abbrev pub or_failed : Step (Unit {0}) × Hs → Step (Unit {0}) × Hs
  or_failed (go u, s) = (go u, s)
  or_failed (exit c, s) = (exit failure, s)
  or_failed (crash, s) = (crash, s)

  -- What follows the connection, with the result of the check of the server's key: the return, the
  -- account and `userfile_dirty`.
  abbrev pub after_verify :
      (Account → Run (Unit {0}))
      → Hs
      → Account
      → Bool
      → Option (ℤ × Account)
      → (Step (Unit {0}) × Hs) × Account × Bool
  after_verify session s acc dirty none = ((crash, s), acc, dirty)
  after_verify session s acc dirty (some (pos zero, acc')) =
      (or_failed (session acc' s), acc', dirty)
  after_verify session s acc dirty (some (pos (suc n), acc')) =
      (or_failed (session acc' s), acc', true)
  after_verify session s acc dirty (some (negsuc n, acc')) = ((exit failure, s), acc', dirty)

  -- The check reads the server's key: undefined behaviour where it was not set.
  abbrev pub after_connect :
      (Account → Run (Unit {0}))
      → ℤ
      → Account
      → Bool
      → Step (Option Bytes) × Hs
      → (Step (Unit {0}) × Hs) × Account × Bool
  after_connect session sure acc dirty (go none, s) = ((crash, s), acc, dirty)
  after_connect session sure acc dirty (go (some key), s) =
      after_verify session s acc dirty (prompt_verify_skey acc key false sure)
  after_connect session sure acc dirty (exit c, s) = ((exit failure, s), acc, dirty)
  after_connect session sure acc dirty (crash, s) = ((crash, s), acc, dirty)

  -- The prompts answer `sure` and `again`.
  unfoldable pub login_account :
      Bool
      → Run (ℤ × Bytes)
      → ℤ
      → ℕ
      → Option Message
      → Option Message
      → ℤ
      → Account
      → Bool
      → Hs
      → (Step (Unit {0}) × Hs) × Account × Bool
  login_account sock shake sure salt challenge_m answer again acc dirty s =
      elim (rsa_wire2prikey acc.key_bin) [
        | none ↦ ((exit (pos 1), s), acc, dirty)
        | some rkey ↦
            after_connect (λ acc'. login_session acc' rkey salt challenge_m answer again) sure acc
              dirty (connect_server sock shake s)
      ]
