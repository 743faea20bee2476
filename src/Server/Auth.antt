-- ===== src/Server/Auth.antt =====
-- server/client_auth.c: the server sends a challenge, the client answers with its id, its public key,
-- the challenge and a signature of these, and is told whether it is known; a new user registers.
pub mod Proven
pub mod Accepts
pub mod Messages
pub mod Welcomed
mod Admitted
mod LogIn
mod Tests
use ibchat.Prelude.{
  ℕ, zero, suc, ◌+◌, ◌-◌, ◌%◌, ◌^◌, ◌==◌, ◌&&◌, ◌||◌, not, Bool, true, false, Option, none, some,
  Bytes, List, [], ◌∷◌, ◌++◌, length, take, drop, leb, ltb, bytes_eq, if◌then◌else◌, ℤ, pos, negsuc,
  success, failure,
}
use ibchat.External.{Libibur, Ibcrypt, Rsa, RsaKeys}
use ibchat.Files.{Files}
use ibchat.Inet.Connection.{Message}
use ibchat.Crypto.Layer.{Keyset, send_message, recv_message}
use ibchat.Crypto.Handshake.Flow.{
  Run, Hs, Step, go, exit, crash, pure, ◌>>=◌, ◌>>◌, check, attempt, within,
}
use ibchat.Server.Undelivered.{User}
use ibchat.Server.UserDb.{UserDb, user_db_get_nolock, user_db_add}
use ibchat.Server.NewUser.{user_init}
use ibchat.Server.HandlerTable.{HandlerTable, get_handler}

-- "cliauth" and "register"
abbrev pub cliauth : Bytes
cliauth = 99 ∷ 108 ∷ 105 ∷ 97 ∷ 117 ∷ 116 ∷ 104 ∷ []

abbrev pub register : Bytes
register = 114 ∷ 101 ∷ 103 ∷ 105 ∷ 115 ∷ 116 ∷ 101 ∷ 114 ∷ []

abbrev pub sent_or_failed : Hs → ℤ × Keyset × List Message → Step (Unit {0}) × Hs
sent_or_failed s (pos zero, keys, queue) = (go tt, record s { keys = keys; sent = queue })
sent_or_failed s (pos (suc n), keys, queue) = (exit failure, record s { keys = keys; sent = queue })
sent_or_failed s (negsuc n, keys, queue) = (exit failure, record s { keys = keys; sent = queue })

-- `mem n` is the allocator's answer to a request for `n` bytes, and `pubkey_size` the function
-- rsa_pubkey_bufsize of the bits of a key.
module _ (lib : Libibur) (ib : Ibcrypt) (rsa : RsaKeys) (mem : ℕ → Bool) (pubkey_size : ℕ → ℕ) where
  open lib use {decbe64}

  abbrev pub send_plain : Bytes → Run (Unit {0})
  send_plain ptext s = sent_or_failed s (send_message lib ib mem s.keys ptext s.sent)

  abbrev pub opened : Keyset → Option Message → Option Bytes
  opened keys none = none
  opened keys (some m) = recv_message lib ib mem keys m

  abbrev pub received : Option Message → Run Bytes
  received m s = attempt failure (opened s.keys m) s

  -- 0 for a user who may log in, 1 for a new one, 2 for one who is logged in, 3 for another key;
  -- `none` is undefined behaviour of the user table.
  abbrev pub known : Bytes → Bytes → HandlerTable → Option User → ℕ
  known uid pkey ht none = 1
  known uid pkey ht (some u) =
      if bytes_eq pkey u.pkey then elim (get_handler lib ib ht uid) [ none ↦ 0 | some t ↦ 2 ] else 3

  unfoldable pub check_user : UserDb → HandlerTable → Bytes → Bytes → Option ℕ
  check_user db ht uid pkey = elim (user_db_get_nolock lib ib db uid) [
    | none ↦ none
    | some found ↦ some (known uid pkey ht found)
  ]

  abbrev pub valid : Option Bool → Bool
  valid none = false
  valid (some b) = b

  abbrev pub defined : {A : Type 0} → Option A → Run A
  defined none s = (crash, s)
  defined (some a) s = (go a, s)

  -- The length of the answer up to the signature.
  abbrev pub signed_len : ℕ → ℕ
  signed_len keylen = 0x20 + keylen + 0x20 + 0x08

  -- The length of the key in the client's answer.
  unfoldable pub check_keylen : Bytes → Run ℕ
  check_keylen m = do
    within (leb 0x28 (length m))
    let keylen = pubkey_size (decbe64 (take 8 (drop 0x20 m)))
    check failure (ltb (signed_len keylen % 2 ^ 64) (length m))
    pure keylen

  unfoldable pub check_challenge : Bytes → Bytes → ℕ → Run (Unit {0})
  check_challenge challenge m keylen = do
    within (leb ((0x20 + keylen) % 2 ^ 64 + 0x20) (length m))
    check failure (bytes_eq challenge (take 0x20 (drop ((0x20 + keylen) % 2 ^ 64) m)))
    pure tt

  unfoldable pub check_siglen : Bytes → ℕ → Run ℕ
  check_siglen m keylen = do
    within (leb ((0x40 + keylen) % 2 ^ 64 + 8) (length m))
    let siglen = decbe64 (take 8 (drop ((0x40 + keylen) % 2 ^ 64) m))
    check failure ((signed_len keylen + siglen) % 2 ^ 64 == length m)
    pure siglen

  -- The key and the signature in the answer; the result has the id and the key.
  unfoldable pub check_signature : Bytes → ℕ → ℕ → Run (Bytes × Bytes)
  check_signature m keylen siglen = do
    within (leb (0x20 + keylen) (length m))
    pb_key ← attempt failure (rsa.rsa_wire2pubkey (take keylen (drop 0x20 m)))
    within (leb (signed_len keylen + siglen) (length m))
    check failure (
        valid (
          rsa.rsa_pss_verify pb_key (take siglen (drop (signed_len keylen) m))
            (take (signed_len keylen) m)))
    pure (take 0x20 m, pb_key)

  abbrev pub check_echo : Bytes → Bytes → ℕ → Run (Bytes × Bytes)
  check_echo challenge m keylen = do
    check_challenge challenge m keylen
    siglen ← check_siglen m keylen
    check_signature m keylen siglen

  -- The client's answer to the challenge; the result has the id and the key.
  unfoldable pub check_answer : Bytes → Bytes → Run (Bytes × Bytes)
  check_answer challenge m = check_keylen m >>= check_echo challenge m

  -- The message that tells the client its case; only a user who may log in, or a new one, goes on.
  unfoldable pub tell_case : UserDb → HandlerTable → Bytes × Bytes → Run (Bytes × Bytes × ℕ)
  tell_case db ht (uid, pkey) = do
    ret ← defined (check_user db ht uid pkey)
    send_plain (cliauth ++ (ret ∷ []))
    check failure (not (ret == 2 || ret == 3))
    pure (uid, pkey, ret)

  -- From the challenge that `cs_rand` gives to the case. The result has the id, the key, and the case.
  unfoldable pub auth_client :
      UserDb → HandlerTable → Option Bytes → Option Message → Run (Bytes × Bytes × ℕ)
  auth_client db ht cs_rand response = do
    challenge ← attempt failure cs_rand
    send_plain challenge
    m ← received response
    client ← check_answer challenge m
    tell_case db ht client

  -- The message that `prompt_user_register` waits for.
  unfoldable pub prompt_user_register : Option Message → Run (Unit {0})
  prompt_user_register answer = do
    resp ← received answer
    check (pos 1) (length resp == 8 && bytes_eq resp register)
    pure tt

  -- Registration with the arguments of `user_init` and `user_db_add`; `none` is undefined behaviour.
  module _ (server_rsa : Rsa) (salt1 salt2 : ℕ) (user_dir undel_dir : Bytes) (random : Option Bytes)
      (copied ent room : Bool) (blank : User) where
    abbrev pub added : UserDb → ℤ × User × Files → Option (ℤ × UserDb × Files)
    added db (pos zero, u, fs) =
        user_db_add lib ib server_rsa mem salt1 salt2 user_dir ent room u db fs
    added db (pos (suc n), u, fs) = some (failure, db, fs)
    added db (negsuc n, u, fs) = some (failure, db, fs)

    abbrev pub after_add :
        Bytes → Hs → Option (ℤ × UserDb × Files) → Option ((Step Bytes × Hs) × UserDb × Files)
    after_add uid s none = none
    after_add uid s (some (pos zero, db, fs)) = some ((go uid, s), db, fs)
    after_add uid s (some (pos (suc n), db, fs)) = some ((exit failure, s), db, fs)
    after_add uid s (some (negsuc n, db, fs)) = some ((exit failure, s), db, fs)

    unfoldable pub user_register :
        Bytes
        → Bytes
        → UserDb
        → Files
        → Step (Unit {0}) × Hs
        → Option ((Step Bytes × Hs) × UserDb × Files)
    user_register uid pkey db fs (go u, s) =
        after_add uid s (added db (user_init lib ib mem undel_dir random copied uid pkey blank fs))
    user_register uid pkey db fs (exit c, s) = some ((exit failure, s), db, fs)
    user_register uid pkey db fs (crash, s) = none

    abbrev pub admitted :
        UserDb
        → Files
        → Option Message
        → Step (Bytes × Bytes × ℕ) × Hs
        → Option ((Step Bytes × Hs) × UserDb × Files)
    admitted db fs answer (go (uid, pkey, zero), s) = some ((go uid, s), db, fs)
    admitted db fs answer (go (uid, pkey, suc n), s) =
        user_register uid pkey db fs (prompt_user_register answer s)
    admitted db fs answer (exit c, s) = some ((exit failure, s), db, fs)
    admitted db fs answer (crash, s) = none

    -- A return of 0 with the id, or of -1.
    unfoldable pub auth_user :
        UserDb
        → HandlerTable
        → Files
        → Option Bytes
        → Option Message
        → Option Message
        → Hs
        → Option ((Step Bytes × Hs) × UserDb × Files)
    auth_user db ht fs cs_rand response answer s =
        admitted db fs answer (auth_client db ht cs_rand response s)
