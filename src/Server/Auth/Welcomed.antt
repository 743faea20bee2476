-- ===== src/Server/Auth/Welcomed.antt =====
-- The server's side of a log-in in which the client's answer is made as the server expects it.
use ibchat.Prelude.{
  ℕ, ◌+◌, ◌^◌, ◌<◌, ◌==◌, ◌||◌, not, ◌≡◌, true, some, Bytes, [], ◌∷◌, ◌++◌, length, plenty,
}
use ibchat.External.{Libibur, Ibcrypt, RsaKeys}
use ibchat.Crypto.Layer.{Keyset}
use ibchat.Crypto.Layer.Channel.{sealed}
use ibchat.Crypto.Handshake.Flow.{Hs, go}
use ibchat.Server.UserDb.{UserDb}
use ibchat.Server.HandlerTable.{HandlerTable}
use ibchat.Server.Auth.{cliauth, check_user, check_answer, tell_case, auth_client}
use ibchat.Server.Auth.Messages.{
  ArePaired, ArePaired-sym, ArePaired-after_send, after_send, send_plain-sealed, received-sealed,
}

module _ (lib : Libibur) (ib : Ibcrypt) (rsa : RsaKeys) (pubkey_size : ℕ → ℕ) where
  -- The server's state once it has sent the challenge and then the case.
  abbrev pub challenged : Bytes → Hs → Hs
  challenged challenge s = record s {
    keys = after_send s.keys;
    sent = s.sent ++ (sealed lib ib plenty s.keys challenge ∷ []);
  }

  abbrev pub told : ℕ → Hs → Hs
  told ret s = record s {
    keys = after_send s.keys;
    sent = s.sent ++ (sealed lib ib plenty s.keys (cliauth ++ (ret ∷ [])) ∷ []);
  }

  tell_case-known :
      (db : UserDb) (ht : HandlerTable) (uid key : Bytes) (ret : ℕ) (s : Hs)
      → check_user lib ib rsa plenty pubkey_size db ht uid key ≡ some ret
      → not (ret == 2 || ret == 3) ≡ true
      → tell_case lib ib rsa plenty pubkey_size db ht (uid, key) s
        ≡ (go (uid, key, ret), told ret s)
  unfolding tell_case
  tell_case-known db ht uid key ret s known ok =
      rw (known, send_plain-sealed lib ib rsa pubkey_size (cliauth ++ (ret ∷ [])) s, ok)

  pub auth_client-answered :
      (db : UserDb) (ht : HandlerTable) (challenge answer uid key : Bytes) (ret : ℕ) (a : Keyset)
      (s : Hs)
      → ArePaired a s.keys
      → length answer + 40 < 2 ^ 64
      → check_answer lib ib rsa plenty pubkey_size challenge answer (challenged challenge s)
        ≡ (go (uid, key), challenged challenge s)
      → check_user lib ib rsa plenty pubkey_size db ht uid key ≡ some ret
      → not (ret == 2 || ret == 3) ≡ true
      → auth_client lib ib rsa plenty pubkey_size db ht
          (some challenge)
          (some (sealed lib ib plenty a answer))
          s
        ≡ (go (uid, key, ret), told ret (challenged challenge s))
  unfolding auth_client
  auth_client-answered db ht challenge answer uid key ret a s paired small accepted known ok =
      let mid = challenged challenge s in
      let still =
        ArePaired-sym (after_send s.keys) a
          (ArePaired-after_send s.keys a (ArePaired-sym a s.keys paired)) in
      rw
        (
          send_plain-sealed lib ib rsa pubkey_size challenge s,
          received-sealed lib ib rsa pubkey_size a mid answer still small,
          accepted,
        )
        (tell_case-known db ht uid key ret mid known ok)
