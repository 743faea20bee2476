-- ===== src/Server/Auth/Admitted.antt =====
-- From the challenge to the case of the client, and to the return of the log-in.
use ibchat.Prelude.{
  ℕ, ◌==◌, ◌||◌, not, ◌≡◌, refl, sym, ap, subst, Bool, true, Option, none, some, Bytes, [], ◌∷◌,
  ◌++◌, bytes_eq→eq, failure, arith, inl, inr, ◌⊎◌,
}
use ibchat.External.{Libibur, Ibcrypt, RsaKeys}
use ibchat.Inet.Connection.{Message}
use ibchat.Crypto.Handshake.Flow.{Hs, go, attempt, check}
use ibchat.Crypto.Handshake.Passed.{continue-passed, check-passed, attempt-passed, pure-passed}
use ibchat.Server.Undelivered.{User}
use ibchat.Server.UserDb.{UserDb, user_db_get_nolock}
use ibchat.Server.HandlerTable.{HandlerTable, get_handler}
use ibchat.Server.Auth.{
  received, defined, known, check_user, check_answer, cliauth, tell_case, auth_client, send_plain,
}
use ibchat.Server.Auth.Proven.{Proven, key_len, check_answer-Proven}

module _ (lib : Libibur) (ib : Ibcrypt) (rsa : RsaKeys) (mem : ℕ → Bool) (pubkey_size : ℕ → ℕ) where
  defined-go :
      {A : Type 0} (o : Option A) (a : A) (s end : Hs)
      → defined lib ib rsa mem pubkey_size o s ≡ (go a, end)
      → o ≡ some a
  defined-go none a s end e = absurd (ground arith)
  defined-go (some b) a s end e = ground arith

  -- What the user table and the table of clients say of one that goes on: a user with this key who is
  -- not logged in, or, for a new one, none.
  abbrev pub Welcome : UserDb → HandlerTable → Bytes → Bytes → ℕ → Type 0
  Welcome db ht uid key ret =
      ((ret ≡ 0)
        × ((u : User) × (user_db_get_nolock lib ib db uid ≡ some (some u)) × (u.pkey ≡ key))
        × (get_handler lib ib ht uid ≡ none))
      ⊎ ((ret ≡ 1) × (user_db_get_nolock lib ib db uid ≡ some none))

  known-Welcome :
      (db : UserDb) (ht : HandlerTable) (uid key : Bytes) (ret : ℕ) (found : Option User)
      → user_db_get_nolock lib ib db uid ≡ some found
      → known lib ib rsa mem pubkey_size uid key ht found ≡ ret
      → not (ret == 2 || ret == 3) ≡ true
      → Welcome db ht uid key ret
  known-Welcome db ht uid key ret none got e ok = inr (ground arith, got)
  known-Welcome db ht uid key ret (some u) got e ok =
      inl (ground arith, (u, got, sym (bytes_eq→eq key u.pkey (ground arith))), ground arith)

  check_user-known :
      (db : UserDb) (ht : HandlerTable) (uid key : Bytes) (ret : ℕ)
      → check_user lib ib rsa mem pubkey_size db ht uid key ≡ some ret
      → (found : Option User) × (user_db_get_nolock lib ib db uid ≡ some found)
        × (known lib ib rsa mem pubkey_size uid key ht found ≡ ret)
  unfolding check_user
  check_user-known db ht uid key ret e = by_get (user_db_get_nolock lib ib db uid) refl
    where
      by_get :
          (o : Option (Option User))
          → user_db_get_nolock lib ib db uid ≡ o
          → (found : Option User) × (user_db_get_nolock lib ib db uid ≡ some found)
            × (known lib ib rsa mem pubkey_size uid key ht found ≡ ret)
      by_get none got = absurd (ground (arith, rw (check_user, got) at e))
      by_get (some found) got = (found, got, ground (arith, rw (check_user, got) at e))

  tell_case-Welcome :
      (db : UserDb) (ht : HandlerTable) (i k uid key : Bytes) (ret : ℕ) (s end : Hs)
      → tell_case lib ib rsa mem pubkey_size db ht (i, k) s ≡ (go (uid, key, ret), end)
      → (◌≡◌ {A = Bytes × Bytes} (i, k) (uid, key)) × Welcome db ht uid key ret
  unfolding tell_case
  tell_case-Welcome db ht i k uid key ret s end e =
      let asked = check_user lib ib rsa mem pubkey_size db ht i k in
      let case = continue-passed (defined lib ib rsa mem pubkey_size asked s) _ e in
      let told =
        continue-passed (send_plain lib ib rsa mem pubkey_size (cliauth ++ (case.0 ∷ [])) case.1) _
          case.3 in
      let passed = not (case.0 == 2 || case.0 == 3) in
      let left = continue-passed (check failure passed told.1) _ told.3 in
      let same = pure-passed {A = Bytes × Bytes × ℕ} (i, k, case.0) left.1 left.3 in
      let found = check_user-known db ht i k case.0 (defined-go asked case.0 s case.1 case.2) in
      (
        ap (λ client. (client.0, client.1)) same,
        subst (λ client. Welcome db ht client.0 client.1 client.2) same
            (known-Welcome db ht i k case.0 found.0 found.1 found.2
              (check-passed failure passed told.1 left.2)),
      )

  -- A client that the server does not turn away, whatever it sent, has answered the server's own
  -- challenge with a signature that the key in its answer verifies, and under the id in its answer
  -- either the user table has that very key and no client is logged in (case 0), or the table has no
  -- user (case 1).
  pub auth_client-Welcome :
      (db : UserDb) (ht : HandlerTable) (cs_rand : Option Bytes) (response : Option Message)
      (uid key : Bytes) (ret : ℕ) (s end : Hs)
      → auth_client lib ib rsa mem pubkey_size db ht cs_rand response s ≡ (go (uid, key, ret), end)
      → ((challenge m : Bytes) × (cs_rand ≡ some challenge)
          × Proven lib ib rsa mem pubkey_size
              (key_len lib ib rsa mem pubkey_size m)
              challenge
              m
              uid
              key)
        × Welcome db ht uid key ret
  unfolding auth_client
  auth_client-Welcome db ht cs_rand response uid key ret s end e =
      let c = continue-passed (attempt failure cs_rand s) _ e in
      let sent = continue-passed (send_plain lib ib rsa mem pubkey_size c.0 c.1) _ c.3 in
      let got = continue-passed (received lib ib rsa mem pubkey_size response sent.1) _ sent.3 in
      let answer =
        continue-passed (check_answer lib ib rsa mem pubkey_size c.0 got.0 got.1) _ got.3 in
      let case =
        tell_case-Welcome db ht (answer.0).0 (answer.0).1 uid key ret answer.1 end answer.3 in
      (
        (
          c.0,
          got.0,
          attempt-passed failure cs_rand s c.2,
          subst
              (λ client.
                Proven lib ib rsa mem pubkey_size (key_len lib ib rsa mem pubkey_size got.0) c.0
                  got.0 client.0 client.1)
              case.0
              (check_answer-Proven lib ib rsa mem pubkey_size c.0 got.0 (answer.0).0 (answer.0).1
                got.1 answer.1 answer.2),
        ),
        case.1,
      )
