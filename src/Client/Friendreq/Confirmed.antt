-- ===== src/Client/Friendreq/Confirmed.antt =====
-- A friend request that is sent.
use ibchat.Prelude.{
  ℕ, zero, suc, ◌≡◌, ◌≢◌, Bool, Option, some, Bytes, [], take, drop, bytes_eq→eq, ℤ, pos, negsuc,
  failure, arith,
}
use ibchat.External.{Libibur, Ibcrypt, RsaKeys, IdentityKeys, Oaep}
use ibchat.Crypto.Handshake.Flow.{Hs, go, attempt}
use ibchat.Crypto.Handshake.Passed.{continue-passed, attempt-passed}
use ibchat.Client.Uname.{gen_uid}
use ibchat.Client.Account.{Account}
use ibchat.Client.RsaMessage.{send_rsa_message}
use ibchat.Client.Friendreq.Send.{
  key_size, send_pkey_req, verify_pkey, check_pkey_resp, send_friendreq,
}

module _ (lib : Libibur) (ib : Ibcrypt) (rsa : RsaKeys) (ids : IdentityKeys lib rsa)
    (oaep : Oaep lib rsa) (mem : ℕ → Bool) (root_dir : Bytes) where
  check_pkey_resp-go :
      (uid m key : Bytes) (s end : Hs)
      → check_pkey_resp lib ib rsa ids oaep mem root_dir uid m s ≡ (go key, end)
      → (take 32 (drop 1 m) ≡ uid)
        × (key ≡ take (key_size lib ib rsa ids oaep mem root_dir m) (drop 0x21 m))
  unfolding check_pkey_resp
  check_pkey_resp-go uid m key s end e = ground (arith, bytes_eq→eq (take 32 (drop 1 m)) uid)

  verify_pkey-go :
      (answer : ℤ) (u : Unit {0}) (s end : Hs)
      → verify_pkey lib ib rsa ids oaep mem root_dir answer s ≡ (go u, end)
      → (answer ≢ pos 0) × (answer ≢ negsuc 0)
  verify_pkey-go (negsuc zero) u s end e = absurd (ground arith)
  verify_pkey-go (negsuc (suc n)) u s end e =
      (λ same. absurd (ground arith), λ same. absurd (ground arith))
  verify_pkey-go (pos zero) u s end e = absurd (ground arith)
  verify_pkey-go (pos (suc n)) u s end e =
      (λ same. absurd (ground arith), λ same. absurd (ground arith))

  -- A friend request goes out only under a key that the server gave for the very user who was asked
  -- for, and that the user did not turn down at the prompt, which did not fail: the request is for the
  -- id of the name that was typed, and is made with the key in the server's response.
  pub send_friendreq-confirmed :
      (name resp drawn : Option Bytes) (up up' : Bool) (answer : ℤ) (salt_e salt_s : ℕ)
      (acc : Account) (s end : Hs)
      → send_friendreq lib ib rsa ids oaep mem root_dir name up resp answer drawn salt_e salt_s up'
          acc s
        ≡ (go tt, end)
      → (uname m : Bytes) × (mid : Hs) × (name ≡ some uname)
        × (resp ≡ some m)
        × (take 32 (drop 1 m) ≡ gen_uid ib uname)
        × (answer ≢ pos 0)
        × (answer ≢ negsuc 0)
        × (send_rsa_message lib ib rsa ids oaep mem 1 acc
              (gen_uid ib uname)
              (take (key_size lib ib rsa ids oaep mem root_dir m) (drop 0x21 m))
              []
              drawn
              salt_e
              salt_s
              up'
              mid
            ≡ (go tt, end))
  unfolding send_friendreq
  send_friendreq-confirmed name resp drawn up up' answer salt_e salt_s acc s end e =
      let named = continue-passed (attempt failure name s) _ e in
      let uid = gen_uid ib named.0 in
      let asked =
        continue-passed (send_pkey_req lib ib rsa ids oaep mem root_dir uid up named.1) _ named.3 in
      let told = continue-passed (attempt failure resp asked.1) _ asked.3 in
      let found =
        continue-passed (check_pkey_resp lib ib rsa ids oaep mem root_dir uid told.0 told.1) _
          told.3 in
      let agreed =
        continue-passed (verify_pkey lib ib rsa ids oaep mem root_dir answer found.1) _ found.3 in
      let key = check_pkey_resp-go uid told.0 found.0 told.1 found.1 found.2 in
      let yes = verify_pkey-go answer agreed.0 found.1 agreed.1 agreed.2 in
      (
        named.0,
        told.0,
        agreed.1,
        attempt-passed failure name s named.2,
        attempt-passed failure resp asked.1 told.2,
        key.0,
        yes.0,
        yes.1,
        rw (← key.1) agreed.3,
      )
