-- ===== src/Server/Auth/Proven.antt =====
-- What the server knows of a client that it lets in.
use ibchat.Prelude.{
  ℕ, ◌+◌, ◌%◌, ◌^◌, ◌≡◌, Bool, true, some, Bytes, take, drop, bytes_eq→eq, subst, arith,
}
use ibchat.External.{Libibur, Ibcrypt, RsaKeys}
use ibchat.Crypto.Handshake.Flow.{Hs, go}
use ibchat.Crypto.Handshake.Passed.{continue-passed}
use ibchat.Server.Auth.{
  signed_len, check_keylen, check_challenge, check_siglen, check_signature, check_echo,
  check_answer,
}

module _ (lib : Libibur) (ib : Ibcrypt) (rsa : RsaKeys) (mem : ℕ → Bool) (pubkey_size : ℕ → ℕ) where
  -- The lengths in the client's answer: of its key, of all before its signature, and of that.
  abbrev pub key_len : Bytes → ℕ
  key_len m = pubkey_size (lib.decbe64 (take 8 (drop 0x20 m)))

  abbrev pub body_len : ℕ → ℕ
  body_len k = signed_len lib ib rsa mem pubkey_size k

  abbrev pub sig_len : Bytes → ℕ → ℕ
  sig_len m k = lib.decbe64 (take 8 (drop ((0x40 + k) % 2 ^ 64) m))

  check_keylen-go :
      (m : Bytes) (k : ℕ) (s end : Hs)
      → check_keylen lib ib rsa mem pubkey_size m s ≡ (go k, end)
      → k ≡ key_len m
  unfolding check_keylen
  check_keylen-go m k s end e = ground arith

  check_challenge-go :
      (challenge m : Bytes) (k : ℕ) (u : Unit {0}) (s end : Hs)
      → check_challenge lib ib rsa mem pubkey_size challenge m k s ≡ (go u, end)
      → challenge ≡ take 0x20 (drop ((0x20 + k) % 2 ^ 64) m)
  unfolding check_challenge
  check_challenge-go challenge m k u s end e =
      ground (arith, bytes_eq→eq challenge (take 0x20 (drop ((0x20 + k) % 2 ^ 64) m)))

  check_siglen-go :
      (m : Bytes) (k l : ℕ) (s end : Hs)
      → check_siglen lib ib rsa mem pubkey_size m k s ≡ (go l, end)
      → l ≡ sig_len m k
  unfolding check_siglen
  check_siglen-go m k l s end e = ground arith

  check_signature-go :
      (m uid key : Bytes) (k l : ℕ) (s end : Hs)
      → check_signature lib ib rsa mem pubkey_size m k l s ≡ (go (uid, key), end)
      → (uid ≡ take 0x20 m)
        × (rsa.rsa_wire2pubkey (take k (drop 0x20 m)) ≡ some key)
        × (rsa.rsa_pss_verify key (take l (drop (body_len k) m)) (take (body_len k) m) ≡ some true)
  unfolding check_signature
  check_signature-go m uid key k l s end e = ground arith

  -- What a client has shown whose answer `m`, with a key of `k` bytes, is accepted.
  abbrev pub Proven : ℕ → Bytes → Bytes → Bytes → Bytes → Type 0
  Proven k challenge m uid key =
      (uid ≡ take 0x20 m)
      × (challenge ≡ take 0x20 (drop ((0x20 + k) % 2 ^ 64) m))
      × (rsa.rsa_wire2pubkey (take k (drop 0x20 m)) ≡ some key)
      × (rsa.rsa_pss_verify key (take (sig_len m k) (drop (body_len k) m)) (take (body_len k) m)
          ≡ some true)

  check_echo-go :
      (challenge m uid key : Bytes) (k : ℕ) (s end : Hs)
      → check_echo lib ib rsa mem pubkey_size challenge m k s ≡ (go (uid, key), end)
      → Proven k challenge m uid key
  check_echo-go challenge m uid key k s end e =
      let echo = continue-passed (check_challenge lib ib rsa mem pubkey_size challenge m k s) _ e in
      let lens = continue-passed (check_siglen lib ib rsa mem pubkey_size m k echo.1) _ echo.3 in
      let signed = check_signature-go m uid key k lens.0 lens.1 end lens.3 in
      (
        signed.0,
        check_challenge-go challenge m k echo.0 s echo.1 echo.2,
        signed.1,
        rw (← check_siglen-go m k lens.0 echo.1 lens.1 lens.2) signed.2,
      )

  pub check_answer-Proven :
      (challenge m uid key : Bytes) (s end : Hs)
      → check_answer lib ib rsa mem pubkey_size challenge m s ≡ (go (uid, key), end)
      → Proven (key_len m) challenge m uid key
  unfolding check_answer
  check_answer-Proven challenge m uid key s end e =
      let key_part = continue-passed (check_keylen lib ib rsa mem pubkey_size m s) _ e in
      subst (λ k. Proven k challenge m uid key)
        (check_keylen-go m key_part.0 s key_part.1 key_part.2)
        (check_echo-go challenge m uid key key_part.0 key_part.1 end key_part.3)
