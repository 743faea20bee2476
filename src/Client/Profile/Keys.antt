-- ===== src/Client/Profile/Keys.antt =====
-- The keys of a profile and the password that they come from.
use ibchat.Prelude.{
  ℕ, ◌^◌, ◌≡◌, ◌≢◌, refl, ap, ◌∙◌, Bool, Bool-cases, inl, inr, true, false, none, some, Bytes, List,
  [], ◌++◌, take, drop, length, bytes_eq, bytes_eq_refl, bytes_eq-ne, arith, take-append_eq,
  drop-append_eq, append-nil, length-take,
}
use ibchat.External.{Libibur, Ibcrypt, Scrypt}
use ibchat.Client.Account.{Account}
use ibchat.Client.DataFile.{keys_of}
use ibchat.Client.Profile.{Profile, scrypt_out, with_keys, key_expand, uf_key, uf_format}

-- The profile has the keys that its password gives with its salt.
pub record IsKeyed (sc : Scrypt) (p : Profile) : Type 0 where
  pub out : Bytes
  pub derived : scrypt_out sc p.pass p.salt ≡ some out
  pub salted : length p.salt ≡ 32
  pub check : p.pw_check ≡ take 32 out
  pub symm : p.symm_key ≡ take 32 (drop 32 out)
  pub hmac : p.hmac_key ≡ take 32 (drop 64 out)

module _ (sc : Scrypt) where
  pub length-pw_check : (p : Profile) → IsKeyed sc p → length p.pw_check ≡ 32
  length-pw_check p k = omega (
    arith,
    ap (λ (b : Bytes). length b) k.check,
    length-take 32 k.out,
    sc.length-scrypt p.pass p.salt (2 ^ 16) 8 1 96 k.out k.derived,
  )

  -- The salt and the check of the password, where the format adds them to the prefix.
  abbrev pub extra_of : Profile → Bytes
  extra_of p = p.salt ++ p.pw_check

  -- What a profile becomes that takes its salt from a file and finds its keys.
  abbrev pub opened : Profile → Profile → Profile
  opened p q = record q {
    salt = p.salt;
    pw_check = p.pw_check;
    symm_key = p.symm_key;
    hmac_key = p.hmac_key;
    expanded = true;
  }

  module _ (p : Profile) (k : IsKeyed sc p) where
    salt_field : take 0x20 (extra_of p) ≡ p.salt
    salt_field = take-append_eq 0x20 p.salt p.pw_check k.salted

    check_field : take 0x20 (drop 0x20 (extra_of p)) ≡ p.pw_check
    check_field =
        let whole : take 0x20 (p.pw_check ++ []) ≡ p.pw_check =
          take-append_eq 0x20 p.pw_check [] (length-pw_check p k) in
        rw (drop-append_eq 0x20 p.salt p.pw_check k.salted) (rw (append-nil p.pw_check) at whole)

    key_expand-right :
        (q : Profile)
        → q.pass ≡ p.pass
        → key_expand sc (record q { salt = p.salt; pw_check = p.pw_check }) ≡ (true, opened p q)
    unfolding key_expand
    key_expand-right q same =
        let e : bytes_eq (take 32 k.out) (take 32 k.out) ≡ true = bytes_eq_refl (take 32 k.out) in
        rw (same, k.derived, k.check, k.symm, k.hmac, e) refl

    -- The same password finds the keys.
    uf_key-right :
        (key : Profile → Bytes) (q : Profile)
        → q.pass ≡ p.pass
        → q.expanded ≡ false
        → uf_key sc key q (extra_of p) ≡ (some (key (opened p q)), opened p q)
    unfolding uf_key
    uf_key-right key q same fresh =
        rw (salt_field, check_field, key_expand-right q same) (ground (arith, fresh))

    uf_key-expanded :
        (key : Profile → Bytes) (q : Profile) (extra : Bytes)
        → q.expanded ≡ true
        → uf_key sc key q extra ≡ (some (key q), q)
    unfolding uf_key
    uf_key-expanded key q extra e = ground (arith, e)

    pub keys_of-right :
        (lib : Libibur) (ib : Ibcrypt) (mem : ℕ → Bool) (q : Profile)
        → q.pass ≡ p.pass
        → q.expanded ≡ false
        → keys_of (uf_format sc lib ib mem) q (extra_of p)
          ≡ (some (p.symm_key, p.hmac_key), opened p q)
    unfolding keys_of uf_format
    keys_of-right lib ib mem q same fresh =
        rw
          (
            uf_key-right (λ r. r.symm_key) q same fresh,
            uf_key-expanded (λ r. r.hmac_key) (opened p q) (extra_of p) refl,
          )
          refl

    keys_of-expanded :
        (lib : Libibur) (ib : Ibcrypt) (mem : ℕ → Bool)
        → p.expanded ≡ true
        → keys_of (uf_format sc lib ib mem) p (extra_of p) ≡ (some (p.symm_key, p.hmac_key), p)
    unfolding keys_of uf_format
    keys_of-expanded lib ib mem ready =
        rw
          (
            uf_key-expanded (λ r. r.symm_key) p (extra_of p) ready,
            uf_key-expanded (λ r. r.hmac_key) p (extra_of p) ready,
          )
          refl

    -- The profile finds its own keys, whether or not it has found them before.
    pub keys_of-own :
        (lib : Libibur) (ib : Ibcrypt) (mem : ℕ → Bool)
        → keys_of (uf_format sc lib ib mem) p (extra_of p)
          ≡ (some (p.symm_key, p.hmac_key), opened p p)
    keys_of-own lib ib mem = elim (Bool-cases p.expanded) [
      | inl ready ↦ own ready
      | inr fresh ↦ keys_of-right lib ib mem p refl fresh
    ]
      where
        own :
            p.expanded ≡ true
            → keys_of (uf_format sc lib ib mem) p (extra_of p)
              ≡ (some (p.symm_key, p.hmac_key), opened p p)
        own ready =
            let same : p ≡ opened p p = ap (λ (b : Bool). record p { expanded = b }) ready in
            keys_of-expanded lib ib mem ready
            ∙ ap (λ (q : Profile). (some (p.symm_key, p.hmac_key), q)) same

    -- Another password is told apart by the check.
    pub keys_of-wrong :
        (lib : Libibur) (ib : Ibcrypt) (mem : ℕ → Bool) (q : Profile) (out : Bytes)
        → scrypt_out sc q.pass p.salt ≡ some out
        → take 32 out ≢ p.pw_check
        → q.expanded ≡ false
        → (keys_of (uf_format sc lib ib mem) q (extra_of p)).0 ≡ none
    unfolding keys_of uf_format uf_key key_expand
    keys_of-wrong lib ib mem q out derived apart fresh =
        let e : bytes_eq (take 32 out) p.pw_check ≡ false =
          bytes_eq-ne (take 32 out) p.pw_check apart in
        rw (fresh, salt_field, check_field, derived, e) refl

  -- New keys from a new salt.
  abbrev pub reseeded : Bytes → Bytes → Profile → Profile
  reseeded r out p = with_keys sc out (record p { salt = r })

  pub reseeded-IsKeyed :
      (r out : Bytes) (p : Profile)
      → length r ≡ 32
      → scrypt_out sc p.pass r ≡ some out
      → IsKeyed sc (reseeded r out p)
  reseeded-IsKeyed r out p size derived = record {
    out = out;
    derived = derived;
    salted = size;
    check = refl;
    symm = refl;
    hmac = refl;
  }

  -- The counter and the accounts have no part in this.
  pub same_keys-IsKeyed :
      (p : Profile) (nonce : ℕ) (accs : List Account)
      → IsKeyed sc p
      → IsKeyed sc (record p { nonce = nonce; server_accounts = accs })
  same_keys-IsKeyed p nonce accs k = record {
    out = k.out;
    derived = k.derived;
    salted = k.salted;
    check = k.check;
    symm = k.symm;
    hmac = k.hmac;
  }
