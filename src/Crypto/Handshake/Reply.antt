-- ===== src/Crypto/Handshake/Reply.antt =====
-- The server's response, and how the client reads it.
use ibchat.Prelude.{
  plenty, ℕ, ◌+◌, ◌/◌, ◌%◌, ◌^◌, ◌<◌, ◌≤◌, ◌≡◌, refl, ◌∙◌, true, some, Bytes, [], ◌++◌, length,
  length-append, append_assoc, take-append_eq, drop-append_eq, leb, bytes_eq_refl, arith,
}
use ibchat.External.{Libibur, Ibcrypt, RsaKeys, KeyExchange}
use ibchat.Crypto.Layer.{Keyset, expand_keyset}
use ibchat.Crypto.Handshake.Flow.{Hs, go}
use ibchat.Crypto.Handshake.{
  response_body, shared_keybuf, number_at, bytes_at, check_server, server_value, client_response,
}

-- What the libraries have to answer for a handshake to succeed: the server's keys and its signature,
-- both public values, in range and small enough for the wire, and the secret that both compute.
pub record Succeeds (lib : Libibur) (ib : Ibcrypt) (rsa : RsaKeys) (dh : KeyExchange)
    (rsa_key : Bytes) (server_exp client_exp salt : ℕ) : Type 0 where
  pub rsa_pkey : Bytes
  pub rsa_wire : Bytes
  pub bits : ℕ
  pub server_pub : ℕ
  pub server_wire : Bytes
  pub client_pub : ℕ
  pub client_wire : Bytes
  pub secret : ℕ
  pub secret_wire : Bytes
  pub sig : Bytes
  pub public : rsa.rsa_pub_key rsa_key ≡ some rsa_pkey
  pub wired : rsa.rsa_pubkey2wire rsa_pkey ≡ some rsa_wire
  pub group : dh.dh_init_ctx 14 ≡ some bits
  pub server_gen : dh.dh_gen_pub server_exp ≡ some server_pub
  pub server_wired : dh.dh_val2wire server_pub ≡ some server_wire
  pub server_range : dh.dh_range_check server_pub ≡ some true
  pub client_gen : dh.dh_gen_pub client_exp ≡ some client_pub
  pub client_wired : dh.dh_val2wire client_pub ≡ some client_wire
  pub client_range : dh.dh_range_check client_pub ≡ some true
  pub computed : dh.dh_compute_secret server_exp client_pub ≡ some secret
  pub secret_wired : dh.dh_val2wire secret ≡ some secret_wire
  pub small_rsa : length rsa_wire ≤ 2048
  pub small_dh : length server_wire ≤ (bits + 7) / 8 + 8
  pub small_bits : bits < 2 ^ 20
  pub signed :
      rsa.rsa_pss_sign salt rsa_key (
        response_body lib ib rsa dh plenty true rsa_wire server_wire
          (ib.sha256 (dh.pbkdf2_hmac_sha256 secret_wire 1 128)))
      ≡ some sig

module _ (lib : Libibur) (ib : Ibcrypt) (rsa : RsaKeys) (dh : KeyExchange) (rsa_key : Bytes)
    (server_exp client_exp salt : ℕ)
    (h : Succeeds lib ib rsa dh rsa_key server_exp client_exp salt) where
  open lib use {encbe64, decbe64}
  open h use {
    rsa_pkey, rsa_wire, bits, server_pub, server_wire, client_pub, client_wire, secret, secret_wire,
    sig,
  }

  -- What both derive from the secret.
  abbrev pub key_buf : Bytes
  key_buf = dh.pbkdf2_hmac_sha256 secret_wire 1 128

  abbrev key_hash : Bytes
  key_hash = ib.sha256 key_buf

  abbrev body : Bytes
  body = response_body lib ib rsa dh plenty true rsa_wire server_wire key_hash

  -- The server's response.
  abbrev pub reply : Bytes
  reply = body ++ sig

  abbrev pub server_keys : Keyset → Keyset
  server_keys k = record (expand_keyset key_buf 1 k) { nonce = 2 }

  abbrev pub client_keys : Keyset → Keyset
  client_keys k = record (expand_keyset key_buf 0 k) { nonce = 1 }

  number_at-at :
      (off v : ℕ) (m before after : Bytes) (s : Hs)
      → m ≡ before ++ (encbe64 v ++ after)
      → length before ≡ off
      → v < 2 ^ 64
      → number_at lib ib rsa dh plenty true off m s ≡ (go v, s)
  unfolding number_at
  number_at-at off v m before after s whole place small =
      let n = encbe64 v in
      let total : leb (off + 8) (length m) ≡ true =
        rw (whole, length-append before (n ++ after), length-append n after, lib.length-encbe64 v)
          (ground arith) in
      rw
        (
          total,
          whole,
          drop-append_eq off before (n ++ after) place,
          take-append_eq 8 n after (lib.length-encbe64 v),
          lib.decbe64-encbe64 v small,
        )
        refl

  bytes_at-at :
      (off n : ℕ) (m before chunk after : Bytes) (s : Hs)
      → m ≡ before ++ (chunk ++ after)
      → length before ≡ off
      → length chunk ≡ n
      → bytes_at lib ib rsa dh plenty true off n m s ≡ (go chunk, s)
  unfolding bytes_at
  bytes_at-at off n m before chunk after s whole place size =
      let total : leb (off + n) (length m) ≡ true =
        rw (whole, length-append before (chunk ++ after), length-append chunk after)
          (ground arith) in
      rw
        (
          total,
          whole,
          drop-append_eq off before (chunk ++ after) place,
          take-append_eq n chunk after size,
        )
        refl

  length-body : length body ≡ 48 + length rsa_wire + length server_wire
  length-body =
      rw
        (
          length-append, length-append, length-append, length-append, lib.length-encbe64,
          lib.length-encbe64, ib.length-sha256,
        )
        (omega arith)

  length-response : length reply ≡ 48 + length rsa_wire + length server_wire + length sig
  length-response = omega (arith, length-append body sig, length-body)

  server_value-response :
      (s : Hs)
      → server_value lib ib rsa dh plenty true bits reply (length rsa_wire) s
        ≡ (go (server_pub, length server_wire), s)
  unfolding server_value
  server_value-response s =
      let n₁ = encbe64 (length rsa_wire) in
      let n₂ = encbe64 (length server_wire) in
      let head = n₁ ++ rsa_wire in
      let at_size : reply ≡ head ++ (n₂ ++ (server_wire ++ (key_hash ++ sig))) =
        simp append_assoc in
      let at_value : reply ≡ (head ++ n₂) ++ (server_wire ++ (key_hash ++ sig)) =
        simp append_assoc in
      let l : length head ≡ (8 + length rsa_wire) % 2 ^ 64 =
        omega
          (arith, length-append n₁ rsa_wire, lib.length-encbe64 (length rsa_wire), h.small_rsa) in
      let l₂ : length (head ++ n₂) ≡ (16 + length rsa_wire) % 2 ^ 64 = omega (
        arith,
        length-append head n₂,
        length-append n₁ rsa_wire,
        lib.length-encbe64 (length rsa_wire),
        lib.length-encbe64 (length server_wire),
        h.small_rsa,
      ) in
      let fits₁ : leb ((8 + length rsa_wire + 8) % 2 ^ 64) (length reply) ≡ true =
        ground (arith, length-response, h.small_rsa) in
      let fits₂ : leb ((8 + length rsa_wire + 8 + length server_wire) % 2 ^ 64) (length reply)
          ≡ true =
        ground (arith, length-response, h.small_rsa, h.small_dh, h.small_bits) in
      let small : length server_wire < 2 ^ 64 = omega (arith, h.small_dh, h.small_bits) in
      let in_group : leb (length server_wire) ((bits + 7) / 8 + 8) ≡ true =
        ground (arith, h.small_dh) in
      rw
        (
          fits₁,
          number_at-at _ (length server_wire) reply head (server_wire ++ (key_hash ++ sig)) s
              at_size l small,
          fits₂,
          in_group,
          bytes_at-at _ (length server_wire) reply (head ++ n₂) server_wire (key_hash ++ sig) s
              at_value l₂ refl,
          dh.dh_wire2val-dh_val2wire server_pub server_wire h.server_wired,
          h.server_range,
        )
        refl

  check_server-response :
      (s : Hs)
      → check_server lib ib rsa dh plenty true reply
          (length rsa_wire)
          (length server_wire)
          key_buf
          s
        ≡ (go rsa_pkey, record s { res = 0 })
  unfolding check_server
  check_server-response s =
      let n₁ = encbe64 (length rsa_wire) in
      let n₂ = encbe64 (length server_wire) in
      let head = n₁ ++ (rsa_wire ++ (n₂ ++ server_wire)) in
      let at_hash : reply ≡ head ++ (key_hash ++ sig) = simp append_assoc in
      let at_rsa : reply ≡ n₁ ++ (rsa_wire ++ (n₂ ++ (server_wire ++ (key_hash ++ sig)))) =
        simp append_assoc in
      let size : length head ≡ 16 + length rsa_wire + length server_wire =
        rw (length-append, length-append, length-append, lib.length-encbe64, lib.length-encbe64)
          (omega arith) in
      let l : length head ≡ (8 + length rsa_wire + 8 + length server_wire) % 2 ^ 64 =
        omega (arith, size, h.small_rsa, h.small_dh, h.small_bits) in
      let fits : leb ((8 + length rsa_wire + 8 + length server_wire + 32) % 2 ^ 64) (length reply)
          ≡ true =
        ground (arith, length-response, h.small_rsa, h.small_dh, h.small_bits) in
      let short : leb (length rsa_wire) 2048 ≡ true = ground (arith, h.small_rsa) in
      let off : length body ≡ 8 + length rsa_wire + 8 + length server_wire + 32 =
        omega (arith, length-body) in
      rw
        (
          fits,
          bytes_at-at _ 32 reply head key_hash sig s at_hash l (ib.length-sha256 key_buf),
          bytes_eq_refl key_hash,
          short,
          bytes_at-at 8 (length rsa_wire) reply n₁ rsa_wire
              (n₂ ++ (server_wire ++ (key_hash ++ sig))) s at_rsa
              (lib.length-encbe64 (length rsa_wire)) refl,
          rsa.rsa_wire2pubkey-rsa_pubkey2wire rsa_pkey rsa_wire h.wired,
          drop-append_eq _ body sig off,
          take-append_eq _ body sig off,
          rsa.rsa_pss_verify-rsa_pss_sign salt rsa_key rsa_pkey body sig h.public h.signed,
        )
        refl

  pub client_response-response :
      (s : Hs)
      → client_response lib ib rsa dh plenty true bits client_exp reply s
        ≡ (go rsa_pkey, record s { keys = client_keys s.keys; res = 0 })
  unfolding client_response shared_keybuf expand_keyset
  client_response-response s =
      let n₁ = encbe64 (length rsa_wire) in
      let at_rsa : reply
          ≡ []
            ++ (n₁
                ++ (rsa_wire
                    ++ (encbe64 (length server_wire) ++ (server_wire ++ (key_hash ++ sig))))) =
        simp append_assoc in
      let agreed : dh.dh_compute_secret client_exp server_pub ≡ some secret =
        dh.dh_compute_secret_comm client_exp server_exp client_pub server_pub h.client_gen
          h.server_gen
        ∙ h.computed in
      rw
        (
          number_at-at 0 (length rsa_wire) reply [] _ s at_rsa refl (omega (arith, h.small_rsa)),
          server_value-response s,
          agreed,
          h.secret_wired,
          check_server-response (record s { keys = client_keys s.keys }),
        )
        refl
