-- ===== src/Client/RsaMessage/Layout.antt =====
-- What the parser finds in the payload of a message as `send_rsa_message` lays it out.
use ibchat.Prelude.{
  ℕ, ◌+◌, ◌-◌, ◌%◌, ◌^◌, ◌<◌, ◌≤◌, ==_iff, ◌&&◌, ◌≡◌, refl, true, some, Bytes, ◌∷◌, ◌++◌, length,
  take, drop, take-append, take-append_eq, drop-append, drop-append_eq, drop-append_add, drop-add,
  take-append-drop, length-append, append_assoc, bytes_eq_refl, leb, plenty, arith,
}
use ibchat.External.{Libibur, Ibcrypt, RsaKeys, IdentityKeys, Oaep}
use ibchat.Crypto.Handshake.Flow.{Hs, go}
use ibchat.Client.Account.{Account}
use ibchat.Client.RsaMessage.{
  block_size, enciphered, signed_part, parse_lens, open_keys, open_data, check_sender,
}

module _ (lib : Libibur) (ib : Ibcrypt) (rsa : RsaKeys) (ids : IdentityKeys lib rsa)
    (oaep : Oaep lib rsa) where
  open lib use {encbe64, decbe64}

  module _ (m_type : ℕ) (block keys text sig : Bytes) where
    abbrev cipher : Bytes
    cipher = enciphered lib ib rsa ids oaep plenty keys text

    abbrev pub mac : Bytes
    mac = ib.hmac_sha256 (drop 32 keys) cipher

    abbrev signed : Bytes
    signed = signed_part lib ib rsa ids oaep plenty m_type block keys text

    abbrev pub payload : Bytes
    payload = signed ++ sig

    module _ (small : 0x31 + length block + length text + length sig < 2 ^ 64)
        (some_sig : 0 < length sig) where
      length-cipher : length cipher ≡ length text
      length-cipher = ib.length-chacha_enc (take 32 keys) 0 text

      pub length-payload : length payload ≡ 0x31 + length block + length text + length sig
      length-payload = omega (
        arith,
        length-append signed sig,
        length-cipher,
        lib.length-encbe64 (length block),
        lib.length-encbe64 (length text + 0x20),
        length-append (encbe64 (length block))
            (encbe64 (length text + 0x20) ++ (block ++ (cipher ++ mac))),
        length-append (encbe64 (length text + 0x20)) (block ++ (cipher ++ mac)),
        length-append block (cipher ++ mac),
        length-append cipher mac,
        ib.length-hmac_sha256 (drop 32 keys) cipher,
      )

      -- The payload with its parts nested to the right.
      nested :
          payload
          ≡ m_type
            ∷ (encbe64 (length block)
                ++ (encbe64 (length text + 0x20) ++ (block ++ (cipher ++ (mac ++ sig)))))
      nested =
          rw
            (
              append_assoc (encbe64 (length block))
                  (encbe64 (length text + 0x20) ++ (block ++ (cipher ++ mac))) sig,
              append_assoc (encbe64 (length text + 0x20)) (block ++ (cipher ++ mac)) sig,
              append_assoc block (cipher ++ mac) sig,
              append_assoc cipher mac sig,
            )
            refl

      drop-first :
          drop 9 payload ≡ encbe64 (length text + 0x20) ++ (block ++ (cipher ++ (mac ++ sig)))
      drop-first =
          rw nested
            (drop-append_eq 8 (encbe64 (length block)) _ (lib.length-encbe64 (length block)))

      drop-lens : drop 17 payload ≡ block ++ (cipher ++ (mac ++ sig))
      drop-lens = rw nested (
          rw
            (drop-append_add 8 8 (encbe64 (length block))
              (encbe64 (length text + 0x20) ++ (block ++ (cipher ++ (mac ++ sig))))
              (lib.length-encbe64 (length block)))
            (drop-append_eq 8 (encbe64 (length text + 0x20)) _
              (lib.length-encbe64 (length text + 0x20))))

      drop-block : drop (17 + length block) payload ≡ cipher ++ (mac ++ sig)
      drop-block =
          rw (drop-add 17 (length block) payload, drop-lens)
            (drop-append block (cipher ++ (mac ++ sig)))

      pub parse_lens-payload :
          (s : Hs)
          → parse_lens lib ib rsa ids oaep plenty payload s
            ≡ (go (length block, length text + 0x20), s)
      unfolding parse_lens
      parse_lens-payload s =
          let first : take 8 (drop 1 payload) ≡ encbe64 (length block) =
            rw nested
              (take-append_eq 8 (encbe64 (length block)) _ (lib.length-encbe64 (length block))) in
          let second : take 8 (drop 9 payload) ≡ encbe64 (length text + 0x20) = rw drop-first (
            take-append_eq 8 (encbe64 (length text + 0x20)) _
              (lib.length-encbe64 (length text + 0x20))) in
          rw
            (
              length-payload,
              first,
              second,
              lib.decbe64-encbe64 (length block) (omega (arith, small)),
              lib.decbe64-encbe64 (length text + 0x20) (omega (arith, small)),
            )
            (ground (arith, small))

      pub open_keys-payload :
          (acc : Account) (rkey : Bytes) (s : Hs)
          → ids.rsa_wire2prikey acc.key_bin ≡ some rkey
          → oaep.rsa_oaep_decrypt rkey block ≡ some keys
          → open_keys lib ib rsa ids oaep plenty acc payload (length block) s ≡ (go keys, s)
      unfolding open_keys
      open_keys-payload acc rkey s expanded opens =
          rw
            (expanded, length-payload, drop-lens, take-append block (cipher ++ (mac ++ sig)), opens)
            (ground arith)

      pub open_data-payload :
          (s : Hs)
          → open_data lib ib rsa ids oaep plenty keys
              (drop (17 + length block) payload)
              (length text + 0x20)
              s
            ≡ (go (text ++ (mac ++ sig)), s)
      unfolding open_data
      open_data-payload s =
          let cut : length text + 0x20 - 32 ≡ length text = omega arith in
          let room : (leb 32 (length text + 0x20)
                && leb (length text + 0x20) (length (cipher ++ (mac ++ sig))))
              ≡ true =
            ground (
              arith,
              length-append cipher (mac ++ sig),
              length-append mac sig,
              length-cipher,
              ib.length-hmac_sha256 (drop 32 keys) cipher,
            ) in
          rw
            (
              drop-block,
              room,
              cut,
              take-append_eq (length text) cipher (mac ++ sig) length-cipher,
              drop-append_eq (length text) cipher (mac ++ sig) length-cipher,
              take-append_eq 32 mac sig (ib.length-hmac_sha256 (drop 32 keys) cipher),
              bytes_eq_refl mac,
              ib.chacha_dec-chacha_enc,
            )
            refl

      pub check_sender-payload :
          (k_data k : Bytes) (s : Hs)
          → 8 ≤ length k_data
          → block_size lib ib rsa ids oaep plenty k_data ≡ length sig
          → rsa.rsa_wire2pubkey k_data ≡ some k
          → rsa.rsa_pss_verify k sig signed ≡ some true
          → check_sender lib ib rsa ids oaep plenty payload keys
              (length block)
              (length text + 0x20)
              (text ++ (mac ++ sig))
              k_data
              s
            ≡ (go tt, s)
      unfolding check_sender
      check_sender-payload k_data k s bits size parsed verified =
          let cut : length text + 0x20 - 32 ≡ length text = omega arith in
          let again : take (17 + length block) payload ++ (cipher ++ (mac ++ sig)) ≡ payload =
            rw (← drop-block) (take-append-drop (17 + length block) payload) in
          let total : (length block + (length text + 0x20) + 17 + length sig) % 2 ^ 64
              ≡ 0x31 + length block + length text + length sig =
            omega (arith, small) in
          let body : 0x31 + length block + length text + length sig - length sig ≡ length signed =
            omega (arith, length-payload, length-append signed sig) in
          let has_bits : leb 8 (length k_data) ≡ true = ground arith in
          let room : leb (length sig) (0x31 + length block + length text + length sig) ≡ true =
            ground arith in
          rw
            (
              has_bits,
              length-payload,
              size,
              total,
              (==_iff (0x31 + length block + length text + length sig) _).1 refl,
              parsed,
              room,
              cut,
              take-append text (mac ++ sig),
              drop-append text (mac ++ sig),
              again,
              body,
              drop-append signed sig,
              take-append signed sig,
              verified,
            )
            refl
