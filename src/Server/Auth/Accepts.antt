-- ===== src/Server/Auth/Accepts.antt =====
-- An answer to the challenge that is made as the server expects it.
use ibchat.Prelude.{
  ℕ, ◌+◌, ◌%◌, ◌^◌, ◌<◌, ◌≤◌, ◌≡◌, refl, true, some, Bytes, ◌++◌, length, take, drop, take-append,
  take-append_eq, take-append_le, drop-append, drop-append_add, take-length, drop-append_eq,
  length-append, append_assoc, bytes_eq_refl, Bool, arith, leb,
}
use ibchat.External.{Libibur, Ibcrypt, RsaKeys}
use ibchat.Crypto.Handshake.Flow.{Hs, go}
use ibchat.Server.Auth.{check_keylen, check_challenge, check_siglen, check_signature, check_answer}

module _ (lib : Libibur) (ib : Ibcrypt) (rsa : RsaKeys) (mem : ℕ → Bool) (pubkey_size : ℕ → ℕ) where
  -- The parts of an answer, of which the last is the signature of the others.
  module _ (uid wire challenge sig_length sig key : Bytes) where
    abbrev body : Bytes
    body = uid ++ (wire ++ (challenge ++ sig_length))

    pub record IsAnswer : Type 0 where
      pub uid_size : length uid ≡ 0x20
      pub challenge_size : length challenge ≡ 0x20
      pub sig_length_size : length sig_length ≡ 8
      pub wire_size : pubkey_size (lib.decbe64 (take 8 wire)) ≡ length wire
      pub wire_bits : 8 ≤ length wire
      pub sig_size : lib.decbe64 sig_length ≡ length sig
      pub sig_some : 0 < length sig
      pub small : 0x48 + length wire + length sig < 2 ^ 64
      pub parsed : rsa.rsa_wire2pubkey wire ≡ some key
      pub verified : rsa.rsa_pss_verify key sig body ≡ some true

    module _ (a : IsAnswer) where
      length-body : length body ≡ 0x48 + length wire
      length-body = omega (
        arith,
        a.uid_size,
        a.challenge_size,
        a.sig_length_size,
        length-append uid (wire ++ (challenge ++ sig_length)),
        length-append wire (challenge ++ sig_length),
        length-append challenge sig_length,
      )

      length-answer : length (body ++ sig) ≡ 0x48 + length wire + length sig
      length-answer = omega (arith, length-body, length-append body sig)

      drop-uid : drop 0x20 (body ++ sig) ≡ wire ++ ((challenge ++ sig_length) ++ sig)
      drop-uid =
          rw
            (
              append_assoc uid (wire ++ (challenge ++ sig_length)) sig,
              append_assoc wire (challenge ++ sig_length) sig,
            )
            (drop-append_eq 0x20 uid (wire ++ ((challenge ++ sig_length) ++ sig)) a.uid_size)

      drop-key : drop (0x20 + length wire) (body ++ sig) ≡ challenge ++ (sig_length ++ sig)
      drop-key =
          rw
            (
              append_assoc uid (wire ++ (challenge ++ sig_length)) sig,
              append_assoc wire (challenge ++ sig_length) sig,
              drop-append_add 0x20 (length wire) uid (wire ++ ((challenge ++ sig_length) ++ sig))
                  a.uid_size,
              drop-append wire ((challenge ++ sig_length) ++ sig),
            )
            (append_assoc challenge sig_length sig)

      drop-challenge : drop (0x40 + length wire) (body ++ sig) ≡ sig_length ++ sig
      drop-challenge =
          let sum : 0x40 + length wire ≡ 0x20 + (length wire + 0x20) = omega arith in
          rw
            (
              sum,
              append_assoc uid (wire ++ (challenge ++ sig_length)) sig,
              append_assoc wire (challenge ++ sig_length) sig,
              drop-append_add 0x20 (length wire + 0x20) uid
                  (wire ++ ((challenge ++ sig_length) ++ sig)) a.uid_size,
              drop-append_add (length wire) 0x20 wire ((challenge ++ sig_length) ++ sig) refl,
              append_assoc challenge sig_length sig,
            )
            (drop-append_eq 0x20 challenge (sig_length ++ sig) a.challenge_size)

      take-uid : take 0x20 (body ++ sig) ≡ uid
      take-uid =
          rw (append_assoc uid (wire ++ (challenge ++ sig_length)) sig)
            (take-append_eq 0x20 uid ((wire ++ (challenge ++ sig_length)) ++ sig) a.uid_size)

      check_keylen-answer :
          (s : Hs) → check_keylen lib ib rsa mem pubkey_size (body ++ sig) s ≡ (go (length wire), s)
      unfolding check_keylen
      check_keylen-answer s =
          let bits = take-append_le 8 wire ((challenge ++ sig_length) ++ sig) a.wire_bits in
          rw (length-answer, drop-uid, bits, a.wire_size) (ground (arith, a.small, a.sig_some))

      check_challenge-answer :
          (s : Hs)
          → check_challenge lib ib rsa mem pubkey_size challenge (body ++ sig) (length wire) s
            ≡ (go tt, s)
      unfolding check_challenge
      check_challenge-answer s =
          let small : (0x20 + length wire) % 2 ^ 64 ≡ 0x20 + length wire = omega (arith, a.small) in
          rw
            (
              small,
              length-answer,
              drop-key,
              take-append_eq 0x20 challenge (sig_length ++ sig) a.challenge_size,
              bytes_eq_refl challenge,
            )
            (ground (arith, a.small))

      check_siglen-answer :
          (s : Hs)
          → check_siglen lib ib rsa mem pubkey_size (body ++ sig) (length wire) s
            ≡ (go (length sig), s)
      unfolding check_siglen
      check_siglen-answer s =
          let small : (0x40 + length wire) % 2 ^ 64 ≡ 0x40 + length wire = omega (arith, a.small) in
          rw
            (
              small,
              length-answer,
              drop-challenge,
              take-append_eq 8 sig_length sig a.sig_length_size,
              a.sig_size,
            )
            (ground (arith, a.small))

      check_signature-answer :
          (s : Hs)
          → check_signature lib ib rsa mem pubkey_size (body ++ sig) (length wire) (length sig) s
            ≡ (go (uid, key), s)
      unfolding check_signature
      check_signature-answer s =
          let sum : 0x20 + length wire + 0x20 + 0x08 ≡ length body = omega (arith, length-body) in
          let in_key : leb (0x20 + length wire) (length body + length sig) ≡ true =
            ground (arith, length-body) in
          let in_sig : leb (length body + length sig) (length body + length sig) ≡ true =
            ground arith in
          rw (
            sum,
            length-append body sig,
            in_key,
            in_sig,
            drop-append body sig,
            take-append body sig,
            take-length sig,
            drop-uid,
            take-append wire ((challenge ++ sig_length) ++ sig),
            a.parsed,
            a.verified,
            take-uid,
          )

      -- The server takes an answer made as it expects it for that of the id and the key in it.
      pub check_answer-IsAnswer :
          (s : Hs)
          → check_answer lib ib rsa mem pubkey_size challenge (body ++ sig) s ≡ (go (uid, key), s)
      unfolding check_answer
      check_answer-IsAnswer s =
          rw (check_keylen-answer s, check_challenge-answer s, check_siglen-answer s)
            (check_signature-answer s)
