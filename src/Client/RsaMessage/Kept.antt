-- ===== src/Client/RsaMessage/Kept.antt =====
-- A message that one user sends is parsed by the user for whose key it was made.
use ibchat.Prelude.{
  ℕ, ◌+◌, ◌-◌, ◌^◌, ◌<◌, ◌≤◌, ◌&&◌, ◌≡◌, refl, sym, true, some, Bytes, [], ◌∷◌, ◌++◌, length, take,
  leb, ltb, plenty, arith,
}
use ibchat.External.{Libibur, Ibcrypt, RsaKeys, IdentityKeys, Oaep}
use ibchat.Crypto.Layer.Channel.{sealed}
use ibchat.Crypto.Handshake.Flow.{Hs, go}
use ibchat.Server.Auth.Messages.{after_send, send_plain-sealed}
use ibchat.Client.Account.{Account}
use ibchat.Client.Identity.{IsIdentity, IsIdentity-parsed}
use ibchat.Client.RsaMessage.{
  block_size, public_size, fields, signed_part, request_len, open_message, check_sender,
  send_rsa_message, parse_rsa_message,
}
use ibchat.Client.RsaMessage.Fields.{length-fields, read_fields-fields}
use ibchat.Client.RsaMessage.Layout.{
  payload, mac, length-payload, parse_lens-payload, open_keys-payload, open_data-payload,
  check_sender-payload,
}

module _ (lib : Libibur) (ib : Ibcrypt) (rsa : RsaKeys) (ids : IdentityKeys lib rsa)
    (oaep : Oaep lib rsa) where
  open lib use {encbe64, decbe64}

  -- The keys of the sender `a` and of the receiver `b`, with calls of the libraries that succeed.
  pub record CanSend (m_type : ℕ) (a b : Account) (key_a k_a wire_a key_b k_b wire_b : Bytes)
      (keys block ex sig : Bytes) (salt_e salt_s : ℕ) : Type 0 where
    pub sender : IsIdentity lib rsa ids a.key_bin key_a k_a wire_a
    pub receiver : IsIdentity lib rsa ids b.key_bin key_b k_b wire_b
    pub locked : oaep.rsa_oaep_encrypt salt_e k_b keys ≡ some block
    pub signed :
        rsa.rsa_pss_sign salt_s key_a (
          signed_part lib ib rsa ids oaep plenty m_type block keys
            (fields lib ib rsa ids oaep plenty a wire_a ex))
        ≡ some sig
    pub some_sig : 0 < block_size lib ib rsa ids oaep plenty a.key_bin
    pub small : request_len lib ib rsa ids oaep plenty a wire_b ex < 2 ^ 64

  module _ (m_type : ℕ) (a b : Account)
      (key_a k_a wire_a key_b k_b wire_b keys block ex sig : Bytes) (salt_e salt_s : ℕ)
      (can : CanSend m_type a b key_a k_a wire_a key_b k_b wire_b keys block ex sig salt_e
        salt_s) where
    abbrev pub sent_payload : Bytes
    sent_payload =
        payload lib ib rsa ids oaep m_type block keys
          (fields lib ib rsa ids oaep plenty a wire_a ex) sig

    sender_parsed :
        (rsa.rsa_wire2pubkey wire_a ≡ some k_a)
        × (take 8 wire_a ≡ take 8 a.key_bin)
        × (length wire_a ≡ public_size lib ib rsa ids oaep plenty a)
        × (8 ≤ length wire_a)
    sender_parsed = IsIdentity-parsed lib rsa ids a.key_bin key_a k_a wire_a can.sender

    receiver_parsed :
        (rsa.rsa_wire2pubkey wire_b ≡ some k_b)
        × (take 8 wire_b ≡ take 8 b.key_bin)
        × (length wire_b ≡ public_size lib ib rsa ids oaep plenty b)
        × (8 ≤ length wire_b)
    receiver_parsed = IsIdentity-parsed lib rsa ids b.key_bin key_b k_b wire_b can.receiver

    length-block : length block ≡ block_size lib ib rsa ids oaep plenty wire_b
    length-block =
        oaep.length-rsa_oaep_encrypt salt_e wire_b k_b keys block receiver_parsed.0 can.locked

    length-sig : length sig ≡ block_size lib ib rsa ids oaep plenty a.key_bin
    length-sig = ids.length-rsa_pss_sign salt_s a.key_bin key_a _ sig can.sender.expanded can.signed

    small-payload :
        0x31 + length block + length (fields lib ib rsa ids oaep plenty a wire_a ex) + length sig
        < 2 ^ 64
    small-payload = omega (
      arith,
      length-block,
      length-sig,
      length-fields lib ib rsa ids oaep a wire_a ex,
      sender_parsed.2,
      can.small,
    )

    -- The data once it is deciphered: the fields, the MAC and the signature.
    abbrev pub opened_data : Bytes
    opened_data =
        let fs = fields lib ib rsa ids oaep plenty a wire_a ex in
        fs ++ (mac lib ib rsa ids oaep m_type block keys fs sig ++ sig)

    abbrev pub lens : ℕ × ℕ
    lens = (length block, length (fields lib ib rsa ids oaep plenty a wire_a ex) + 0x20)

    signs : 0 < length sig
    signs = omega (arith, length-sig, can.some_sig)

    pub open_message-payload :
        (s : Hs)
        → open_message lib ib rsa ids oaep plenty b sent_payload (length ex) s
          ≡ (go (lens, keys, opened_data, (a.uname, wire_a, ex)), s)
    unfolding open_message
    open_message-payload s =
        let fs = fields lib ib rsa ids oaep plenty a wire_a ex in
        let opens =
          oaep.rsa_oaep_decrypt-rsa_oaep_encrypt salt_e key_b k_b keys block can.receiver.public_key
            can.locked in
        rw
          (
            parse_lens-payload lib ib rsa ids oaep m_type block keys fs sig small-payload signs s,
            open_keys-payload lib ib rsa ids oaep m_type block keys fs sig small-payload signs b
                key_b s can.receiver.expanded opens,
            open_data-payload lib ib rsa ids oaep m_type block keys fs sig small-payload signs s,
            read_fields-fields lib ib rsa ids oaep a wire_a ex _ s (omega (arith, can.small))
                (omega (arith, can.small, sender_parsed.2)),
          )
          refl

    pub check_sender-sent :
        (s : Hs)
        → check_sender lib ib rsa ids oaep plenty sent_payload keys
            (length block)
            (length (fields lib ib rsa ids oaep plenty a wire_a ex) + 0x20)
            opened_data
            wire_a
            s
          ≡ (go tt, s)
    check_sender-sent s =
        check_sender-payload lib ib rsa ids oaep m_type block keys
          (fields lib ib rsa ids oaep plenty a wire_a ex) sig small-payload signs wire_a k_a s
          sender_parsed.3 (rw sender_parsed.1 (sym length-sig)) sender_parsed.0
          (rsa.rsa_pss_verify-rsa_pss_sign salt_s key_a k_a _ sig can.sender.public_key can.signed)

    -- The text that goes to the server, which passes the payload on to the receiver.
    abbrev pub sent_text : Bytes → Bytes
    sent_text target = 0 ∷ target ++ (encbe64 (length sent_payload) ++ sent_payload)

    -- What one user sends to another, the other parses: the message goes out under the sender's keys
    -- for the server, with the payload's length before the payload, and the receiver, whose public key
    -- it was made for, gets the sender's name, the sender's public key and the further data from the
    -- payload. Memory is granted, the network lock is given, and the calls of the libraries succeed.
    pub parse_rsa_message-send_rsa_message :
        (target : Bytes) (s r : Hs)
        → (send_rsa_message lib ib rsa ids oaep plenty m_type a target wire_b ex
              (some keys)
              salt_e
              salt_s
              true
              s
            ≡ (
              go tt,
              record s {
                keys = after_send s.keys;
                sent = s.sent ++ (sealed lib ib plenty s.keys (sent_text target) ∷ []);
              },
            ))
          × (parse_rsa_message lib ib rsa ids oaep plenty b sent_payload (length ex) r
              ≡ (go (a.uname, wire_a, ex), r))
    unfolding send_rsa_message parse_rsa_message
    parse_rsa_message-send_rsa_message target s r =
        let has_bits : (leb 8 (length wire_b) && leb 8 (length a.key_bin)) ≡ true =
          ground (arith, receiver_parsed.3, can.sender.bits) in
        let fits : ltb (request_len lib ib rsa ids oaep plenty a wire_b ex) (2 ^ 64) ≡ true =
          ground (arith, can.small) in
        let rest : request_len lib ib rsa ids oaep plenty a wire_b ex - 0x29 ≡ length sent_payload =
          omega (
            arith,
            length-payload lib ib rsa ids oaep m_type block keys
                (fields lib ib rsa ids oaep plenty a wire_a ex) sig small-payload signs,
            length-block,
            length-sig,
            length-fields lib ib rsa ids oaep a wire_a ex,
            sender_parsed.2,
          ) in
        (
          rw
              (
                has_bits, fits, receiver_parsed.0, can.locked, can.sender.public_wire,
                can.sender.expanded, can.signed, rest,
              )
              (send_plain-sealed lib ib rsa ids.rsa_pubkey_bufsize (sent_text target) s),
          rw (open_message-payload r, check_sender-sent r) refl,
        )
