-- ===== src/Client/Conversation/Messages.antt =====
-- Messages between two friends whose keys agree, and messages that are forged.
use ibchat.Prelude.{
  ◌+◌, ◌-◌, ◌%◌, ◌^◌, ◌<◌, ◌≤◌, ◌==◌, not, ◌≡◌, refl, true, false, none, some, Bytes, ◌∷◌, ◌++◌,
  length, take, drop, take-append_eq, drop-append_eq, drop-add, length-append, append_assoc,
  bytes_eq_refl, leb, ltb, plenty, arith,
}
use ibchat.External.{Libibur, Ibcrypt}
use ibchat.Codec.{ok}
use ibchat.Client.Friend.{Friend}
use ibchat.Client.Friendreq.Agreed.{AgreeTo}
use ibchat.Client.Conversation.{conv_body, conv_payload, parse_conv_message_payload}

module _ (lib : Libibur) (ib : Ibcrypt) where
  open lib use {encbe64, decbe64}

  module _ (f : Friend) (text : Bytes) (small : length text + 0x31 < 2 ^ 64)
      (fresh : f.s_nonce < 2 ^ 64) where
    abbrev cipher : Bytes
    cipher = ib.chacha_enc f.s_symm_key f.s_nonce text

    abbrev mac : Bytes
    mac = ib.hmac_sha256 f.s_hmac_key (conv_body lib ib plenty f text)

    length-body : length (conv_body lib ib plenty f text) ≡ 0x11 + length text
    unfolding conv_body
    length-body = omega (
      arith,
      length-append (encbe64 f.s_nonce) (encbe64 (length text) ++ cipher),
      length-append (encbe64 (length text)) cipher,
      lib.length-encbe64 f.s_nonce,
      lib.length-encbe64 (length text),
      ib.length-chacha_enc f.s_symm_key f.s_nonce text,
    )

    length-payload : length (conv_payload lib ib plenty f text) ≡ 0x31 + length text
    unfolding conv_payload
    length-payload = omega (
      arith,
      length-body,
      length-append (conv_body lib ib plenty f text) mac,
      ib.length-hmac_sha256 f.s_hmac_key (conv_body lib ib plenty f text),
    )

    nested :
        conv_payload lib ib plenty f text
        ≡ 0 ∷ (encbe64 f.s_nonce ++ (encbe64 (length text) ++ (cipher ++ mac)))
    unfolding conv_payload conv_body
    nested =
        rw
          (
            append_assoc (encbe64 f.s_nonce) (encbe64 (length text) ++ cipher) mac,
            append_assoc (encbe64 (length text)) cipher mac,
          )
          refl

    nonce_at : take 8 (drop 1 (conv_payload lib ib plenty f text)) ≡ encbe64 f.s_nonce
    nonce_at = rw nested (take-append_eq 8 (encbe64 f.s_nonce) _ (lib.length-encbe64 f.s_nonce))

    drop-nonce :
        drop 9 (conv_payload lib ib plenty f text) ≡ encbe64 (length text) ++ (cipher ++ mac)
    drop-nonce = rw nested (drop-append_eq 8 (encbe64 f.s_nonce) _ (lib.length-encbe64 f.s_nonce))

    len_at : take 8 (drop 9 (conv_payload lib ib plenty f text)) ≡ encbe64 (length text)
    len_at =
        rw drop-nonce
          (take-append_eq 8 (encbe64 (length text)) _ (lib.length-encbe64 (length text)))

    text_at : take (length text) (drop 0x11 (conv_payload lib ib plenty f text)) ≡ cipher
    text_at =
        rw
          (
            drop-add 9 8 (conv_payload lib ib plenty f text),
            drop-nonce,
            drop-append_eq 8 (encbe64 (length text)) (cipher ++ mac)
                (lib.length-encbe64 (length text)),
          )
          (take-append_eq (length text) cipher mac
            (ib.length-chacha_enc f.s_symm_key f.s_nonce text))

    take-body :
        take (0x31 + length text - 0x20) (conv_payload lib ib plenty f text)
        ≡ conv_body lib ib plenty f text
    unfolding conv_payload
    take-body =
        take-append_eq (0x31 + length text - 0x20) (conv_body lib ib plenty f text) mac
          (omega (arith, length-body))

    drop-body : drop (0x31 + length text - 0x20) (conv_payload lib ib plenty f text) ≡ mac
    unfolding conv_payload
    drop-body =
        drop-append_eq (0x31 + length text - 0x20) (conv_body lib ib plenty f text) mac
          (omega (arith, length-body))

    pub parse_conv_message_payload-conv_payload :
        (g : Friend)
        → AgreeTo f g
        → g.r_nonce < f.s_nonce
        → parse_conv_message_payload lib ib plenty g (conv_payload lib ib plenty f text)
          ≡ (ok (some (record { sender = 1; text = text })), record g { r_nonce = f.s_nonce })
    unfolding parse_conv_message_payload
    parse_conv_message_payload-conv_payload g agree later =
        let minimum : ltb (0x31 + length text) 0x11 ≡ false = ground arith in
        let whole : not ((0x31 + length text) == (0x11 + length text + 0x20) % 2 ^ 64) ≡ false =
          ground (arith, small) in
        let newer : leb f.s_nonce g.r_nonce ≡ false = ground arith in
        let has_mac : ltb (0x31 + length text) 0x20 ≡ false = ground arith in
        let room : leb (0x11 + length text) (0x31 + length text) ≡ true = ground arith in
        rw
          (
            length-payload,
            nonce_at,
            len_at,
            lib.decbe64-encbe64 f.s_nonce fresh,
            lib.decbe64-encbe64 (length text) (omega arith),
            minimum,
            whole,
            newer,
            has_mac,
            text_at,
            take-body,
            drop-body,
            ← agree.hmac,
            bytes_eq_refl mac,
            room,
            ← agree.symm,
            ib.chacha_dec-chacha_enc,
          )
          refl

    -- The same payload once more: it is refused, and nothing changes.
    pub parse_conv_message_payload-again :
        (g : Friend)
        → f.s_nonce ≤ g.r_nonce
        → parse_conv_message_payload lib ib plenty g (conv_payload lib ib plenty f text)
          ≡ (ok none, g)
    unfolding parse_conv_message_payload
    parse_conv_message_payload-again g seen =
        let minimum : ltb (0x31 + length text) 0x11 ≡ false = ground arith in
        let whole : not ((0x31 + length text) == (0x11 + length text + 0x20) % 2 ^ 64) ≡ false =
          ground (arith, small) in
        let old : leb f.s_nonce g.r_nonce ≡ true = ground arith in
        rw
          (
            length-payload,
            nonce_at,
            len_at,
            lib.decbe64-encbe64 f.s_nonce fresh,
            lib.decbe64-encbe64 (length text) (omega arith),
            minimum,
            whole,
            old,
          )
          refl
