-- ===== src/Client/Conversation/Exchange.antt =====
-- A message from one friend to another, replayed, and messages that were made by neither.
use ibchat.Prelude.{
  ℕ, ◌+◌, ◌-◌, ◌%◌, ◌^◌, ◌<◌, ◌≤◌, ◌==◌, not, ◌≡◌, ◌≢◌, refl, true, false, Option, none, some,
  Bytes, [], ◌∷◌, ◌++◌, length, take, drop, bytes_eq-ne, leb, ltb, plenty, arith,
}
use ibchat.External.{Libibur, Ibcrypt}
use ibchat.Codec.{Verdict, ok, undefined}
use ibchat.Crypto.Layer.{send_message, encrypt_message}
use ibchat.Crypto.Layer.Channel.{sealed}
use ibchat.Crypto.Handshake.Flow.{Hs, go}
use ibchat.Server.Auth.Messages.{after_send}
use ibchat.Client.Uname.{gen_uid, c_string}
use ibchat.Client.Friend.{Friend}
use ibchat.Client.Friendreq.Agreed.{AgreeTo}
use ibchat.Client.Conversation.{
  Cmessage, next_nonce, conv_payload, cmessage_send_server, parse_conv_message_payload,
}
use ibchat.Client.Conversation.Messages.{
  parse_conv_message_payload-conv_payload, parse_conv_message_payload-again,
}

module _ (lib : Libibur) (ib : Ibcrypt) where
  abbrev pub parse : Friend → Bytes → Verdict (Option Cmessage) × Friend
  parse = parse_conv_message_payload lib ib plenty

  -- What one friend sends the other reads, once. The message goes to the server for the friend's id;
  -- the receiver, whose keys agree and whose counter is not ahead, gets the text and moves its counter
  -- to the sender's; the same payload is refused from then on, and the next message will do again.
  -- The text is a C string that is short enough, the sender's counter does not wrap, and memory and
  -- the network lock are given.
  pub cmessage_send_server-parse :
      (f g : Friend) (given : Bytes) (s : Hs)
      → AgreeTo f g
      → length (c_string given) + 0x5a < 2 ^ 64
      → f.s_nonce + 1 < 2 ^ 64
      → g.r_nonce ≤ f.s_nonce
      → (let text = c_string given in
          let next = next_nonce f in
          let payload = conv_payload lib ib plenty next text in
          let after = record g { r_nonce = next.s_nonce } in
          (cmessage_send_server lib ib plenty f given true s ≡ (
            (
              go tt,
              record s {
                keys = after_send s.keys;
                sent =
                    s.sent
                    ++ (sealed lib ib plenty s.keys
                          (0 ∷ gen_uid ib f.uname ++ (lib.encbe64 (0x31 + length text) ++ payload))
                        ∷ []);
              },
            ),
            next,
          ))
          × (parse g payload ≡ (ok (some (record { sender = 1; text = text })), after))
          × (parse after payload ≡ (ok none, after))
          × AgreeTo next after
          × (after.r_nonce ≤ next.s_nonce))
  unfolding cmessage_send_server next_nonce send_message encrypt_message
  cmessage_send_server-parse f g given s agree small fresh behind =
      let text = c_string given in
      let next = next_nonce f in
      let bumped : (f.s_nonce + 1) % 2 ^ 64 ≡ f.s_nonce + 1 = omega arith in
      let counts : ((f.s_nonce + 1) == 0) ≡ false = ground arith in
      let len : 0x29 + 0x11 + length text + 0x20 - 0x29 ≡ 0x31 + length text = omega arith in
      let agree' : AgreeTo next g = record { symm = agree.symm; hmac = agree.hmac } in
      (
        rw (bumped, counts, len) refl,
        parse_conv_message_payload-conv_payload lib ib next text (omega arith) (omega arith) g
            agree' (omega arith),
        parse_conv_message_payload-again lib ib next text (omega arith) (omega arith)
            (record g { r_nonce = next.s_nonce }) (omega arith),
        record { symm = agree.symm; hmac = agree.hmac },
        omega arith,
      )

  abbrev nonce_of : Bytes → ℕ
  nonce_of p = lib.decbe64 (take 8 (drop 1 p))

  abbrev len_of : Bytes → ℕ
  len_of p = lib.decbe64 (take 8 (drop 9 p))

  -- A message whose MAC is wrong is dropped, but its counter is taken if it is ahead: from then on the
  -- friend's own messages up to that counter are dropped too.
  pub parse_conv_message_payload-forged :
      (f g : Friend) (p text : Bytes)
      → length p ≡ 0x31 + len_of p
      → length p < 2 ^ 64
      → g.r_nonce < nonce_of p
      → drop (length p - 0x20) p ≢ ib.hmac_sha256 g.r_hmac_key (take (length p - 0x20) p)
      → length text + 0x31 < 2 ^ 64
      → f.s_nonce ≤ nonce_of p
      → (let after = record g { r_nonce = nonce_of p } in
          (parse g p ≡ (ok none, after))
          × (parse after (conv_payload lib ib plenty f text) ≡ (ok none, after)))
  unfolding parse_conv_message_payload
  parse_conv_message_payload-forged f g p text size small ahead wrong fits old =
      let minimum : ltb (length p) 0x11 ≡ false = ground arith in
      let whole : not (length p == (0x11 + len_of p + 0x20) % 2 ^ 64) ≡ false = ground arith in
      let newer : leb (nonce_of p) g.r_nonce ≡ false = ground arith in
      let has_mac : ltb (length p) 0x20 ≡ false = ground arith in
      (
        rw (minimum, whole, newer, has_mac, bytes_eq-ne (drop (length p - 0x20) p) _ wrong) refl,
        parse_conv_message_payload-again lib ib f text fits
            (omega (arith, lib.decbe64-lt (take 8 (drop 1 p)))) (record g { r_nonce = nonce_of p })
            old,
      )

  -- A message of 17 to 31 bytes whose length field makes the sum of the lengths wrap passes the test of
  -- the lengths, and its MAC is looked for before the message, whoever made it.
  pub parse_conv_message_payload-wrapped :
      (g : Friend) (p : Bytes)
      → 0x11 ≤ length p
      → length p < 0x20
      → 0x31 + len_of p ≡ 2 ^ 64 + length p
      → g.r_nonce < nonce_of p
      → (parse g p).0 ≡ undefined
  unfolding parse_conv_message_payload
  parse_conv_message_payload-wrapped g p minimum short wraps ahead =
      let long : ltb (length p) 0x11 ≡ false = ground arith in
      let whole : not (length p == (0x11 + len_of p + 0x20) % 2 ^ 64) ≡ false = ground arith in
      let newer : leb (nonce_of p) g.r_nonce ≡ false = ground arith in
      let no_mac : ltb (length p) 0x20 ≡ true = ground arith in rw (long, whole, newer, no_mac) refl
