-- ===== src/Client/Conversation.antt =====
-- client/conversation.c: the messages of a conversation, as they go to a friend and come from one.
pub mod Messages
pub mod Exchange
mod Tests
use ibchat.Prelude.{
  ℕ, zero, suc, ◌+◌, ◌-◌, ◌%◌, ◌^◌, ◌==◌, not, Bool, true, false, ◌&&◌, Option, none, some, Bytes,
  List, [], ◌∷◌, ◌++◌, length, take, drop, leb, ltb, bytes_eq, if◌then◌else◌, failure, ℤ,
}
use ibchat.External.{Libibur, Ibcrypt}
use ibchat.Codec.{Verdict, ok, error, undefined}
use ibchat.Crypto.Layer.{Keyset, send_message}
use ibchat.Crypto.Handshake.Flow.{Run, Hs, Step, exit, check, ◌>>◌}
use ibchat.Inet.Connection.{Message}
use ibchat.Server.Auth.{sent_or_failed}
use ibchat.Client.Uname.{gen_uid, c_string}
use ibchat.Client.Friend.{Friend}

-- `struct cmessage`; the sender is 0 for the user and 1 for the friend. The text is without the null
-- byte that `alloc_cmessage` puts after it.
pub record Cmessage : Type 0 where
  pub sender : ℕ
  pub text : Bytes

-- sizeof(struct cmessage)
abbrev pub cmessage_size : ℕ
cmessage_size = 32

-- `f->s_nonce += 1`
unfoldable pub next_nonce : Friend → Friend
next_nonce f = record f { s_nonce = (f.s_nonce + 1) % 2 ^ 64 }

module _ (lib : Libibur) (ib : Ibcrypt) (mem : ℕ → Bool) where
  open lib use {encbe64, decbe64}
  open ib use {hmac_sha256, chacha_enc, chacha_dec}

  -- What the MAC is made of, with the friend's counter.
  unfoldable pub conv_body : Friend → Bytes → Bytes
  conv_body f text =
      (0 ∷ [])
      ++ (encbe64 f.s_nonce ++ (encbe64 (length text) ++ chacha_enc f.s_symm_key f.s_nonce text))

  unfoldable pub conv_payload : Friend → Bytes → Bytes
  conv_payload f text = conv_body f text ++ hmac_sha256 f.s_hmac_key (conv_body f text)

  abbrev pub conv_len : Bytes → ℕ
  conv_len text = 0x29 + 0x11 + length text + 0x20

  abbrev pub conv_send : Friend → Bytes → Bool → Run (Unit {0})
  conv_send f text up = check failure up >> λ s. sent_or_failed s (
      send_message lib ib mem s.keys
        (0 ∷ gen_uid ib f.uname ++ (encbe64 (conv_len text - 0x29) ++ conv_payload f text)) s.sent)

  -- The friend's counter moves even when the message is not sent; at 0 it has wrapped.
  unfoldable pub cmessage_send_server : Friend → Bytes → Bool → Hs → (Step (Unit {0}) × Hs) × Friend
  cmessage_send_server f given up s =
      let text = c_string given in
      let next = next_nonce f in
      if mem (conv_len text % 2 ^ 64)
      then (if next.s_nonce == 0 then (exit failure, s) else conv_send next text up s, next)
      else ((exit failure, s), f)

  -- The MAC stands in the last 32 bytes; the message is allocated with a null byte after its text.
  abbrev pub open_payload : Friend → Bytes → ℕ → Verdict (Option Cmessage)
  open_payload f payload mlen =
      if ltb (length payload) 0x20
      then undefined
      else if bytes_eq (drop (length payload - 0x20) payload)
          (hmac_sha256 f.r_hmac_key (take (length payload - 0x20) payload))
      then if mem cmessage_size && mem ((mlen + 1) % 2 ^ 64)
        then if leb (0x11 + mlen) (length payload)
          then ok (
              some (record {
                sender = 1;
                text = chacha_dec f.r_symm_key f.r_nonce (take mlen (drop 0x11 payload));
              }))
          else undefined
        else error
      else ok none

  -- `ok none` is an invalid message. The counter is set before the MAC is looked at, and the sum of the
  -- lengths wraps.
  unfoldable pub parse_conv_message_payload : Friend → Bytes → Verdict (Option Cmessage) × Friend
  parse_conv_message_payload f payload =
      let nonce = decbe64 (take 8 (drop 1 payload)) in
      let mlen = decbe64 (take 8 (drop 9 payload)) in
      let after = record f { r_nonce = nonce } in
      if ltb (length payload) 0x11
      then (ok none, f)
      else if not (length payload == (0x11 + mlen + 0x20) % 2 ^ 64)
      then (ok none, f)
      else if leb nonce f.r_nonce
      then (ok none, f)
      else (open_payload after payload mlen, after)
