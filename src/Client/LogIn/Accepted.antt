-- ===== src/Client/LogIn/Accepted.antt =====
-- A log-in of a client at a server: both sides are given what the other sends.
use ibchat.Prelude.{
  ℕ, ◌+◌, ◌^◌, ◌<◌, ◌≡◌, sym, true, some, Bytes, [], ◌∷◌, ◌++◌, length, length-append, ltb, leb,
  plenty, arith,
}
use ibchat.External.{Libibur, Ibcrypt, RsaKeys, IdentityKeys}
use ibchat.Crypto.Layer.{Keyset}
use ibchat.Crypto.Layer.Channel.{sealed}
use ibchat.Crypto.Handshake.Flow.{Hs, go}
use ibchat.Server.Auth.{cliauth}
use ibchat.Server.Auth.Accepts.{IsAnswer}
use ibchat.Server.Auth.Messages.{ArePaired, after_send, send_plain-sealed, received-sealed}
use ibchat.Client.Uname.{gen_uid, c_string}
use ibchat.Client.Account.{Account}
use ibchat.Client.Identity.{IsIdentity, IsIdentity-parsed}
use ibchat.Client.LogIn.{
  answer_size, key_bits, siglen_of, signed_text, send_login_message, get_server_authresponse,
}

module _ (lib : Libibur) (ib : Ibcrypt) (rsa : RsaKeys) (ids : IdentityKeys lib rsa) where
  open ids use {rsa_pubkey_bufsize}

  -- The account's key is one of ibcrypt's, and the calls that make its answer to the challenge succeed.
  pub record CanAnswer (acc : Account) (rkey wire key challenge sig : Bytes) (salt : ℕ)
      : Type 0 where
    pub identity : IsIdentity lib rsa ids acc.key_bin rkey key wire
    pub signed :
        rsa.rsa_pss_sign salt rkey (signed_text lib ib rsa ids plenty acc wire challenge) ≡ some sig
    pub challenge_size : length challenge ≡ 0x20
    pub small : answer_size lib ib rsa ids plenty acc + 40 < 2 ^ 64
    pub sig_some : 0 < siglen_of lib ib rsa ids plenty acc

  module _ (acc : Account) (rkey wire key challenge sig : Bytes) (salt : ℕ)
      (can : CanAnswer acc rkey wire key challenge sig salt) where
    abbrev text : Bytes
    text = signed_text lib ib rsa ids plenty acc wire challenge

    abbrev siglen : ℕ
    siglen = siglen_of lib ib rsa ids plenty acc

    length-sig : length sig ≡ siglen
    length-sig =
        ids.length-rsa_pss_sign salt acc.key_bin rkey text sig can.identity.expanded can.signed

    pub answer-IsAnswer :
        IsAnswer lib ib rsa plenty rsa_pubkey_bufsize
          (gen_uid ib acc.uname)
          wire
          challenge
          (lib.encbe64 siglen)
          sig
          key
    unfolding gen_uid
    answer-IsAnswer =
        let public = IsIdentity-parsed lib rsa ids acc.key_bin rkey key wire can.identity in
        record {
          uid_size = ib.length-sha256 _;
          challenge_size = can.challenge_size;
          sig_length_size = lib.length-encbe64 siglen;
          wire_size = rw (public.1) (sym public.2);
          wire_bits = public.3;
          sig_size = rw (lib.decbe64-encbe64 siglen (omega arith)) (sym length-sig);
          sig_some = omega (arith, length-sig, can.sig_some);
          small = omega (arith, length-sig, can.small, public.2);
          parsed = public.0;
          verified =
              rsa.rsa_pss_verify-rsa_pss_sign salt rkey key text sig can.identity.public_key
                can.signed;
        }

    abbrev pub answered : Hs → Hs
    answered c = record c {
      keys = after_send c.keys;
      sent = c.sent ++ (sealed lib ib plenty c.keys (text ++ sig) ∷ []);
    }

    length-wire : length wire ≡ rsa_pubkey_bufsize (key_bits lib ib rsa ids plenty acc)
    length-wire = (IsIdentity-parsed lib rsa ids acc.key_bin rkey key wire can.identity).2

    pub length-answer : length (text ++ sig) ≡ answer_size lib ib rsa ids plenty acc
    unfolding gen_uid
    length-answer =
        let uid = gen_uid ib acc.uname in
        let enc = lib.encbe64 siglen in
        omega (
          arith,
          length-append text sig,
          length-append uid (wire ++ (challenge ++ enc)),
          length-append wire (challenge ++ enc),
          length-append challenge enc,
          lib.length-encbe64 siglen,
          ib.length-sha256 (c_string acc.uname ++ (0 ∷ [])),
          length-wire,
          length-sig,
          can.challenge_size,
        )

    pub send_login_message-answers :
        (b : Keyset) (c : Hs)
        → ArePaired b c.keys
        → send_login_message lib ib rsa ids plenty acc rkey salt
            (some (sealed lib ib plenty b challenge))
            c
          ≡ (go tt, answered c)
    unfolding send_login_message
    send_login_message-answers b c paired =
        let fits : ltb (answer_size lib ib rsa ids plenty acc) (2 ^ 64) ≡ true =
          ground (arith, can.small) in
        let has_bits : leb 8 (length acc.key_bin) ≡ true = ground (arith, can.identity.bits) in
        rw
          (
            received-sealed lib ib rsa rsa_pubkey_bufsize b c challenge paired
                (omega (arith, can.challenge_size)),
            can.challenge_size,
            has_bits,
            fits,
            can.identity.public_wire,
            can.signed,
          )
          (send_plain-sealed lib ib rsa rsa_pubkey_bufsize (text ++ sig) c)

  pub get_server_authresponse-case :
      (b : Keyset) (c : Hs) (ret : ℕ)
      → ArePaired b c.keys
      → ret < 5
      → get_server_authresponse lib ib rsa ids plenty
          (some (sealed lib ib plenty b (cliauth ++ (ret ∷ []))))
          c
        ≡ (go ret, c)
  unfolding get_server_authresponse
  get_server_authresponse-case b c ret paired small =
      let fits : leb ret 4 ≡ true = ground arith in
      rw (
        received-sealed lib ib rsa rsa_pubkey_bufsize b c (cliauth ++ (ret ∷ [])) paired
            (omega arith),
        fits,
      )
