-- ===== src/Client/Friendreq/Agreed.antt =====
-- Two users who become friends by a response have each other's names and keys, and the same keys for
-- their conversation.
use ibchat.Prelude.{
  ℕ, ◌≡◌, refl, sym, ap, ◌∙◌, true, none, some, Option, Bytes, [], ◌∷◌, ◌++◌, length, plenty,
  success, arith,
}
use ibchat.External.{Libibur, Ibcrypt, RsaKeys, IdentityKeys, Oaep}
use ibchat.Files.{Files}
use ibchat.Codec.{ok}
use ibchat.Crypto.Layer.Channel.{sealed}
use ibchat.Crypto.Handshake.Flow.{Hs}
use ibchat.Server.Auth.Messages.{after_send}
use ibchat.Client.Account.{Account}
use ibchat.Client.Friend.{Friend}
use ibchat.Client.Uname.{gen_uid}
use ibchat.Client.Notif.{Friendreq, response}
use ibchat.Client.NotifFile.{Client, add_notif}
use ibchat.Client.FriendFile.{add_friend, new_friend, init_friend}
use ibchat.Client.RsaMessage.Kept.{
  CanSend, sent_payload, sent_text, parse_rsa_message-send_rsa_message, open_message-payload,
  check_sender-sent,
}
use ibchat.Client.Friendreq.{with_sent_keys, with_received_keys, parse_friendreq_response}
use ibchat.Client.Friendreq.Send.{friendreq_send_resp_message, friendreq_send_response}
use ibchat.Client.Friendreq.Unchanged.{add_friend-acc, add_notif-acc}

init_friend-pkey :
    (ib : Ibcrypt) (random : Option Bytes) (uname pkey : Bytes) (u_len : ℕ) (f : Friend)
    → init_friend ib plenty random uname pkey u_len ≡ ok f
    → f.pkey ≡ pkey
unfolding init_friend new_friend
init_friend-pkey ib none uname pkey u_len f e = absurd (ground arith)
init_friend-pkey ib (some r) uname pkey u_len f e = ground arith

-- The keys that `f` sends with are those that `g` receives with.
pub record AgreeTo (f g : Friend) : Type 0 where
  pub symm : f.s_symm_key ≡ g.r_symm_key
  pub hmac : f.s_hmac_key ≡ g.r_hmac_key

module _ (lib : Libibur) (ib : Ibcrypt) (rsa : RsaKeys) (ids : IdentityKeys lib rsa)
    (oaep : Oaep lib rsa) (root_dir : Bytes) where
  -- The responder `cb` and the one who asked, `ca`, with what the calls on both sides give.
  pub record CanRespond (ca cb : Client)
      (key_a k_a wire_a key_b k_b wire_b keys block ex sig : Bytes) (salt_e salt_s : ℕ)
      (c_file_a c_file_b random_a random_b random_n : Option Bytes) (fa fb : Friend)
      (acc_a acc_b : Account) (fs_a fs_b : Files) (end : Client) : Type 0 where
    pub sends :
        CanSend lib ib rsa ids oaep 2 cb.acc ca.acc key_b k_b wire_b key_a k_a wire_a keys block ex
          sig salt_e salt_s
    pub ex_size : length ex ≡ 0x80
    pub made_b : init_friend ib plenty c_file_b ca.acc.uname wire_a (length ca.acc.uname) ≡ ok fb
    pub made_a : init_friend ib plenty c_file_a cb.acc.uname wire_b (length cb.acc.uname) ≡ ok fa
    pub added_b :
        add_friend lib ib plenty root_dir random_b (with_sent_keys ex fb) cb.acc cb.files
        ≡ (ok tt, acc_b, fs_b)
    pub added_a :
        add_friend lib ib plenty root_dir random_a (with_received_keys ex fa) ca.acc ca.files
        ≡ (ok tt, acc_a, fs_a)
    pub told :
        add_notif lib ib plenty root_dir random_n
          (response (with_received_keys ex fa))
          (record ca { acc = acc_a; files = fs_a })
        ≡ (ok tt, end)

  module _ (ca cb : Client) (key_a k_a wire_a key_b k_b wire_b keys block ex sig : Bytes)
      (salt_e salt_s : ℕ) (c_file_a c_file_b random_a random_b random_n : Option Bytes)
      (fa fb : Friend) (acc_a acc_b : Account) (fs_a fs_b : Files) (end : Client)
      (can : CanRespond ca cb key_a k_a wire_a key_b k_b wire_b keys block ex sig salt_e salt_s
        c_file_a c_file_b random_a random_b random_n fa fb acc_a acc_b fs_a fs_b end) where
    abbrev pub asked : Friendreq
    asked = record { uname = ca.acc.uname; pkey = wire_a }

    abbrev pub payload : Bytes
    payload =
        sent_payload lib ib rsa ids oaep 2 cb.acc ca.acc key_b k_b wire_b key_a k_a wire_a keys
          block ex sig salt_e salt_s can.sends

    friendreq_send_response-sends :
        (s : Hs)
        → friendreq_send_response lib ib rsa ids oaep plenty root_dir c_file_b
            (some ex)
            (some keys)
            salt_e
            salt_s
            true
            random_b
            asked
            cb
            s
          ≡ (
            (ok success, record cb { acc = acc_b; files = fs_b }),
            record s {
              keys = after_send s.keys;
              sent =
                  s.sent
                  ++ (sealed lib ib plenty s.keys (
                        sent_text lib ib rsa ids oaep 2 cb.acc ca.acc key_b k_b wire_b key_a k_a
                          wire_a keys block ex sig salt_e salt_s can.sends
                          (gen_uid ib ca.acc.uname))
                      ∷ []);
            },
          )
    unfolding friendreq_send_response friendreq_send_resp_message
    friendreq_send_response-sends s =
        let both =
          parse_rsa_message-send_rsa_message lib ib rsa ids oaep 2 cb.acc ca.acc key_b k_b wire_b
            key_a k_a wire_a keys block ex sig salt_e salt_s can.sends (gen_uid ib ca.acc.uname) s
            s in
        rw (can.made_b, both.0, can.added_b) refl

    parse_friendreq_response-parses :
        (r : Hs)
        → parse_friendreq_response lib ib rsa ids oaep plenty root_dir c_file_a random_a random_n
            payload r ca
          ≡ (ok tt, end)
    unfolding parse_friendreq_response
    parse_friendreq_response-parses r =
        let opened =
          open_message-payload lib ib rsa ids oaep 2 cb.acc ca.acc key_b k_b wire_b key_a k_a wire_a
            keys block ex sig salt_e salt_s can.sends r in
        let checked =
          check_sender-sent lib ib rsa ids oaep 2 cb.acc ca.acc key_b k_b wire_b key_a k_a wire_a
            keys block ex sig salt_e salt_s can.sends r in
        rw (← can.ex_size, opened, checked, can.made_a, can.added_a, can.told) refl

    -- The response to a friend request makes two friends who can talk. The user who responds sends one
    -- message to the server and has the other as the last friend; the user who gets the payload of
    -- that message has the first as the last friend, and a notification; each has the other's public
    -- key, and the keys that each sends with are those that the other receives with. Memory is
    -- granted, and the calls of the libraries and the writes of the files succeed.
    pub friendreq_send_response-AgreeTo :
        (s r : Hs)
        → (let by_b = with_sent_keys ex fb in
            let by_a = with_received_keys ex fa in
            let sent =
              friendreq_send_response lib ib rsa ids oaep plenty root_dir c_file_b
                (some ex)
                (some keys)
                salt_e
                salt_s
                true
                random_b
                asked
                cb
                s in
            ((sent.0).0 ≡ ok success)
            × ((sent.1).sent
                ≡ s.sent
                  ++ (sealed lib ib plenty s.keys
                        (0 ∷ gen_uid ib ca.acc.uname ++ (lib.encbe64 (length payload) ++ payload))
                      ∷ []))
            × (((sent.0).1).acc ≡ record cb.acc { friends = cb.acc.friends ++ (by_b ∷ []) })
            × (parse_friendreq_response lib ib rsa ids oaep plenty root_dir c_file_a random_a
                  random_n payload r ca
                ≡ (ok tt, end))
            × (end.acc ≡ record ca.acc { friends = ca.acc.friends ++ (by_a ∷ []) })
            × (by_b.pkey ≡ wire_a)
            × (by_a.pkey ≡ wire_b)
            × AgreeTo by_b by_a
            × AgreeTo by_a by_b)
    unfolding with_sent_keys with_received_keys
    friendreq_send_response-AgreeTo s r =
        let sent = friendreq_send_response-sends s in
        (
          ap (λ w. (w.0).0) sent,
          ap (λ w. (w.1).sent) sent,
          ap (λ w. ((w.0).1).acc) sent
              ∙ add_friend-acc lib ib plenty root_dir random_b (with_sent_keys ex fb) cb.acc acc_b
                  cb.files fs_b (ok tt) can.added_b,
          parse_friendreq_response-parses r,
          sym (ap (λ w. w.1.acc) can.told)
              ∙ (add_notif-acc lib ib plenty root_dir random_n (response (with_received_keys ex fa))
                    (record ca { acc = acc_a; files = fs_a })
                  ∙ add_friend-acc lib ib plenty root_dir random_a (with_received_keys ex fa) ca.acc
                      acc_a ca.files fs_a (ok tt) can.added_a),
          init_friend-pkey ib c_file_b ca.acc.uname wire_a (length ca.acc.uname) fb can.made_b,
          init_friend-pkey ib c_file_a cb.acc.uname wire_b (length cb.acc.uname) fa can.made_a,
          record { symm = refl; hmac = refl },
          record { symm = refl; hmac = refl },
        )
