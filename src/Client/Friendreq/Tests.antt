-- ===== src/Client/Friendreq/Tests.antt =====
-- A friend request that is answered, with the sample external libraries.
use ibchat.Prelude.{
  plenty, ◌≡◌, ◌≢◌, refl, ◌++◌, take, drop, pos, negsuc, ℕ, some, Bytes, [], ◌∷◌, length, true,
  success,
}
use ibchat.External.Samples.{libibur, ibcrypt}
use ibchat.External.Samples.Identity.{identity_rsa, identity_keys, oaep}
use ibchat.Codec.{Verdict, ok, error, undefined}
use ibchat.Files.{Files, store, can_create}
use ibchat.Crypto.Layer.{send_message, encrypt_message}
use ibchat.Crypto.Layer.Channel.{sealed}
use ibchat.Crypto.Handshake.Flow.{Hs, go}
use ibchat.Server.Auth.Messages.{after_send}
use ibchat.Client.Account.{Account}
use ibchat.Client.Friend.{Friend, friend_bin_size, friend_write_bin}
use ibchat.Client.Uname.{gen_uid}
use ibchat.Client.DataFile.{
  write_datafile, file_contents, fill_prefix, keys_of, payload_length, write_items, seal_payload,
}
use ibchat.Client.Notif.{response, notif_bin_len, notif_bin_write}
use ibchat.Client.NotifFile.{
  Client, nf_format, write_notiffile, written_notifs, insert_notif, add_notif,
}
use ibchat.Client.Paths.{file_path}
use ibchat.Client.FriendFile.{
  ff_format, friendfile_path, write_friendfile, add_friend, new_friend, init_friend,
}
use ibchat.Client.RsaMessage.{send_rsa_message, parse_rsa_message}
use ibchat.Client.RsaMessage.Kept.{sent_payload, sent_text, parse_rsa_message-send_rsa_message}
use ibchat.Client.Friendreq.{with_sent_keys, with_received_keys, parse_friendreq_response}
use ibchat.Client.Friendreq.Send.{
  friendreq_send_response, key_size, send_pkey_req, check_pkey_resp, send_friendreq,
}
use ibchat.Client.Friendreq.Confirmed.{send_friendreq-confirmed}
use ibchat.Client.Friendreq.Agreed.{CanRespond, AgreeTo, friendreq_send_response-AgreeTo}
use ibchat.Client.Samples.{bo, random, root_dir}
use ibchat.Client.Friendreq.Samples.{
  wire_of, key_of, user, alice, bob, keys, shared, sig, sends, side,
}

program : Unit {0}
unfolding libibur ibcrypt identity_rsa identity_keys oaep gen_uid store can_create file_path
    friend_bin_size friend_write_bin write_datafile file_contents fill_prefix keys_of payload_length
    write_items seal_payload notif_bin_len notif_bin_write nf_format write_notiffile written_notifs
    insert_notif add_notif ff_format friendfile_path write_friendfile add_friend new_friend
    init_friend with_sent_keys with_received_keys send_message encrypt_message send_rsa_message
    send_pkey_req check_pkey_resp send_friendreq
program = tt

abbrev payload : Bytes
payload =
    sent_payload libibur ibcrypt identity_rsa identity_keys oaep 2 (user 98) (user 97) (key_of 98)
      (key_of 98) (wire_of 98) (key_of 97) (key_of 97) (wire_of 97) keys keys shared sig 0 0 sends

abbrev message : Bytes → Bytes
message =
    sent_text libibur ibcrypt identity_rsa identity_keys oaep 2 (user 98) (user 97) (key_of 98)
      (key_of 98) (wire_of 98) (key_of 97) (key_of 97) (wire_of 97) keys keys shared sig 0 0 sends

parse_rsa_message-send_rsa_message_example :
    (send_rsa_message libibur ibcrypt identity_rsa identity_keys oaep plenty 2
        (user 98)
        (gen_uid ibcrypt (97 ∷ []))
        (wire_of 97)
        shared
        (some keys)
        0
        0
        true
        side
      ≡ (
        go tt,
        record side {
          keys = after_send side.keys;
          sent = sealed libibur ibcrypt plenty side.keys (message (gen_uid ibcrypt (97 ∷ []))) ∷ [];
        },
      ))
    × (parse_rsa_message libibur ibcrypt identity_rsa identity_keys oaep plenty
          (user 97)
          payload
          128
          side
        ≡ (go (98 ∷ [], wire_of 98, shared), side))
parse_rsa_message-send_rsa_message_example =
    parse_rsa_message-send_rsa_message libibur ibcrypt identity_rsa identity_keys oaep 2 (user 98)
      (user 97) (key_of 98) (key_of 98) (wire_of 98) (key_of 97) (key_of 97) (wire_of 97) keys keys
      shared sig 0 0 sends (gen_uid ibcrypt (97 ∷ [])) side side

abbrev friend_or_bo : Verdict Friend → Friend
friend_or_bo (ok f) = f
friend_or_bo error = bo
friend_or_bo undefined = bo

abbrev made : ℕ → Friend
made n = friend_or_bo (init_friend ibcrypt plenty (some random) (n ∷ []) (wire_of n) 1)

abbrev added_b : Verdict (Unit {0}) × Account × Files
added_b =
    add_friend libibur ibcrypt plenty root_dir (some random) (with_sent_keys shared (made 97))
      bob.acc bob.files

abbrev added_a : Verdict (Unit {0}) × Account × Files
added_a =
    add_friend libibur ibcrypt plenty root_dir (some random) (with_received_keys shared (made 98))
      alice.acc alice.files

abbrev end : Client
end =
    (add_notif libibur ibcrypt plenty root_dir (some random)
      (response (with_received_keys shared (made 98)))
      (record alice { acc = added_a.1; files = added_a.2 })).1

can :
    CanRespond libibur ibcrypt identity_rsa identity_keys oaep root_dir alice bob
      (key_of 97)
      (key_of 97)
      (wire_of 97)
      (key_of 98)
      (key_of 98)
      (wire_of 98)
      keys
      keys
      shared
      sig
      0
      0
      (some random)
      (some random)
      (some random)
      (some random)
      (some random)
      (made 98)
      (made 97)
      added_a.1
      added_b.1
      added_a.2
      added_b.2
      end
unfolding program
can = record {
  sends = sends;
  ex_size = refl;
  made_b = refl;
  made_a = refl;
  added_b = refl;
  added_a = refl;
  told = refl;
}

friendreq_send_response-AgreeTo_example :
    (let by_b = with_sent_keys shared (made 97) in
      let by_a = with_received_keys shared (made 98) in
      let sent =
        friendreq_send_response libibur ibcrypt identity_rsa identity_keys oaep plenty root_dir
          (some random)
          (some shared)
          (some keys)
          0
          0
          true
          (some random)
          (record { uname = 97 ∷ []; pkey = wire_of 97 })
          bob
          side in
      ((sent.0).0 ≡ ok success)
      × ((sent.1).sent
          ≡ sealed libibur ibcrypt plenty side.keys
              (0 ∷ gen_uid ibcrypt (97 ∷ []) ++ (libibur.encbe64 (length payload) ++ payload))
            ∷ [])
      × (((sent.0).1).acc ≡ record (user 98) { friends = by_b ∷ [] })
      × (parse_friendreq_response libibur ibcrypt identity_rsa identity_keys oaep plenty root_dir
            (some random)
            (some random)
            (some random)
            payload
            side
            alice
          ≡ (ok tt, end))
      × (end.acc ≡ record (user 97) { friends = by_a ∷ [] })
      × (by_b.pkey ≡ wire_of 97)
      × (by_a.pkey ≡ wire_of 98)
      × AgreeTo by_b by_a
      × AgreeTo by_a by_b)
friendreq_send_response-AgreeTo_example =
    friendreq_send_response-AgreeTo libibur ibcrypt identity_rsa identity_keys oaep root_dir alice
      bob (key_of 97) (key_of 97) (wire_of 97) (key_of 98) (key_of 98) (wire_of 98) keys keys shared
      sig 0 0 (some random) (some random) (some random) (some random) (some random) (made 98)
      (made 97) added_a.1 added_b.1 added_a.2 added_b.2 end can side side

-- What the server says of alice.
abbrev pkey_resp : Bytes
pkey_resp = 1 ∷ gen_uid ibcrypt (97 ∷ []) ++ wire_of 97

abbrev requested : Hs
requested =
    (send_friendreq libibur ibcrypt identity_rsa identity_keys oaep plenty root_dir (some (97 ∷ []))
      true (some pkey_resp) (pos 1) (some keys) 0 0 true (user 98) side).1

send_friendreq-confirmed_example :
    (uname m : Bytes) × (mid : Hs) × (some (97 ∷ []) ≡ some uname)
    × (some pkey_resp ≡ some m)
    × (take 32 (drop 1 m) ≡ gen_uid ibcrypt uname)
    × (pos 1 ≢ pos 0)
    × (pos 1 ≢ negsuc 0)
    × (send_rsa_message libibur ibcrypt identity_rsa identity_keys oaep plenty 1
          (user 98)
          (gen_uid ibcrypt uname)
          (take
            (key_size libibur ibcrypt identity_rsa identity_keys oaep plenty root_dir m)
            (drop 0x21 m))
          []
          (some keys)
          0
          0
          true
          mid
        ≡ (go tt, requested))
unfolding program
send_friendreq-confirmed_example =
    send_friendreq-confirmed libibur ibcrypt identity_rsa identity_keys oaep plenty root_dir
      (some (97 ∷ [])) (some pkey_resp) (some keys) true true (pos 1) 0 0 (user 98) side requested
      refl
