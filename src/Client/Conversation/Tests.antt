-- ===== src/Client/Conversation/Tests.antt =====
-- Two friends with the same keys, and what a stranger can send.
use ibchat.Prelude.{
  plenty, ◌≤◌, ◌≡◌, refl, true, none, some, Bytes, [], ◌∷◌, ◌++◌, replicate, arith,
}
use ibchat.External.Samples.{libibur, ibcrypt}
use ibchat.Codec.{ok, undefined}
use ibchat.Crypto.Layer.Channel.{sealed}
use ibchat.Crypto.Handshake.Flow.{Hs, go}
use ibchat.Server.Auth.Messages.{after_send}
use ibchat.Client.Uname.{gen_uid}
use ibchat.Client.Friend.{Friend}
use ibchat.Client.Friendreq.Agreed.{AgreeTo}
use ibchat.Client.Samples.{bo, al}
use ibchat.Client.Conversation.{next_nonce, conv_body, conv_payload, cmessage_send_server}
use ibchat.Client.Conversation.Exchange.{
  parse, cmessage_send_server-parse, parse_conv_message_payload-forged,
  parse_conv_message_payload-wrapped,
}

program : Unit {0}
unfolding libibur ibcrypt next_nonce conv_body conv_payload
program = tt

-- The friend `bo` as its user's friend sees it: receiving with the keys that are sent with.
abbrev peer : Friend
peer = record al { r_symm_key = bo.s_symm_key; r_hmac_key = bo.s_hmac_key; r_nonce = 5 }

peer-AgreeTo : AgreeTo bo peer
peer-AgreeTo = record { symm = refl; hmac = refl }

abbrev side : Hs
side = record {
  keys = record {
    send_symm_key = 1 ∷ [];
    recv_symm_key = 1 ∷ [];
    send_hmac_key = 2 ∷ [];
    recv_hmac_key = 2 ∷ [];
    nonce = 0;
  };
  sent = [];
  res = 0;
}

-- "hi"
abbrev hi : Bytes
hi = 104 ∷ 105 ∷ []

abbrev hi_payload : Bytes
hi_payload = conv_payload libibur ibcrypt plenty (next_nonce bo) hi

cmessage_send_server-parse_example :
    (cmessage_send_server libibur ibcrypt plenty bo hi true side ≡ (
      (
        go tt,
        record side {
          keys = after_send side.keys;
          sent =
              sealed libibur ibcrypt plenty side.keys
                (0 ∷ gen_uid ibcrypt bo.uname ++ (libibur.encbe64 0x33 ++ hi_payload))
              ∷ [];
        },
      ),
      next_nonce bo,
    ))
    × (parse libibur ibcrypt peer hi_payload ≡ (
      ok (some (record { sender = 1; text = hi })),
      record peer { r_nonce = (next_nonce bo).s_nonce },
    ))
    × (parse libibur ibcrypt (record peer { r_nonce = (next_nonce bo).s_nonce }) hi_payload
        ≡ (ok none, record peer { r_nonce = (next_nonce bo).s_nonce }))
    × AgreeTo (next_nonce bo) (record peer { r_nonce = (next_nonce bo).s_nonce })
    × ((next_nonce bo).s_nonce ≤ (next_nonce bo).s_nonce)
cmessage_send_server-parse_example =
    cmessage_send_server-parse libibur ibcrypt bo peer hi side peer-AgreeTo (omega arith)
      (omega arith) (omega arith)

-- A message with the counter 2000 and no text, whose MAC is all zeros.
abbrev forged : Bytes
forged = 0 ∷ libibur.encbe64 2000 ++ (libibur.encbe64 0 ++ replicate 32 0)

parse_conv_message_payload-forged_example :
    (parse libibur ibcrypt peer forged ≡ (ok none, record peer { r_nonce = 2000 }))
    × (parse libibur ibcrypt
          (record peer { r_nonce = 2000 })
          (conv_payload libibur ibcrypt plenty bo hi)
        ≡ (ok none, record peer { r_nonce = 2000 }))
unfolding program
parse_conv_message_payload-forged_example =
    parse_conv_message_payload-forged libibur ibcrypt bo peer forged hi refl (omega arith)
      (omega arith) (λ same. ground arith) (omega arith) (omega arith)

-- 17 bytes, with a length field of 2 ^ 64 - 32
abbrev short : Bytes
short = 0 ∷ libibur.encbe64 2000 ++ libibur.encbe64 18446744073709551584

parse_conv_message_payload-wrapped_example : (parse libibur ibcrypt peer short).0 ≡ undefined
unfolding program
parse_conv_message_payload-wrapped_example =
    parse_conv_message_payload-wrapped libibur ibcrypt peer short (omega arith) (omega arith) refl
      (omega arith)
