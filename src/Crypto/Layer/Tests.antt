-- ===== src/Crypto/Layer/Tests.antt =====
-- A key buffer of 128 different bytes, with the sample external libraries.
use ibchat.Prelude.{
  ℕ, zero, suc, ◌≡◌, refl, inl, Bool, true, arith, [], ◌∷◌, ◌++◌, some, none, Bytes, success,
}
use ibchat.External.Samples.{libibur, ibcrypt}
use ibchat.Inet.Connection.{Message}
use ibchat.Crypto.Layer.{
  Keyset, expand_keyset, encrypt_message, decrypt_message, send_message, recv_message,
}
use ibchat.Crypto.Layer.Channel.{sealed, recv_message-send_message, recv_message-forged}

abbrev memory : ℕ → Bool
memory n = true

abbrev count_down : ℕ → Bytes
count_down zero = []
count_down (suc n) = n ∷ count_down n

abbrev no_keys : Keyset
no_keys = record {
  send_symm_key = [];
  recv_symm_key = [];
  send_hmac_key = [];
  recv_hmac_key = [];
  nonce = 7;
}

abbrev hello : Bytes
hello = 104 ∷ 105 ∷ []

recv_message-send_message_example :
    (let client = expand_keyset (count_down 128) 0 no_keys in
      let server = expand_keyset (count_down 128) 1 no_keys in
      let back = record server { nonce = 7 } in
      (send_message libibur ibcrypt memory client hello [] ≡ (
        success,
        record client { nonce = 8 },
        [] ++ (sealed libibur ibcrypt memory client hello ∷ []),
      ))
      × ((sealed libibur ibcrypt memory client hello).seq_num ≡ 7)
      × (recv_message libibur ibcrypt memory server (sealed libibur ibcrypt memory client hello)
          ≡ some hello)
      × (recv_message libibur ibcrypt memory client (sealed libibur ibcrypt memory back hello)
          ≡ some hello))
recv_message-send_message_example =
    recv_message-send_message libibur ibcrypt memory (count_down 128) hello no_keys no_keys []
      (omega arith) (omega arith) refl refl refl

abbrev short : Message
short = record { seq_num = 1; message = hello }

recv_message-forged_example : recv_message libibur ibcrypt memory no_keys short ≡ none
recv_message-forged_example =
    recv_message-forged libibur ibcrypt memory no_keys short (inl (omega arith))

-- Another authentication key does not open the message.
wrong_key :
    recv_message libibur ibcrypt memory
      (record (expand_keyset (count_down 128) 1 no_keys) { recv_hmac_key = hello })
      (sealed libibur ibcrypt memory (expand_keyset (count_down 128) 0 no_keys) hello)
    ≡ none
unfolding libibur ibcrypt expand_keyset encrypt_message decrypt_message recv_message
wrong_key = refl
