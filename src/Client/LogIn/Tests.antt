-- ===== src/Client/LogIn/Tests.antt =====
-- A known user and a new one at a server, with the sample external libraries.
use ibchat.Prelude.{
  plenty, ◌≡◌, refl, some, none, Bytes, [], ◌∷◌, ◌++◌, replicate, Bool, true, false, ℤ, pos, arith,
}
use ibchat.External.Samples.{libibur, ibcrypt}
use ibchat.External.Samples.Identity.{identity_rsa, identity_keys}
use ibchat.Buckets.{first}
use ibchat.Crypto.Layer.{Keyset, send_message, recv_message, encrypt_message, decrypt_message}
use ibchat.Crypto.Layer.Channel.{sealed}
use ibchat.Crypto.Handshake.Flow.{Run, Hs, Step, go}
use ibchat.Server.UserDb.{UserDb, init_user_db_st, resize, user_db_get_nolock, user_db_add_no_write}
use ibchat.Server.HandlerTable.{HandlerTable, hash_id, init_handler_table, get_handler}
use ibchat.Server.Auth.{cliauth, register, check_user, auth_client, prompt_user_register}
use ibchat.Server.Auth.Messages.{ArePaired, after_send}
use ibchat.Client.Uname.{gen_uid}
use ibchat.Client.Account.{Account}
use ibchat.Client.Samples.{account_with}
use ibchat.Client.LogIn.{
  signed_text, send_login_message, get_server_authresponse, prompt_verify_skey, login_session,
  create_session, login_account,
}
use ibchat.Client.LogIn.Accepted.{CanAnswer}
use ibchat.Client.LogIn.Entered.{
  server_end, client_end, client_registered, login_session-auth_client, create_session-auth_client,
}

program : Unit {0}
unfolding libibur ibcrypt identity_rsa identity_keys first init_user_db_st resize user_db_get_nolock
    user_db_add_no_write hash_id init_handler_table get_handler check_user gen_uid send_message
    recv_message encrypt_message decrypt_message send_login_message get_server_authresponse
    prompt_verify_skey login_session login_account
program = tt

-- 512 bits
abbrev me : Account
me = record (account_with []) { key_bin = 0 ∷ 0 ∷ 0 ∷ 0 ∷ 0 ∷ 0 ∷ 2 ∷ 0 ∷ 5 ∷ [] }

abbrev secret : Bytes
secret = 0 ∷ 0 ∷ 0 ∷ 0 ∷ 0 ∷ 2 ∷ 0 ∷ 5 ∷ []

abbrev challenge : Bytes
challenge = replicate 32 3

abbrev sig : Bytes
sig =
    elim (identity_rsa.rsa_pss_sign 0 secret
      (signed_text libibur ibcrypt identity_rsa identity_keys plenty me me.key_bin challenge)) [
        | none ↦ []
        | some s ↦ s
      ]

can :
    CanAnswer libibur ibcrypt identity_rsa identity_keys me secret me.key_bin secret challenge sig 0
unfolding program
can = record {
  identity = record { expanded = refl; public_wire = refl; public_key = refl; bits = omega arith };
  signed = refl;
  challenge_size = refl;
  small = omega arith;
  sig_some = omega arith;
}

abbrev keys : Keyset
keys = record {
  send_symm_key = 1 ∷ [];
  recv_symm_key = 1 ∷ [];
  send_hmac_key = 2 ∷ [];
  recv_hmac_key = 2 ∷ [];
  nonce = 0;
}

abbrev side : Hs
side = record { keys = keys; sent = []; res = 0 }

keys-ArePaired : ArePaired keys keys
keys-ArePaired = record {
  symm_to = refl;
  hmac_to = refl;
  symm_back = refl;
  hmac_back = refl;
  nonce_to = omega arith;
  nonce_back = omega arith;
}

abbrev no_users : UserDb
no_users = (init_user_db_st true (record { buckets = []; size = 0; elements = 0 })).1

abbrev users : UserDb
users =
    elim (user_db_add_no_write libibur ibcrypt true true
      (record { pkey = secret; uid = gen_uid ibcrypt me.uname; und_auth = replicate 32 9 })
      no_users) [ none ↦ no_users | some r ↦ r.1 ]

abbrev clients : HandlerTable
clients = (init_handler_table true (record { buckets = []; size = 0; elements = 0 })).1

abbrev server_after : Hs
server_after =
    server_end libibur ibcrypt identity_rsa identity_keys me secret me.key_bin secret challenge sig
      0 can 0 side

abbrev client_after : Hs
client_after =
    client_end libibur ibcrypt identity_rsa identity_keys me secret me.key_bin secret challenge sig
      0 can side

abbrev answer : Bytes
answer =
    signed_text libibur ibcrypt identity_rsa identity_keys plenty me me.key_bin challenge ++ sig

login_session-auth_client_example :
    (login_session libibur ibcrypt identity_rsa identity_keys plenty me secret 0
        (some (sealed libibur ibcrypt plenty keys challenge))
        (some (sealed libibur ibcrypt plenty (after_send keys) (cliauth ++ (0 ∷ []))))
        (pos 0)
        side
      ≡ (go tt, client_after))
    × (auth_client libibur ibcrypt identity_rsa plenty identity_keys.rsa_pubkey_bufsize users
          clients
          (some challenge)
          (some (sealed libibur ibcrypt plenty keys answer))
          side
        ≡ (go (gen_uid ibcrypt me.uname, secret, 0), server_after))
    × (client_after.sent ≡ sealed libibur ibcrypt plenty keys answer ∷ [])
    × (server_after.sent
        ≡ sealed libibur ibcrypt plenty keys challenge
          ∷ sealed libibur ibcrypt plenty (after_send keys) (cliauth ++ (0 ∷ []))
          ∷ [])
    × ArePaired client_after.keys server_after.keys
unfolding program
login_session-auth_client_example =
    login_session-auth_client libibur ibcrypt identity_rsa identity_keys me secret me.key_bin secret
      challenge sig 0 can users clients side side (pos 0) keys-ArePaired refl

create_session-auth_client_example :
    (let verdict = some (sealed libibur ibcrypt plenty (after_send keys) (cliauth ++ (1 ∷ []))) in
      let registered =
        client_registered libibur ibcrypt identity_rsa identity_keys me secret me.key_bin secret
          challenge sig 0 can side in
      let end =
        server_end libibur ibcrypt identity_rsa identity_keys me secret me.key_bin secret challenge
          sig 0 can 1 side in
      (create_session libibur ibcrypt identity_rsa identity_keys plenty me secret 0
          (some (sealed libibur ibcrypt plenty keys challenge))
          verdict
          side
        ≡ (go tt, registered))
      × (login_session libibur ibcrypt identity_rsa identity_keys plenty me secret 0
            (some (sealed libibur ibcrypt plenty keys challenge))
            verdict
            (pos 1)
            side
          ≡ (go tt, registered))
      × (auth_client libibur ibcrypt identity_rsa plenty identity_keys.rsa_pubkey_bufsize no_users
            clients
            (some challenge)
            (some (sealed libibur ibcrypt plenty keys answer))
            side
          ≡ (go (gen_uid ibcrypt me.uname, secret, 1), end))
      × (prompt_user_register libibur ibcrypt identity_rsa plenty identity_keys.rsa_pubkey_bufsize
            (some (sealed libibur ibcrypt plenty (after_send keys) register))
            end
          ≡ (go tt, end)))
unfolding program
create_session-auth_client_example =
    create_session-auth_client libibur ibcrypt identity_rsa identity_keys me secret me.key_bin
      secret challenge sig 0 can no_users clients side side keys-ArePaired refl

-- The log-in of a known user, over a connection whose handshake gave the key 5 5.
abbrev shake : Run (ℤ × Bytes)
shake s = (go (pos 0, 5 ∷ 5 ∷ []), side)

abbrev result : (Step (Unit {0}) × Hs) × Account × Bool
result =
    login_account libibur ibcrypt identity_rsa identity_keys plenty true shake (pos 1) 0
      (some (sealed libibur ibcrypt plenty keys challenge))
      (some (sealed libibur ibcrypt plenty (after_send keys) (cliauth ++ (0 ∷ [])))) (pos 0) me
      false side
