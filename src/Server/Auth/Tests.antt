-- ===== src/Server/Auth/Tests.antt =====
-- A known user who logs in, with the sample external libraries.
use ibchat.Prelude.{plenty, ◌≡◌, refl, true, false, none, some, Bytes, [], ◌∷◌, ◌++◌, replicate}
use ibchat.External.Samples.{libibur, ibcrypt, rsa}
use ibchat.External.Samples.Keys.{rsa_keys}
use ibchat.Buckets.{first}
use ibchat.Files.{Files}
use ibchat.Inet.Connection.{Message}
use ibchat.Crypto.Layer.{Keyset, encrypt_message, decrypt_message, send_message, recv_message}
use ibchat.Crypto.Layer.Channel.{sealed}
use ibchat.Crypto.Handshake.Flow.{Hs}
use ibchat.Server.Undelivered.{User}
use ibchat.Server.UserDb.{UserDb, init_user_db_st, resize, user_db_get_nolock, user_db_add_no_write}
use ibchat.Server.HandlerTable.{HandlerTable, hash_id, init_handler_table, get_handler}
use ibchat.Server.Auth.{
  check_user, check_keylen, check_challenge, check_siglen, check_signature, check_answer, tell_case,
  auth_client, auth_user,
}
use ibchat.Server.Auth.Proven.{Proven, key_len}
use ibchat.Server.Auth.LogIn.{Entered, auth_user-Entered}

program : Unit {0}
unfolding libibur ibcrypt rsa rsa_keys first encrypt_message decrypt_message send_message
    recv_message init_user_db_st resize user_db_get_nolock user_db_add_no_write hash_id
    init_handler_table get_handler check_user check_keylen check_challenge check_siglen
    check_signature check_answer tell_case auth_client auth_user
program = tt

abbrev key : Bytes
key = 1 ∷ 2 ∷ 3 ∷ 4 ∷ 5 ∷ 6 ∷ 7 ∷ 8 ∷ []

abbrev name : Bytes
name = replicate 32 7

abbrev person : User
person = record { pkey = key; uid = name; und_auth = replicate 32 9 }

abbrev no_users : UserDb
no_users = (init_user_db_st true (record { buckets = []; size = 0; elements = 0 })).1

abbrev users : UserDb
users = elim (user_db_add_no_write libibur ibcrypt true true person no_users) [
  | none ↦ no_users
  | some r ↦ r.1
]

abbrev clients : HandlerTable
clients = (init_handler_table true (record { buckets = []; size = 0; elements = 0 })).1

abbrev no_files : Files
no_files = record { file = λ q. none; denied = λ q. false }

abbrev keys : Keyset
keys = record {
  send_symm_key = 1 ∷ [];
  recv_symm_key = 1 ∷ [];
  send_hmac_key = 2 ∷ [];
  recv_hmac_key = 2 ∷ [];
  nonce = 0;
}

abbrev start : Hs
start = record { keys = keys; sent = []; res = 0 }

abbrev challenge : Bytes
challenge = replicate 32 3

abbrev signed : Bytes
signed = name ++ ((1 ∷ key) ++ (challenge ++ libibur.encbe64 4))

abbrev response : Message
response =
    sealed libibur ibcrypt plenty keys
      (signed ++ elim (rsa_keys.rsa_pss_sign 0 key signed) [ none ↦ [] | some sig ↦ sig ])

abbrev finish : Hs
finish =
    (auth_client libibur ibcrypt rsa_keys plenty (λ n. 9) users clients (some challenge)
      (some response) start).1

auth_user-Entered_example :
    (k c m : Bytes) × (some challenge ≡ some c)
    × Proven libibur ibcrypt rsa_keys plenty
        (λ n. 9)
        (key_len libibur ibcrypt rsa_keys plenty (λ n. 9) m)
        c
        m
        name
        k
    × Entered libibur ibcrypt rsa_keys plenty
        (λ n. 9)
        rsa
        1
        2
        []
        []
        none
        true
        true
        true
        person
        users
        clients
        no_files
        none
        name
        k
        users
        no_files
unfolding program
auth_user-Entered_example =
    auth_user-Entered libibur ibcrypt rsa_keys plenty (λ n. 9) rsa 1 2 [] [] none true true true
      person users clients no_files (some challenge) (some response) none name start finish users
      no_files refl
