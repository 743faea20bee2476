-- ===== src/Client/RsaMessage.antt =====
-- Messages between users who are not friends yet (client/friendreq.c): keys for the receiver's RSA key,
-- under them the sender's name, key and further data with a MAC, and the sender's signature.
pub mod Layout
pub mod Fields
pub mod Kept
use ibchat.Prelude.{
  ℕ, zero, suc, ◌+◌, ◌-◌, ◌/◌, ◌%◌, ◌^◌, ◌==◌, ◌&&◌, Bool, true, false, Option, none, some, Bytes,
  List, [], ◌∷◌, ◌++◌, length, take, drop, leb, ltb, bytes_eq, ℤ, pos, failure,
}
use ibchat.External.{Libibur, Ibcrypt, RsaKeys, IdentityKeys, Oaep}
use ibchat.Crypto.Handshake.Flow.{Run, Hs, pure, ◌>>=◌, ◌>>◌, check, attempt, within}
use ibchat.Server.Auth.{send_plain, valid}
use ibchat.Client.Account.{Account}

module _ (lib : Libibur) (ib : Ibcrypt) (rsa : RsaKeys) (ids : IdentityKeys lib rsa)
    (oaep : Oaep lib rsa) (mem : ℕ → Bool) where
  open lib use {encbe64, decbe64}
  open ib use {hmac_sha256, chacha_enc, chacha_dec}
  open ids use {rsa_pubkey_bufsize, rsa_wire_prikey2pubkey, rsa_wire2prikey}
  open oaep use {rsa_oaep_encrypt, rsa_oaep_decrypt}

  -- (bits + 7) / 8 of a key's form, which starts with the bits
  abbrev pub block_size : Bytes → ℕ
  block_size key_bin = (decbe64 (take 8 key_bin) + 7) % 2 ^ 64 / 8

  abbrev pub public_size : Account → ℕ
  public_size acc = rsa_pubkey_bufsize (decbe64 (take 8 acc.key_bin))

  -- The sender's name and key and the further data, before encryption.
  abbrev pub fields : Account → Bytes → Bytes → Bytes
  fields acc my_key ex_data =
      encbe64 (length acc.uname) ++ (encbe64 (length my_key) ++ (acc.uname ++ (my_key ++ ex_data)))

  -- `keys` has the key of the cipher and that of the MAC.
  abbrev pub enciphered : Bytes → Bytes → Bytes
  enciphered keys text = chacha_enc (take 32 keys) 0 text

  -- All that the signature signs.
  abbrev pub signed_part : ℕ → Bytes → Bytes → Bytes → Bytes
  signed_part m_type block keys text =
      (m_type ∷ [])
      ++ (encbe64 (length block)
          ++ (encbe64 (length text + 0x20)
              ++ (block
                  ++ (enciphered keys text ++ hmac_sha256 (drop 32 keys) (enciphered keys text)))))

  abbrev pub payload_len : Account → Bytes → ℕ
  payload_len acc ex_data = 0x10 + length acc.uname + public_size acc + length ex_data

  abbrev pub request_len : Account → Bytes → Bytes → ℕ
  request_len acc pkey ex_data =
      0x29 + 0x11 + block_size pkey + payload_len acc ex_data + 0x20 + block_size acc.key_bin

  -- `drawn` is the answer of `cs_rand`, `up` whether the network lock is given.
  unfoldable pub send_rsa_message :
      ℕ → Account → Bytes → Bytes → Bytes → Option Bytes → ℕ → ℕ → Bool → Run (Unit {0})
  send_rsa_message m_type acc target pkey ex_data drawn salt_e salt_s up = do
    within (leb 8 (length pkey) && leb 8 (length acc.key_bin))
    check failure (mem (request_len acc pkey ex_data % 2 ^ 64))
    within (ltb (request_len acc pkey ex_data) (2 ^ 64))
    keys ← attempt failure drawn
    rec_key ← attempt failure (rsa.rsa_wire2pubkey pkey)
    block ← attempt failure (rsa_oaep_encrypt salt_e rec_key keys)
    check failure (mem (public_size acc))
    my_key ← attempt failure (rsa_wire_prikey2pubkey acc.key_bin)
    let signed = signed_part m_type block keys (fields acc my_key ex_data)
    sig_key ← attempt failure (rsa_wire2prikey acc.key_bin)
    sig ← attempt failure (rsa.rsa_pss_sign salt_s sig_key signed)
    check failure up
    send_plain lib ib rsa mem rsa_pubkey_bufsize
        (0 ∷ target ++ (encbe64 (request_len acc pkey ex_data - 0x29) ++ (signed ++ sig)))

  -- The lengths of the block of keys and of the data with its MAC.
  unfoldable pub parse_lens : Bytes → Run (ℕ × ℕ)
  parse_lens p = do
    within (leb 17 (length p))
    let kb_len = decbe64 (take 8 (drop 1 p))
    let db_len = decbe64 (take 8 (drop 9 p))
    check (pos 1) (ltb ((kb_len + db_len + 17) % 2 ^ 64) (length p))
    pure (kb_len, db_len)

  unfoldable pub open_keys : Account → Bytes → ℕ → Run Bytes
  open_keys acc p kb_len = do
    rkey ← attempt failure (rsa_wire2prikey acc.key_bin)
    within (leb (17 + kb_len) (length p))
    attempt (pos 1) (rsa_oaep_decrypt rkey (take kb_len (drop 17 p)))

  -- What stands from the data on, with the data deciphered in its place. A length below that of the
  -- MAC makes a length of the text that is past every buffer.
  unfoldable pub open_data : Bytes → Bytes → ℕ → Run Bytes
  open_data keys data_on db_len = do
    within (leb 32 db_len && leb db_len (length data_on))
    let text = take (db_len - 32) data_on
    let after = drop (db_len - 32) data_on
    check (pos 1) (bytes_eq (hmac_sha256 (drop 32 keys) text) (take 32 after))
    pure (chacha_dec (take 32 keys) 0 text ++ after)

  -- The name, the key and `ed_len` bytes of further data.
  unfoldable pub read_fields : Bytes → ℕ → Run (Bytes × Bytes × Bytes)
  read_fields work ed_len = do
    within (leb 16 (length work))
    let u_len = decbe64 (take 8 work)
    let k_len = decbe64 (take 8 (drop 8 work))
    check failure (mem ((u_len + 1) % 2 ^ 64) && mem k_len)
    within (leb (16 + u_len + k_len + ed_len) (length work))
    pure (
      take u_len (drop 16 work),
      take k_len (drop (16 + u_len) work),
      take ed_len (drop (16 + u_len + k_len) work),
    )

  -- The signature, of the payload with its data enciphered again.
  unfoldable pub check_sender : Bytes → Bytes → ℕ → ℕ → Bytes → Bytes → Run (Unit {0})
  check_sender p keys kb_len db_len work k_data = do
    within (leb 8 (length k_data))
    let siglen = block_size k_data
    check (pos 1) (length p == (kb_len + db_len + 17 + siglen) % 2 ^ 64)
    pkey ← attempt (pos 1) (rsa.rsa_wire2pubkey k_data)
    within (leb siglen (length p))
    let again =
        take (17 + kb_len) p
        ++ (enciphered keys (take (db_len - 32) work) ++ drop (db_len - 32) work)
    check (pos 1) (
        valid lib ib rsa mem rsa_pubkey_bufsize (
          rsa.rsa_pss_verify pkey (drop (length p - siglen) again)
            (take (length p - siglen) again)))
    pure tt

  -- What stands in a message for this account, before its signature is checked: the lengths of the
  -- block and of the data, the keys, the deciphered data, and the sender's name, key and further data.
  unfoldable pub open_message :
      Account → Bytes → ℕ → Run ((ℕ × ℕ) × Bytes × Bytes × (Bytes × Bytes × Bytes))
  open_message acc p ed_len = do
    lens ← parse_lens p
    keys ← open_keys acc p lens.0
    work ← open_data keys (drop (17 + lens.0) p) lens.1
    found ← read_fields work ed_len
    pure (lens, keys, work, found)

  -- A return of 0 with the name, the key and the further data of the sender; 1 is an invalid message.
  unfoldable pub parse_rsa_message : Account → Bytes → ℕ → Run (Bytes × Bytes × Bytes)
  parse_rsa_message acc p ed_len = do
    o ← open_message acc p ed_len
    check_sender p o.1 (o.0).0 (o.0).1 o.2 (o.3).1
    pure o.3
