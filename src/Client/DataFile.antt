-- ===== src/Client/DataFile.antt =====
-- client/datafile.c: a list of items in an encrypted file. A prefix has the number of items, the
-- length of the payload, random bytes, what the format adds, and a MAC; then come the encrypted
-- payload and the MAC of all that.
pub mod Argument
pub mod Image
pub mod Kept
pub mod Refused
use ibchat.Prelude.{
  Fallible, ℕ, ◌+◌, ◌-◌, ◌%◌, ◌^◌, ◌==◌, Bool, true, false, Option, none, some, Bytes, List, [],
  ◌∷◌, ◌++◌, bytes_eq, length, take, drop, ltb, if◌then◌else◌, pure, guard, ◌>>=◌, ◌>>◌,
}
use ibchat.External.{Libibur, Ibcrypt}
use ibchat.Stdio.{Stream, Io, fread_bytes}
use ibchat.Files.{Files, store, open_old, can_create}
use ibchat.Codec.{Verdict, ok, error, undefined, Parse, items}

-- `struct format_desc`, for items of type `A`. `Arg` is what `arg` points to; the two functions for
-- the keys may change it. They take the bytes that the format added to the prefix.
pub record FormatDesc (Arg A : Type 0) : Type 0 where
  pub pref_len : ℕ
  pub p_fill : Arg → Option Bytes
  pub s_key : Arg → Bytes → Option Bytes × Arg
  pub h_key : Arg → Bytes → Option Bytes × Arg
  pub datalen : A → ℕ
  pub datawrite : A → Option Bytes
  pub dataread : Arg → Parse A

module _ {Arg A : Type 0} (f : FormatDesc Arg A) where
  abbrev both : Bytes → Option Bytes × Arg → Option (Bytes × Bytes) × Arg
  both symm (none, arg) = (none, arg)
  both symm (some hmac, arg) = (some (symm, hmac), arg)

  abbrev then_h_key : Bytes → Option Bytes × Arg → Option (Bytes × Bytes) × Arg
  then_h_key extra (none, arg) = (none, arg)
  then_h_key extra (some symm, arg) = both symm (f.h_key arg extra)

  -- `s_key`, and `h_key` if that succeeds.
  unfoldable pub keys_of : Arg → Bytes → Option (Bytes × Bytes) × Arg
  keys_of arg extra = then_h_key extra (f.s_key arg extra)

  unfoldable pub payload_length : List A → ℕ
  payload_length [] = 0
  payload_length (a ∷ xs) = (f.datalen a + payload_length xs) % 2 ^ 64

  -- The loop over `datawrite`; `none` is a null pointer from one of them.
  unfoldable pub write_items : List A → Option Bytes
  write_items [] = some []
  write_items (a ∷ xs) = elim (f.datawrite a) [
    | none ↦ none
    | some b ↦ elim (write_items xs) [ none ↦ none | some bs ↦ some (b ++ bs) ]
  ]

-- `mem n` is the allocator's answer to a request for `n` bytes. The result `ok` is a return of 0,
-- `error` one of -1.
module _ {Arg A : Type 0} (lib : Libibur) (ib : Ibcrypt) (mem : ℕ → Bool)
    (f : FormatDesc Arg A) where
  open lib use {encbe64, decbe64}
  open ib use {hmac_sha256, sha256, chacha_enc, chacha_dec}

  -- From the allocation of the payload on; what is written beyond its end is undefined.
  unfoldable pub seal_payload : Bytes → Bytes → Bytes → Bytes → List A → Verdict Bytes
  seal_payload symm hmac fields random xs =
      let len = payload_length f xs in
      let prefix = fields ++ hmac_sha256 hmac fields in
      if mem len
      then elim (write_items f xs) [
        | none ↦ error
        | some payload ↦
            let cipher = chacha_enc (sha256 (symm ++ random)) 0 payload in
            if ltb len (length payload)
            then undefined
            else if length payload == len
            then ok (prefix ++ (cipher ++ hmac_sha256 hmac (prefix ++ cipher)))
            else error
      ]
      else error

  abbrev pub with_keys : Bytes → Bytes → List A → Option (Bytes × Bytes) × Arg → Verdict Bytes × Arg
  with_keys fields random xs (none, arg) = (error, arg)
  with_keys fields random xs (some (symm, hmac), arg) =
      (seal_payload symm hmac fields random xs, arg)

  unfoldable pub fill_prefix : Bytes → Arg → List A → Verdict Bytes × Arg
  fill_prefix random arg xs = elim (f.p_fill arg) [
    | none ↦ (error, arg)
    | some extra ↦
        let num = encbe64 (length xs % 2 ^ 64) in
        let fields = num ++ (encbe64 (payload_length f xs) ++ (random ++ extra)) in
        with_keys fields random xs (keys_of f arg extra)
  ]

  -- What is written to the file. The second argument is the answer of `cs_rand`.
  unfoldable pub file_contents : Option Bytes → Arg → List A → Verdict Bytes × Arg
  file_contents random arg xs =
      if mem (0x50 + f.pref_len)
      then elim random [ none ↦ (error, arg) | some r ↦ fill_prefix r arg xs ]
      else (error, arg)

  -- The file is emptied when it is opened, and stays so if a later step fails.
  abbrev pub closed : Bytes → Files → Verdict Bytes × Arg → Verdict (Unit {0}) × Arg × Files
  closed path fs (ok contents, arg) = (ok tt, arg, store path contents fs)
  closed path fs (error, arg) = (error, arg, store path [] fs)
  closed path fs (undefined, arg) = (undefined, arg, store path [] fs)

  unfoldable pub write_datafile :
      Bytes → Option Bytes → Arg → List A → Files → Verdict (Unit {0}) × Arg × Files
  write_datafile path random arg xs fs =
      if can_create path fs then closed path fs (file_contents random arg xs) else (error, arg, fs)

  unfoldable pub read_prefix : Io Bytes
  read_prefix = do guard (mem (0x50 + f.pref_len)); fread_bytes (0x50 + f.pref_len)

  -- From the first check of a MAC to the decryption of the payload.
  unfoldable pub read_payload : Bytes → Bytes → Bytes → Io Bytes
  read_payload symm hmac prefix = do
    let fields = take (0x30 + f.pref_len) prefix
    guard (bytes_eq (hmac_sha256 hmac fields) (drop (0x30 + f.pref_len) prefix))
    let payload_len = decbe64 (take 8 (drop 8 prefix))
    guard (mem payload_len)
    payload ← fread_bytes payload_len
    mac2f ← fread_bytes 0x20
    guard (bytes_eq (hmac_sha256 hmac (prefix ++ payload)) mac2f)
    pure (chacha_dec (sha256 (symm ++ take 0x20 (drop 0x10 prefix))) 0 payload)

  -- The two checks after the loop.
  abbrev pub checked : ℕ → Bytes → Verdict (List A × ℕ) → Verdict (List A)
  checked num payload (ok (xs, end)) =
      if length xs == num then if end == length payload then ok xs else error else error
  checked num payload error = error
  checked num payload undefined = undefined

  abbrev pub read_items : Arg → ℕ → Option Bytes → Verdict (List A)
  read_items arg num none = error
  read_items arg num (some payload) = checked num payload (items (f.dataread arg) num payload 0)

  abbrev pub opened_with : Bytes → Stream → Option (Bytes × Bytes) × Arg → Verdict (List A) × Arg
  opened_with prefix s (none, arg) = (error, arg)
  opened_with prefix s (some (symm, hmac), arg) =
      (read_items arg (decbe64 (take 8 prefix)) (read_payload symm hmac prefix s).0, arg)

  unfoldable pub after_prefix : Arg → Bytes → Stream → Verdict (List A) × Arg
  after_prefix arg prefix s =
      opened_with prefix s (keys_of f arg (take f.pref_len (drop 0x30 prefix)))

  abbrev pub prefix_read : Arg → Option Bytes × Stream → Verdict (List A) × Arg
  prefix_read arg (none, s) = (error, arg)
  prefix_read arg (some prefix, s) = after_prefix arg prefix s

  unfoldable pub read_stream : Arg → Stream → Verdict (List A) × Arg
  read_stream arg s = prefix_read arg (read_prefix s)

  unfoldable pub read_datafile : Bytes → Arg → Files → Verdict (List A) × Arg
  read_datafile path arg fs = elim (open_old path fs) [
    | none ↦ (error, arg)
    | some contents ↦ read_stream arg (record { bytes = contents; pos = 0 })
  ]
