-- ===== src/Client/DataFile/Image.antt =====
-- The contents of a data file that was written, and how it is cut where it is read.
use ibchat.Prelude.{
  plenty, ◌+◌, ◌%◌, ◌^◌, ◌<◌, ◌≡◌, refl, true, false, none, some, Bytes, List, [], ◌∷◌, ◌++◌, ◌==◌,
  bytes_eq_refl, length, length-append, append_assoc, append-nil, take, drop, take-append_eq,
  drop-append_eq, ltb, arith,
}
use ibchat.External.{Libibur, Ibcrypt}
use ibchat.Stdio.{fread_bytes}
use ibchat.Stdio.Steps.{at, fread_bytes-at}
use ibchat.Codec.{ok, error, items}
use ibchat.Codec.Steps.{joined}
use ibchat.Client.DataFile.{
  FormatDesc, keys_of, payload_length, write_items, seal_payload, fill_prefix, file_contents,
  checked, read_prefix, read_payload, after_prefix, read_stream,
}

-- The bytes of each item are what `datawrite` makes, as many as `datalen` says.
abbrev pub AllWritten : {Arg A : Type 0} → FormatDesc Arg A → (A → Bytes) → List A → Type 0
AllWritten f write [] = Unit
AllWritten f write (x ∷ xs) =
    (f.datawrite x ≡ some (write x)) × (f.datalen x ≡ length (write x)) × AllWritten f write xs

-- What a format has to meet for the items `xs`, which are written with `arg` and read with `arg_r`:
-- both find the same keys, and the items are written as `write` says.
pub record Keeps {Arg A : Type 0} (f : FormatDesc Arg A) (arg arg_r : Arg) (xs : List A)
    : Type 0 where
  pub extra : Bytes
  pub symm : Bytes
  pub hmac : Bytes
  pub after : Arg
  pub after_r : Arg
  pub write : A → Bytes
  pub filled : f.p_fill arg ≡ some extra
  pub size : length extra ≡ f.pref_len
  pub finds : keys_of f arg extra ≡ (some (symm, hmac), after)
  pub finds_r : keys_of f arg_r extra ≡ (some (symm, hmac), after_r)
  pub written : AllWritten f write xs
  pub fits : length (joined write xs) < 2 ^ 63
  pub count : length xs < 2 ^ 64

payload_length-joined :
    {Arg A : Type 0} (f : FormatDesc Arg A) (write : A → Bytes) (xs : List A)
    → AllWritten f write xs
    → length (joined write xs) < 2 ^ 63
    → payload_length f xs ≡ length (joined write xs)
unfolding payload_length
payload_length-joined f write [] h small = refl
payload_length-joined f write (x ∷ xs) h small =
    let total = length-append (write x) (joined write xs) in
    omega (arith, total, h.1, payload_length-joined f write xs h.2 (omega (arith, total)))

write_items-joined :
    {Arg A : Type 0} (f : FormatDesc Arg A) (write : A → Bytes) (xs : List A)
    → AllWritten f write xs
    → write_items f xs ≡ some (joined write xs)
unfolding write_items
write_items-joined f write [] h = refl
write_items-joined f write (x ∷ xs) h =
    rw (write_items, h.0, write_items-joined f write xs h.2) refl

module _ {Arg A : Type 0} (lib : Libibur) (ib : Ibcrypt) (f : FormatDesc Arg A) (arg arg_r : Arg)
    (xs : List A) (k : Keeps f arg arg_r xs) (random : Bytes) (drawn : length random ≡ 0x20) where
  open lib use {encbe64, decbe64}
  open ib use {hmac_sha256, sha256, chacha_enc, chacha_dec}
  open k use {extra, symm, hmac, write}

  abbrev body : Bytes
  body = joined write xs

  abbrev fields : Bytes
  fields = encbe64 (length xs) ++ (encbe64 (length body) ++ (random ++ extra))

  abbrev prefix : Bytes
  prefix = fields ++ hmac_sha256 hmac fields

  abbrev cipher : Bytes
  cipher = chacha_enc (sha256 (symm ++ random)) 0 body

  abbrev pub image : Bytes
  image = prefix ++ (cipher ++ hmac_sha256 hmac (prefix ++ cipher))

  length-prefix : length prefix ≡ 0x50 + f.pref_len
  length-prefix = omega (
    arith,
    length-append fields (hmac_sha256 hmac fields),
    length-fields,
    ib.length-hmac_sha256 hmac fields,
  )
    where
      length-fields : length fields ≡ 0x30 + f.pref_len
      length-fields =
          let num = encbe64 (length xs) in
          let len = encbe64 (length body) in
          omega (
            arith,
            length-append num (len ++ (random ++ extra)),
            length-append len (random ++ extra),
            length-append random extra,
            lib.length-encbe64 (length xs),
            lib.length-encbe64 (length body),
            drawn,
            k.size,
          )

  pub file_contents-image : file_contents lib ib plenty f (some random) arg xs ≡ (ok image, k.after)
  unfolding file_contents fill_prefix seal_payload
  file_contents-image =
      let count : length xs % 2 ^ 64 ≡ length xs = omega (arith, k.count) in
      let len = payload_length-joined f write xs k.written k.fits in
      let a : ltb (length body) (length body) ≡ false = ground arith in
      let b : (length body == length body) ≡ true = ground arith in
      rw
        (
          k.filled,
          fill_prefix,
          k.finds,
          seal_payload,
          write_items-joined f write xs k.written,
          len,
          count,
          a,
          b,
        )
        refl

  -- The prefix, cut at each of the places where it is read.
  abbrev num : Bytes
  num = encbe64 (length xs)

  abbrev len : Bytes
  len = encbe64 (length body)

  abbrev mac : Bytes
  mac = hmac_sha256 hmac fields

  num_field : take 8 prefix ≡ num
  num_field =
      let cut : prefix ≡ num ++ (len ++ (random ++ (extra ++ mac))) = simp append_assoc in
      rw cut
        (take-append_eq 8 num (len ++ (random ++ (extra ++ mac))) (lib.length-encbe64 (length xs)))

  len_field : take 8 (drop 8 prefix) ≡ len
  len_field =
      let rest = random ++ (extra ++ mac) in
      let cut : prefix ≡ num ++ (len ++ rest) = simp append_assoc in
      rw (cut, drop-append_eq 8 num (len ++ rest) (lib.length-encbe64 (length xs)))
        (take-append_eq 8 len rest (lib.length-encbe64 (length body)))

  random_field : take 0x20 (drop 0x10 prefix) ≡ random
  random_field =
      let cut : prefix ≡ (num ++ len) ++ (random ++ (extra ++ mac)) = simp append_assoc in
      let size : length (num ++ len) ≡ 0x10 = omega (
        arith,
        length-append num len,
        lib.length-encbe64 (length xs),
        lib.length-encbe64 (length body),
      ) in
      rw (cut, drop-append_eq 0x10 (num ++ len) (random ++ (extra ++ mac)) size)
        (take-append_eq 0x20 random (extra ++ mac) drawn)

  extra_field : take f.pref_len (drop 0x30 prefix) ≡ extra
  extra_field =
      let head = num ++ (len ++ random) in
      let cut : prefix ≡ head ++ (extra ++ mac) = simp append_assoc in
      let size : length head ≡ 0x30 = omega (
        arith,
        length-append num (len ++ random),
        length-append len random,
        drawn,
        lib.length-encbe64 (length xs),
        lib.length-encbe64 (length body),
      ) in
      rw (cut, drop-append_eq 0x30 head (extra ++ mac) size)
        (take-append_eq f.pref_len extra mac k.size)

  length-fields : length fields ≡ 0x30 + f.pref_len
  length-fields =
      omega (arith, length-append fields mac, length-prefix, ib.length-hmac_sha256 hmac fields)

  read_payload-image :
      read_payload lib ib plenty f symm hmac prefix
        (at prefix (cipher ++ hmac_sha256 hmac (prefix ++ cipher)))
      ≡ (some body, at ((prefix ++ cipher) ++ hmac_sha256 hmac (prefix ++ cipher)) [])
  unfolding read_payload
  read_payload-image =
      let mac2 = hmac_sha256 hmac (prefix ++ cipher) in
      let key = sha256 (symm ++ random) in
      let size : length cipher ≡ length body = ib.length-chacha_enc key 0 body in
      let end =
        fread_bytes-at 0x20 (prefix ++ cipher) mac2 []
          (ib.length-hmac_sha256 hmac (prefix ++ cipher)) in
      let last : fread_bytes 0x20 (at (prefix ++ cipher) mac2)
          ≡ (some mac2, at ((prefix ++ cipher) ++ mac2) []) =
        rw (append-nil mac2) at end in
      rw
        (
          take-append_eq (0x30 + f.pref_len) fields mac length-fields,
          drop-append_eq (0x30 + f.pref_len) fields mac length-fields,
          bytes_eq_refl mac,
          len_field,
          lib.decbe64-encbe64 (length body) (omega (arith, k.fits)),
          fread_bytes-at (length body) prefix cipher mac2 size,
          last,
          bytes_eq_refl mac2,
          random_field,
          ib.chacha_dec-chacha_enc key 0 body,
        )
        refl

  -- Reading the file that was written comes down to parsing the items' bytes.
  pub read_stream-image : read_stream lib ib plenty f arg_r (at [] image) ≡ (
    checked lib ib plenty f (length xs) body (items (f.dataread k.after_r) (length xs) body 0),
    k.after_r,
  )
  unfolding read_stream read_prefix after_prefix
  read_stream-image =
      let rest = cipher ++ hmac_sha256 hmac (prefix ++ cipher) in
      rw
        (
          fread_bytes-at (0x50 + f.pref_len) [] prefix rest length-prefix,
          extra_field,
          k.finds_r,
          read_payload-image,
          num_field,
          lib.decbe64-encbe64 (length xs) k.count,
        )
        refl

  pub read_stream-locked :
      (arg_q : Arg)
      → (keys_of f arg_q extra).0 ≡ none
      → (read_stream lib ib plenty f arg_q (at [] image)).0 ≡ error
  unfolding read_stream read_prefix after_prefix
  read_stream-locked arg_q unknown =
      let rest = cipher ++ hmac_sha256 hmac (prefix ++ cipher) in
      rw (fread_bytes-at (0x50 + f.pref_len) [] prefix rest length-prefix, extra_field, unknown)
        refl
