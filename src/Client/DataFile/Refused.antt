-- ===== src/Client/DataFile/Refused.antt =====
-- Data files with a wrong MAC, and what a write that fails leaves.
use ibchat.Prelude.{
  plenty, ◌+◌, ◌≡◌, ◌≢◌, ◌⊎◌, inl, inr, refl, true, false, none, some, Bytes, List, [], ◌++◌,
  bytes_eq, bytes_eq→eq, Bool-cases, length, take, drop, arith,
}
use ibchat.External.{Libibur, Ibcrypt}
use ibchat.Stdio.{fread_bytes}
use ibchat.Stdio.Steps.{at, fread_bytes-at}
use ibchat.Files.{Files, open_old, can_create, open_old-store_self}
use ibchat.Codec.{error}
use ibchat.Client.DataFile.{
  FormatDesc, keys_of, file_contents, write_datafile, read_prefix, read_payload, after_prefix,
  read_stream, read_datafile,
}

module _ {Arg A : Type 0} (lib : Libibur) (ib : Ibcrypt) (f : FormatDesc Arg A) where
  open lib use {decbe64}
  open ib use {hmac_sha256}

  module _ (prefix payload mac rest symm hmac : Bytes)
      (len : decbe64 (take 8 (drop 8 prefix)) ≡ length payload) (size_mac : length mac ≡ 0x20) where
    abbrev mac1 : Bytes
    mac1 = hmac_sha256 hmac (take (0x30 + f.pref_len) prefix)

    abbrev IsForged : Type 0
    IsForged =
        (mac1 ≢ drop (0x30 + f.pref_len) prefix) ⊎ (hmac_sha256 hmac (prefix ++ payload) ≢ mac)

    read_payload-forged :
        IsForged
        → (read_payload lib ib plenty f symm hmac prefix (at prefix (payload ++ (mac ++ rest)))).0
          ≡ none
    unfolding read_payload
    read_payload-forged (inl wrong) =
        let differs : bytes_eq mac1 (drop (0x30 + f.pref_len) prefix) ≡ false =
          ground (arith, bytes_eq→eq mac1 (drop (0x30 + f.pref_len) prefix)) in
        rw differs refl
    read_payload-forged (inr wrong) =
        let differs : bytes_eq (hmac_sha256 hmac (prefix ++ payload)) mac ≡ false =
          ground (arith, bytes_eq→eq (hmac_sha256 hmac (prefix ++ payload)) mac) in
        elim (Bool-cases (bytes_eq mac1 (drop (0x30 + f.pref_len) prefix))) [
          | inr bad ↦ rw bad refl
          | inl good ↦
              rw
                (
                  good,
                  len,
                  fread_bytes-at (length payload) prefix payload (mac ++ rest) refl,
                  fread_bytes-at 0x20 (prefix ++ payload) mac rest size_mac,
                  differs,
                )
                refl
        ]

    -- A file whose parts have the right lengths, but where the MAC of the prefix or the MAC of the
    -- whole is not the one under the key that the format finds, is refused with -1.
    pub read_datafile-forged :
        (path : Bytes) (arg arg' : Arg) (fs : Files)
        → open_old path fs ≡ some (prefix ++ (payload ++ (mac ++ rest)))
        → length prefix ≡ 0x50 + f.pref_len
        → keys_of f arg (take f.pref_len (drop 0x30 prefix)) ≡ (some (symm, hmac), arg')
        → (hmac_sha256 hmac (take (0x30 + f.pref_len) prefix) ≢ drop (0x30 + f.pref_len) prefix)
          ⊎ (hmac_sha256 hmac (prefix ++ payload) ≢ mac)
        → read_datafile lib ib plenty f path arg fs ≡ (error, arg')
    unfolding read_datafile read_stream read_prefix after_prefix
    read_datafile-forged path arg arg' fs held size finds wrong =
        rw
          (
            held,
            read_datafile,
            read_stream,
            fread_bytes-at (0x50 + f.pref_len) [] prefix (payload ++ (mac ++ rest)) size,
            finds,
            read_payload-forged wrong,
          )
          refl

  -- When no random bytes can be drawn, `write_datafile` returns -1 and the file that was there is
  -- lost: reading it fails from then on.
  pub write_datafile-lost :
      (path : Bytes) (arg arg_r : Arg) (xs : List A) (fs : Files)
      → can_create path fs ≡ true
      → (let w = write_datafile lib ib plenty f path none arg xs fs in
          (w.0 ≡ error) × (w.1 ≡ arg) × ((read_datafile lib ib plenty f path arg_r w.2).0 ≡ error))
  unfolding write_datafile file_contents read_datafile read_stream read_prefix fread_bytes
  write_datafile-lost path arg arg_r xs fs able =
      rw able (refl, refl, rw (open_old-store_self path [] fs able, read_datafile) (ground arith))
