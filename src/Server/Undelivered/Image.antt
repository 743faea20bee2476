-- ===== src/Server/Undelivered/Image.antt =====
-- The file that holds given messages, as one byte string.
use ibchat.Prelude.{
  ℕ, ◌+◌, ◌^◌, ◌<◌, ◌≡◌, Bytes, List, [], ◌∷◌, ◌++◌, length, length-append, append_assoc, refl,
  append-nil, take, drop, take-append_eq, drop-append_eq,
}
use ibchat.External.{Libibur, Ibcrypt}
use ibchat.Server.Undelivered.{header, initial_prev_mac}

-- A message can be stored: it is not empty and its length is a 64-bit number.
abbrev pub Storable : List Bytes → Type 0
Storable [] = Unit
Storable (m ∷ ms) = (0 < length m) × (length m < 2 ^ 64) × Storable ms

module _ (lib : Libibur) (ib : Ibcrypt) where
  open lib use {encbe64}
  open ib use {hmac_sha256}

  abbrev pub message_mac : Bytes → Bytes → Bytes → Bytes
  message_mac auth prev m = hmac_sha256 auth (prev ++ (encbe64 (length m) ++ m))

  -- The message blocks after one whose MAC is `prev`.
  abbrev pub blocks : Bytes → Bytes → List Bytes → Bytes
  blocks auth prev [] = []
  blocks auth prev (m ∷ ms) =
      let mac = message_mac auth prev m in encbe64 (length m) ++ (m ++ (mac ++ blocks auth mac ms))

  -- The MAC that the next message's MAC will cover.
  abbrev pub last_mac : Bytes → Bytes → List Bytes → Bytes
  last_mac auth prev [] = prev
  last_mac auth prev (m ∷ ms) = last_mac auth (message_mac auth prev m) ms

  -- The file of a user with the key `auth` that holds the messages `ms`.
  unfoldable pub file_image : Bytes → List Bytes → Bytes
  file_image auth ms =
      let body = blocks auth initial_prev_mac ms in
      header lib ib auth (0x30 + length body) (length ms) ++ body

  pub length-header : (auth : Bytes) (flen mnum : ℕ) → length (header lib ib auth flen mnum) ≡ 0x30
  unfolding header
  length-header auth flen mnum =
      rw
        (
          length-append, length-append, ib.length-hmac_sha256, lib.length-encbe64,
          lib.length-encbe64,
        )
        refl

  -- The three fields of a header, and that it passes its own check.
  pub header_fields :
      (auth : Bytes) (flen mnum : ℕ)
      → (take 8 (header lib ib auth flen mnum) ≡ encbe64 flen)
        × (take 8 (drop 8 (header lib ib auth flen mnum)) ≡ encbe64 mnum)
        × (hmac_sha256 auth (take 0x10 (header lib ib auth flen mnum))
            ≡ drop 0x10 (header lib ib auth flen mnum))
  unfolding header
  header_fields auth flen mnum =
      let f = encbe64 flen in
      let g = encbe64 mnum in
      let mac = hmac_sha256 auth (f ++ g) in
      let both : length (f ++ g) ≡ 0x10 =
        rw (length-append, lib.length-encbe64, lib.length-encbe64) refl in
      (
        rw (append_assoc f g mac) (take-append_eq 8 f (g ++ mac) (lib.length-encbe64 flen)),
        rw (append_assoc f g mac, drop-append_eq 8 f (g ++ mac) (lib.length-encbe64 flen))
            (take-append_eq 8 g mac (lib.length-encbe64 mnum)),
        rw (take-append_eq 0x10 (f ++ g) mac both, drop-append_eq 0x10 (f ++ g) mac both),
      )

  pub blocks-append :
      (auth prev : Bytes) (ms : List Bytes) (m : Bytes)
      → blocks auth prev (ms ++ m ∷ [])
        ≡ blocks auth prev ms
          ++ (encbe64 (length m) ++ (m ++ message_mac auth (last_mac auth prev ms) m))
  blocks-append auth prev [] m = simp append-nil
  blocks-append auth prev (x ∷ xs) m =
      simp (append_assoc, blocks-append auth (message_mac auth prev x) xs m)

  -- Blocks end with the last MAC.
  pub blocks-last_mac :
      (auth prev m : Bytes) (ms : List Bytes)
      → (front : Bytes) × (blocks auth prev (m ∷ ms) ≡ front ++ last_mac auth prev (m ∷ ms))
        × (length (last_mac auth prev (m ∷ ms)) ≡ 32)
  blocks-last_mac auth prev m [] =
      (encbe64 (length m) ++ m, simp (append_assoc, append-nil), ib.length-hmac_sha256 _ _)
  blocks-last_mac auth prev m (x ∷ xs) =
      let mac = message_mac auth prev m in
      let (front, e, size) = blocks-last_mac auth mac x xs in
      (encbe64 (length m) ++ (m ++ (mac ++ front)), rw e (simp append_assoc), size)
