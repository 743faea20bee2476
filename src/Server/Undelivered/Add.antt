-- ===== src/Server/Undelivered/Add.antt =====
-- Adding a message to the file that holds given messages.
use ibchat.Prelude.{
  plenty, drop-nil, ℕ, ◌+◌, ◌-◌, ◌%◌, ◌^◌, ◌<◌, ◌≡◌, Bytes, List, [], ◌∷◌, ◌++◌, length, arith,
  length-append, append_assoc, refl, ap, append-nil, ◌∙◌, sym, take, drop, bytes_eq_refl, some,
  success, take-append-drop, length-drop, drop-append_eq, if◌then◌else◌, ◌==◌,
}
use ibchat.External.{Libibur, Ibcrypt}
use ibchat.Stdio.{fwrite}
use ibchat.Stdio.Steps.{at, fread-at, fwrite-at, fseek-at}
use ibchat.Files.{Files, store, open_old}
use ibchat.Server.Undelivered.{
  User, header, initial_prev_mac, add_message, undel_add_message, undel_path,
}
use ibchat.Server.Undelivered.Image.{
  blocks, last_mac, file_image, length-header, header_fields, blocks-append, blocks-last_mac,
}

-- Writing at the end of the file.
fwrite-at_end :
    (before buf : Bytes)
    → 0 < length buf
    → fwrite buf (at before []) ≡ (some tt, at (before ++ buf) [])
fwrite-at_end before buf h = rw (fwrite-at before [] buf h, drop-nil (length buf))

module _ (lib : Libibur) (ib : Ibcrypt) where
  open lib use {encbe64, decbe64}
  open ib use {hmac_sha256}

  fwrite_mac-at_end :
      (before key text : Bytes)
      → fwrite (hmac_sha256 key text) (at before [])
        ≡ (some tt, at (before ++ hmac_sha256 key text) [])
  fwrite_mac-at_end before key text =
      fwrite-at_end before (hmac_sha256 key text) (omega (arith, ib.length-hmac_sha256 key text))

  -- The calls of `add_message` in turn, on a file with the fields F and N that ends with `last`.
  add_message-calls :
      (auth m : Bytes) (F N : ℕ) (B front last : Bytes)
      → header lib ib auth ((F + 8 + length m + 32) % 2 ^ 64) ((N + 1) % 2 ^ 64) ++ B
        ≡ front ++ (last ++ [])
      → length last ≡ 32
      → F ≡ 0x30 + length B
      → F < 2 ^ 63
      → N < 2 ^ 64
      → 0 < length m
      → add_message lib ib auth m (at [] (header lib ib auth F N ++ B)) ≡ (
        some tt,
        at
            ((((front ++ last) ++ encbe64 (length m)) ++ m)
              ++ hmac_sha256 auth
                  ((if N == 0 then initial_prev_mac else last) ++ (encbe64 (length m) ++ m)))
            [],
      )
  unfolding add_message
  add_message-calls auth m F N B front last cut size place small few full =
      let F' = (F + 8 + length m + 32) % 2 ^ 64 in
      let N' = (N + 1) % 2 ^ 64 in
      let H = header lib ib auth F N in
      let H' = header lib ib auth F' N' in
      let fields = header_fields lib ib auth F N in
      let lenH = length-header lib ib auth F N in
      let lenH' = length-header lib ib auth F' N' in
      let spot : length front ≡ (F + 2 ^ 64 - 32) % 2 ^ 64 = omega (
        arith,
        ap length cut,
        length-append H' B,
        length-append front (last ++ []),
        length-append last [],
      ) in
      rw (
        fread-at 0x30 [] H B (omega arith) lenH,
        fields.2,
        bytes_eq_refl (drop 0x10 H),
        fields.0,
        fields.1,
        lib.decbe64-encbe64 N few,
        lib.decbe64-encbe64 F (omega arith),
        fseek-at 0 H B [] (H ++ B) refl refl (omega arith),
        fwrite-at [] (H ++ B) H' (omega arith),
        drop-append_eq (length H') H B (lenH ∙ sym lenH'),
        fseek-at ((F + 2 ^ 64 - 32) % 2 ^ 64) H' B front (last ++ []) cut spot (omega arith),
        fread-at 0x20 front last [] (omega arith) size,
        fwrite-at_end (front ++ last) (encbe64 (length m))
            (omega (arith, lib.length-encbe64 (length m))),
        fwrite-at_end _ m full,
        fwrite_mac-at_end,
      )

  -- Where the last 32 bytes of a file are, once its header is replaced by another one.
  cut_file :
      (auth head : Bytes) (ms : List Bytes)
      → length head ≡ 0x30
      → (front last : Bytes) × (head ++ blocks lib ib auth initial_prev_mac ms
          ≡ front ++ (last ++ []))
        × (length last ≡ 32)
        × ((if length ms == 0 then initial_prev_mac else last)
            ≡ last_mac lib ib auth initial_prev_mac ms)
  cut_file auth head [] size = (
    take 0x10 head,
    drop 0x10 head,
    rw (append-nil, append-nil) (sym (take-append-drop 0x10 head)),
    omega (arith, length-drop 0x10 head),
    refl,
  )
  cut_file auth head (x ∷ xs) size =
      let (front, e, len) = blocks-last_mac lib ib auth initial_prev_mac x xs in
      (
        head ++ front,
        last_mac lib ib auth initial_prev_mac (x ∷ xs),
        rw e (simp (append-nil, append_assoc)),
        len,
        ground arith,
      )

  pub length-blocks-append :
      (auth prev m : Bytes) (ms : List Bytes)
      → length (blocks lib ib auth prev (ms ++ m ∷ []))
        ≡ length (blocks lib ib auth prev ms) + 8 + length m + 32
  length-blocks-append auth prev m ms =
      rw
        (
          blocks-append lib ib auth prev ms m,
          length-append (blocks lib ib auth prev ms),
          length-append (encbe64 (length m)),
          length-append m,
          lib.length-encbe64,
          ib.length-hmac_sha256,
        )
        (omega arith)

  -- On the file that holds `ms`, `add_message` leaves the file that holds `ms` and then `m`.
  pub add_message-file_image :
      (auth m : Bytes) (ms : List Bytes)
      → 0 < length m
      → length (file_image lib ib auth ms) + 8 + length m + 32 < 2 ^ 63
      → length ms + 1 < 2 ^ 64
      → add_message lib ib auth m (at [] (file_image lib ib auth ms))
        ≡ (some tt, at (file_image lib ib auth (ms ++ m ∷ [])) [])
  unfolding file_image
  add_message-file_image auth m ms full small few =
      let B = blocks lib ib auth initial_prev_mac ms in
      let F = 0x30 + length B in
      let N = length ms in
      let (front, last, cut, size, prev) =
        cut_file auth (header lib ib auth ((F + 8 + length m + 32) % 2 ^ 64) ((N + 1) % 2 ^ 64)) ms
          (length-header lib ib auth _ _) in
      let room : F + 8 + length m + 32 < 2 ^ 63 =
        omega (arith, length-append (header lib ib auth F N) B, length-header lib ib auth F N) in
      let end : (F + 8 + length m + 32) % 2 ^ 64
          ≡ 0x30 + length (blocks lib ib auth initial_prev_mac (ms ++ m ∷ [])) =
        omega (arith, length-blocks-append auth initial_prev_mac m ms) in
      let count : (N + 1) % 2 ^ 64 ≡ length (ms ++ m ∷ []) =
        omega (arith, length-append ms (m ∷ [])) in
      let joined : front ++ last
          ≡ header lib ib auth ((F + 8 + length m + 32) % 2 ^ 64) ((N + 1) % 2 ^ 64) ++ B =
        rw append-nil at (sym cut) in
      add_message-calls auth m F N B front last cut size refl (omega arith) (omega arith) full
      ∙ ap (λ (b : Bytes). (some tt, at b []))
          (rw (prev, joined, end, count, blocks-append lib ib auth initial_prev_mac ms m)
            (simp append_assoc))

module _ (lib : Libibur) (ib : Ibcrypt) (undel_dir : Bytes) (u : User) (m : Bytes) (ms : List Bytes)
    (fs : Files) where
  -- On the file that holds `ms`, `undel_add_message` returns 0 and leaves the file that holds
  -- `ms` and then `m`; no other file changes.
  pub undel_add_message-file_image :
      open_old (undel_path lib ib undel_dir u) fs ≡ some (file_image lib ib u.und_auth ms)
      → 0 < length m
      → length (file_image lib ib u.und_auth ms) + 8 + length m + 32 < 2 ^ 63
      → length ms + 1 < 2 ^ 64
      → undel_add_message lib ib plenty undel_dir u m fs
        ≡ some (
          success,
          store (undel_path lib ib undel_dir u) (file_image lib ib u.und_auth (ms ++ m ∷ [])) fs,
        )
  unfolding undel_add_message
  undel_add_message-file_image held full small few = rw (
    held,
    undel_add_message,
    add_message-file_image lib ib u.und_auth m ms full small few,
    append-nil,
  )
