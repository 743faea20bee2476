-- ===== src/Server/Undelivered/Load.antt =====
-- Loading the file that holds given messages.
use ibchat.Prelude.{
  plenty, ◌+◌, ◌^◌, ◌<◌, ◌≡◌, Bytes, List, [], ◌∷◌, ◌++◌, length, arith, refl, append-nil, drop,
  bytes_eq_refl, some, success,
}
use ibchat.External.{Libibur, Ibcrypt}
use ibchat.Stdio.Steps.{at, fread-at}
use ibchat.Files.{Files, store, open_old, open_old→can_create}
use ibchat.Server.Undelivered.{
  User, header, initial_prev_mac, load_message, load_messages, load_file, undel_load, undel_path,
  undel_init_file,
}
use ibchat.Server.Undelivered.Image.{
  Storable, blocks, file_image, length-header, header_fields, message_mac,
}

module _ (lib : Libibur) (ib : Ibcrypt) where
  open lib use {encbe64, decbe64}
  open ib use {hmac_sha256}

  load_messages-blocks :
      (auth prev : Bytes) (ms : List Bytes) (before : Bytes)
      → Storable ms
      → (load_messages lib ib plenty auth
          (length ms)
          prev
          (at before (blocks lib ib auth prev ms))).0
        ≡ some (some ms)
  unfolding load_messages load_message
  load_messages-blocks auth prev [] before h = refl
  load_messages-blocks auth prev (m ∷ ms) before h =
      let mac = message_mac lib ib auth prev m in
      let rest = blocks lib ib auth mac ms in
      rw (
        fread-at 8 before (encbe64 (length m)) (m ++ (mac ++ rest)) (omega arith)
            (lib.length-encbe64 (length m)),
        lib.decbe64-encbe64 (length m) h.1,
        fread-at (length m) (before ++ encbe64 (length m)) m (mac ++ rest) h.0 refl,
        fread-at 0x20 ((before ++ encbe64 (length m)) ++ m) mac rest (omega arith)
            (ib.length-hmac_sha256 _ _),
        bytes_eq_refl mac,
        load_messages-blocks auth mac ms _ h.2,
      )

  -- The bytes that `file_image` gives for `ms` are read back as `ms`.
  pub load_file-file_image :
      (auth : Bytes) (ms : List Bytes)
      → Storable ms
      → length ms < 2 ^ 64
      → (load_file lib ib plenty auth (at [] (file_image lib ib auth ms))).0 ≡ some (some ms)
  unfolding load_file file_image
  load_file-file_image auth ms h few =
      let body = blocks lib ib auth initial_prev_mac ms in
      let head = header lib ib auth (0x30 + length body) (length ms) in
      let fields = header_fields lib ib auth (0x30 + length body) (length ms) in
      rw
        (
          fread-at 0x30 [] head body (omega arith) (length-header lib ib auth _ _),
          fields.2,
          bytes_eq_refl (drop 0x10 head),
          fields.1,
          lib.decbe64-encbe64 (length ms) few,
        )
        (load_messages-blocks auth initial_prev_mac ms head h)

  pub file_image-nil : (auth : Bytes) → file_image lib ib auth [] ≡ header lib ib auth 0x30 0
  unfolding file_image
  file_image-nil auth = append-nil _

module _ (lib : Libibur) (ib : Ibcrypt) (undel_dir : Bytes) (u : User) (fs : Files) where
  -- From the file that holds the messages `ms`, `undel_load` returns exactly those, in their
  -- order, and leaves the file that holds none.
  pub undel_load-file_image :
      (ms : List Bytes)
      → open_old (undel_path lib ib undel_dir u) fs ≡ some (file_image lib ib u.und_auth ms)
      → Storable ms
      → length ms < 2 ^ 64
      → undel_load lib ib plenty undel_dir u fs
        ≡ some (
          success,
          some ms,
          store (undel_path lib ib undel_dir u) (file_image lib ib u.und_auth []) fs,
        )
  unfolding undel_load undel_init_file
  undel_load-file_image ms held h few = rw (
    held,
    undel_load,
    load_file-file_image lib ib u.und_auth ms h few,
    open_old→can_create _ _ fs held,
    file_image-nil lib ib u.und_auth,
  )
