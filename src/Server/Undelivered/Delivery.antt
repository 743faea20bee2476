-- ===== src/Server/Undelivered/Delivery.antt =====
-- From the creation of a file over any number of added messages to loading it.
use ibchat.Prelude.{
  plenty, ℕ, ◌+◌, ◌^◌, ◌<◌, ◌≡◌, Bytes, List, [], ◌∷◌, ◌++◌, length, arith, length-append,
  append_assoc, refl, append-nil, some, none, success, true, Option, pos, negsuc,
}
use ibchat.External.{Libibur, Ibcrypt}
use ibchat.Files.{Files, store, open_old, can_create, open_old-store_self, open_old→can_create}
use ibchat.Server.Undelivered.{
  User, header, undel_path, undel_init_file, undel_add_message, undel_load, initial_prev_mac,
}
use ibchat.Server.Undelivered.Image.{Storable, file_image, blocks, length-header}
use ibchat.Server.Undelivered.Load.{undel_load-file_image, file_image-nil}
use ibchat.Server.Undelivered.Add.{undel_add_message-file_image, length-blocks-append}

-- The bytes that the blocks of the messages take.
abbrev pub blocks_size : List Bytes → ℕ
blocks_size [] = 0
blocks_size (m ∷ ms) = 40 + length m + blocks_size ms

module _ (lib : Libibur) (ib : Ibcrypt) (undel_dir : Bytes) (u : User) where
  -- One call of `undel_add_message` for each message; `none` if one of them does not return 0.
  unfoldable pub add_all : List Bytes → Files → Option Files
  add_all [] fs = some fs
  add_all (m ∷ ms) fs = elim (undel_add_message lib ib plenty undel_dir u m fs) [
    | none ↦ none
    | some (negsuc n, fs') ↦ none
    | some (pos n, fs') ↦ add_all ms fs'
  ]

module _ (lib : Libibur) (ib : Ibcrypt) where
  length-file_image-append :
      (auth m : Bytes) (ms : List Bytes)
      → length (file_image lib ib auth (ms ++ m ∷ []))
        ≡ length (file_image lib ib auth ms) + 40 + length m
  unfolding file_image
  length-file_image-append auth m ms =
      let whole = λ (xs : List Bytes).
        length-append
          (header lib ib auth (0x30 + length (blocks lib ib auth initial_prev_mac xs)) (length xs))
          (blocks lib ib auth initial_prev_mac xs) in
      let head = λ (xs : List Bytes).
        length-header lib ib auth (0x30 + length (blocks lib ib auth initial_prev_mac xs))
          (length xs) in
      omega (
        arith,
        whole ms,
        whole (ms ++ m ∷ []),
        head ms,
        head (ms ++ m ∷ []),
        length-blocks-append lib ib auth initial_prev_mac m ms,
      )

module _ (lib : Libibur) (ib : Ibcrypt) (undel_dir : Bytes) (u : User) where
  abbrev pub path : Bytes
  path = undel_path lib ib undel_dir u

  add_all-file_image :
      (ms done : List Bytes) (fs : Files)
      → open_old path fs ≡ some (file_image lib ib u.und_auth done)
      → Storable ms
      → length (file_image lib ib u.und_auth done) + blocks_size ms < 2 ^ 63
      → length done + length ms < 2 ^ 64
      → (fs' : Files) × (add_all lib ib undel_dir u ms fs ≡ some fs')
        × (open_old path fs' ≡ some (file_image lib ib u.und_auth (done ++ ms)))
  unfolding add_all
  add_all-file_image [] done fs held h small few = (fs, refl, rw append-nil held)
  add_all-file_image (m ∷ ms) done fs held h small few =
      let fs₁ = store path (file_image lib ib u.und_auth (done ++ m ∷ [])) fs in
      let step =
        undel_add_message-file_image lib ib undel_dir u m done fs held h.0 (omega arith)
          (omega arith) in
      let held₁ =
        open_old-store_self path (file_image lib ib u.und_auth (done ++ m ∷ [])) fs
          (open_old→can_create path _ fs held) in
      let (fs', run, holds) =
        add_all-file_image ms (done ++ m ∷ []) fs₁ held₁ h.2
          (omega (arith, length-file_image-append lib ib u.und_auth m done))
          (omega (arith, length-append done (m ∷ []))) in
      (fs', rw (step, add_all) run, rw append_assoc at holds)

  -- After `undel_init_file` every message that is added, in any number, is stored, and one
  -- `undel_load` returns all of them in their order and leaves the file that holds none. The file can
  -- be created, the messages are not empty, their sizes and number are within the 64-bit fields, and
  -- there is memory.
  pub undel_load-add_all :
      (ms : List Bytes) (fs : Files)
      → can_create path fs ≡ true
      → Storable ms
      → 0x30 + blocks_size ms < 2 ^ 63
      → length ms < 2 ^ 64
      → (fs' : Files) × (add_all lib ib undel_dir u ms
            (undel_init_file lib ib plenty undel_dir u fs).1
          ≡ some fs')
        × (undel_load lib ib plenty undel_dir u fs'
            ≡ some (success, some ms, store path (file_image lib ib u.und_auth []) fs'))
  unfolding undel_init_file
  undel_load-add_all ms fs able h small few =
      let none_yet = file_image-nil lib ib u.und_auth in
      let fs₀ = store path (header lib ib u.und_auth 0x30 0) fs in
      let (fs', run, held) =
        add_all-file_image ms [] fs₀ (rw none_yet (open_old-store_self path _ fs able)) h
          (rw none_yet (omega (arith, length-header lib ib u.und_auth 0x30 0))) (omega arith) in
      (fs', rw able run, undel_load-file_image lib ib undel_dir u fs' ms held h few)
