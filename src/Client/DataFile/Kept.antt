-- ===== src/Client/DataFile/Kept.antt =====
-- Writing a data file and reading it again, for any format whose items are read as they are
-- written.
use ibchat.Prelude.{plenty, ℕ, ◌≡◌, ◌≢◌, refl, true, none, some, Bytes, List, ◌==◌, length, arith}
use ibchat.External.{Libibur, Ibcrypt}
use ibchat.Files.{Files, can_create, open_old-store_self}
use ibchat.Codec.{Verdict, ok, error, items}
use ibchat.Codec.Steps.{joined, AllRead, items-joined}
use ibchat.Client.DataFile.{FormatDesc, keys_of, write_datafile, checked, read_datafile}
use ibchat.Client.DataFile.Image.{
  Keeps, image, file_contents-image, read_stream-image, read_stream-locked,
}

module _ {Arg A : Type 0} (lib : Libibur) (ib : Ibcrypt) (f : FormatDesc Arg A) (arg arg_r : Arg)
    (xs : List A) (k : Keeps f arg arg_r xs) (random : Bytes) (drawn : length random ≡ 0x20) where
  open lib use {encbe64, decbe64}
  open k use {extra, symm, hmac, write}

  abbrev items_read : Verdict (List A × ℕ)
  items_read = items (f.dataread k.after_r) (length xs) (joined write xs) 0

  module _ (path : Bytes) (fs : Files) (able : can_create path fs ≡ true) where
    pub read_datafile-parsed :
        (let w = write_datafile lib ib plenty f path (some random) arg xs fs in
          (w.0 ≡ ok tt)
          × (w.1 ≡ k.after)
          × (read_datafile lib ib plenty f path arg_r w.2
              ≡ (checked lib ib plenty f (length xs) (joined write xs) (items_read), k.after_r)))
    unfolding write_datafile read_datafile
    read_datafile-parsed =
        rw (able, file_contents-image lib ib f arg arg_r xs k random drawn)
          (
            refl,
            refl,
            rw
                (
                  open_old-store_self path (image lib ib f arg arg_r xs k random drawn) fs able,
                  read_stream-image lib ib f arg arg_r xs k random drawn,
                  read_datafile,
                )
                refl,
          )

    -- A data file of any list of items that the format keeps, written with 32 random bytes to a path
    -- that can be created, gives exactly those items in their order when it is read: both functions
    -- return 0. The reader of one item reads what was written for it, and there is memory for the
    -- buffers.
    pub read_datafile-write_datafile :
        AllRead (f.dataread k.after_r) write xs
        → (let w = write_datafile lib ib plenty f path (some random) arg xs fs in
            (w.0 ≡ ok tt)
            × (w.1 ≡ k.after)
            × (read_datafile lib ib plenty f path arg_r w.2 ≡ (ok xs, k.after_r)))
    read_datafile-write_datafile reads =
        let a : (length xs == length xs) ≡ true = ground arith in
        let b : (length (joined write xs) == length (joined write xs)) ≡ true = ground arith in
        let whole : checked lib ib plenty f (length xs) (joined write xs) (items_read) ≡ ok xs =
          rw (items-joined (f.dataread k.after_r) write xs reads, a, b) refl in
        let (done, changed, read) = read_datafile-parsed in (done, changed, rw whole at read)

    -- Where the items do not end at the end of the payload, the file that was just written cannot
    -- be read.
    pub read_datafile-misaligned :
        (ys : List A) (end : ℕ)
        → items_read ≡ ok (ys, end)
        → end ≢ length (joined write xs)
        → (let w = write_datafile lib ib plenty f path (some random) arg xs fs in
            (w.0 ≡ ok tt) × ((read_datafile lib ib plenty f path arg_r w.2).0 ≡ error))
    read_datafile-misaligned ys end parsed apart =
        let whole : checked lib ib plenty f (length xs) (joined write xs) (items_read) ≡ error =
          rw parsed (ground arith) in
        let (done, changed, read) = read_datafile-parsed in (done, rw (read, whole) refl)

    -- A reader who does not find the keys from what the file's prefix says gets nothing.
    pub read_datafile-locked :
        (arg_q : Arg)
        → (keys_of f arg_q extra).0 ≡ none
        → (let w = write_datafile lib ib plenty f path (some random) arg xs fs in
            (w.0 ≡ ok tt) × ((read_datafile lib ib plenty f path arg_q w.2).0 ≡ error))
    unfolding write_datafile read_datafile
    read_datafile-locked arg_q unknown =
        let whole = image lib ib f arg arg_r xs k random drawn in
        rw (able, file_contents-image lib ib f arg arg_r xs k random drawn)
          (
            refl,
            rw (open_old-store_self path whole fs able, read_datafile)
                (read_stream-locked lib ib f arg arg_r xs k random drawn arg_q unknown),
          )
