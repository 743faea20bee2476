-- ===== src/Client/NotifFile/Kept.antt =====
-- What the file of notifications gives back.
use ibchat.Prelude.{
  plenty, ◌+◌, ◌^◌, ◌<◌, ◌≡◌, ◌≢◌, refl, sym, ap, true, some, Bytes, List, [], ◌∷◌, ◌++◌, length,
  length-append, arith, ltb,
}
use ibchat.External.{Libibur, Ibcrypt}
use ibchat.Files.{Files, can_create}
use ibchat.Codec.{Verdict, ok, error, items}
use ibchat.Codec.Steps.{joined, AllRead, joined-snoc, items-joined_then}
use ibchat.Client.DataFile.{keys_of}
use ibchat.Client.DataFile.Image.{AllWritten, Keeps}
use ibchat.Client.DataFile.Kept.{read_datafile-write_datafile, read_datafile-misaligned}
use ibchat.Client.Friend.{Friend}
use ibchat.Client.Account.{Account}
use ibchat.Client.Notif.{Notif, response, notif_bin_write, notif_bin_len, notif_bin_parse}
use ibchat.Client.Notif.Kept.{
  IsFound, IsKept, length-notif_bin_write, notif_bin_write-pos, notif-Reads, length-response,
  response-overrun,
}
use ibchat.Client.Paths.{file_path}
use ibchat.Client.NotifFile.{
  Client, nf_format, write_notiffile, read_notiffile, written_notifs, insert_notif,
}

abbrev pub AllKept : List Friend → List Notif → Type 0
AllKept friends [] = Unit
AllKept friends (n ∷ ns) = IsKept friends n × AllKept friends ns

module _ (lib : Libibur) (ib : Ibcrypt) where
  notifs-AllWritten :
      (acc : Account) (ns : List Notif)
      → AllKept acc.friends ns
      → AllWritten (nf_format lib ib plenty) (notif_bin_write lib plenty) ns
  unfolding nf_format
  notifs-AllWritten acc [] h = tt
  notifs-AllWritten acc (n ∷ ns) h =
      (refl, sym (length-notif_bin_write lib acc n h.0), notifs-AllWritten acc ns h.1)

  notifs-AllRead :
      (acc : Account) (ns : List Notif)
      → AllKept acc.friends ns
      → AllRead ((nf_format lib ib plenty).dataread acc) (notif_bin_write lib plenty) ns
  unfolding nf_format
  notifs-AllRead acc [] h = tt
  notifs-AllRead acc (n ∷ ns) h =
      (notif_bin_write-pos lib acc n, notif-Reads lib acc n h.0, notifs-AllRead acc ns h.1)

  notifs-Keeps :
      (acc : Account) (ns : List Notif)
      → AllWritten (nf_format lib ib plenty) (notif_bin_write lib plenty) ns
      → length (joined (notif_bin_write lib plenty) ns) < 2 ^ 63
      → length ns < 2 ^ 64
      → Keeps (nf_format lib ib plenty) acc acc ns
  unfolding nf_format keys_of
  notifs-Keeps acc ns written fits count = record {
    extra = [];
    symm = acc.n_symm;
    hmac = acc.n_hmac;
    after = acc;
    after_r = acc;
    write = notif_bin_write lib plenty;
    filled = refl;
    size = refl;
    finds = refl;
    finds_r = refl;
    written = written;
    fits = fits;
    count = count;
  }

  module _ (root_dir random : Bytes) (drawn : length random ≡ 0x20) where
    -- Where no notification says that a friend accepted a request, one that is inserted is in the
    -- file: it is read after those that were there, all as they are in memory. Every notification is
    -- of unread messages from a friend that its id finds in the account or of a friend request, the
    -- file can be created, 32 random bytes are drawn, and there is memory.
    pub read_notiffile-insert_notif :
        (c : Client) (n : Notif)
        → AllKept c.acc.friends (c.notifs ++ (n ∷ []))
        → length (joined (notif_bin_write lib plenty) (c.notifs ++ (n ∷ []))) < 2 ^ 63
        → length (c.notifs ++ (n ∷ [])) < 2 ^ 64
        → can_create (root_dir ++ lib.to_hex c.acc.n_file) c.files ≡ true
        → (let r = insert_notif lib ib plenty root_dir (some random) n c in
            (r.0 ≡ ok tt)
            × (r.1.notifs ≡ c.notifs ++ (n ∷ []))
            × (read_notiffile lib ib plenty root_dir r.1.acc r.1.files ≡ ok r.1.notifs))
    unfolding insert_notif written_notifs write_notiffile read_notiffile file_path nf_format
        notifs-Keeps
    read_notiffile-insert_notif c n kept fits count able =
        let ns = c.notifs ++ (n ∷ []) in
        let k = notifs-Keeps c.acc ns (notifs-AllWritten c.acc ns kept) fits count in
        let (done, same, read) =
          read_datafile-write_datafile lib ib (nf_format lib ib plenty) c.acc c.acc ns k random
            drawn (root_dir ++ lib.to_hex c.acc.n_file) c.files able
            (notifs-AllRead c.acc ns kept) in
        (done, refl, rw same (ap (λ (v : Verdict (List Notif) × Account). v.0) read))

    response-AllWritten :
        (acc : Account) (ns : List Notif) (fr : Friend)
        → AllKept acc.friends ns
        → length fr.uid ≡ 0x20
        → AllWritten
            (nf_format lib ib plenty)
            (notif_bin_write lib plenty)
            (ns ++ (response fr ∷ []))
    unfolding nf_format notif_bin_len
    response-AllWritten acc [] fr h size = (refl, sym (length-response lib acc fr size), tt)
    response-AllWritten acc (n ∷ ns) fr h size =
        (refl, sym (length-notif_bin_write lib acc n h.0), response-AllWritten acc ns fr h.1 size)

    response-items :
        (acc : Account) (ns : List Notif) (fr : Friend)
        → AllKept acc.friends ns
        → IsFound acc.friends fr
        → items
            (notif_bin_parse lib plenty acc)
            (length (ns ++ (response fr ∷ [])))
            (joined (notif_bin_write lib plenty) (ns ++ (response fr ∷ [])))
            0
          ≡ ok (ns ++ (response fr ∷ []), length (joined (notif_bin_write lib plenty) ns) + 41)
    unfolding items nf_format
    response-items acc ns fr h known =
        let write = notif_bin_write lib plenty in
        let body = joined write ns in
        let last = write (response fr) in
        let whole : joined write (ns ++ (response fr ∷ [])) ≡ body ++ last =
          joined-snoc write ns (response fr) in
        let one : length (ns ++ (response fr ∷ [])) ≡ length ns + 1 =
          length-append ns (response fr ∷ []) in
        let more : ltb (length body) (length (body ++ last)) ≡ true =
          rw (length-append body last, length-response lib acc fr known.sized) (ground arith) in
        let there : 0 + length body ≡ length body = omega arith in
        rw (whole, one)
          (items-joined_then (notif_bin_parse lib plenty acc) write ns [] last 1 (body ++ last)
            (response fr ∷ []) (length body + 41) (notifs-AllRead acc ns h) refl
            (rw (there, more, response-overrun lib acc fr body known) refl))

    -- A list of notifications whose last one says that a friend accepted a request is written
    -- without an error, and the file cannot be read again: reading moves 8 bytes too far and finds
    -- that the length does not match. The other notifications are of the other two kinds, each friend
    -- is found by its id in the account, the file can be created, 32 random bytes are drawn, and there
    -- is memory.
    pub read_notiffile-response :
        (acc : Account) (fs : Files) (ns : List Notif) (fr : Friend)
        → AllKept acc.friends ns
        → IsFound acc.friends fr
        → length (joined (notif_bin_write lib plenty) (ns ++ (response fr ∷ []))) < 2 ^ 63
        → length (ns ++ (response fr ∷ [])) < 2 ^ 64
        → can_create (root_dir ++ lib.to_hex acc.n_file) fs ≡ true
        → (let w =
              write_notiffile lib ib plenty root_dir
                (some random)
                acc
                (ns ++ (response fr ∷ []))
                fs in
            (w.0 ≡ ok tt) × (read_notiffile lib ib plenty root_dir acc w.2 ≡ error))
    unfolding write_notiffile read_notiffile file_path nf_format notifs-Keeps
    read_notiffile-response acc fs ns fr kept known fits count able =
        let write = notif_bin_write lib plenty in
        let all = ns ++ (response fr ∷ []) in
        let k = notifs-Keeps acc all (response-AllWritten acc ns fr kept known.sized) fits count in
        let size = length-append (joined write ns) (write (response fr)) in
        let short = length-response lib acc fr known.sized in
        let apart : length (joined write ns) + 41 ≢ length (joined write all) =
          rw (joined-snoc write ns (response fr)) (λ e. omega (arith, e, size, short)) in
        read_datafile-misaligned lib ib (nf_format lib ib plenty) acc acc all k random drawn
          (root_dir ++ lib.to_hex acc.n_file) fs able all (length (joined write ns) + 41)
          (response-items acc ns fr kept known) apart
