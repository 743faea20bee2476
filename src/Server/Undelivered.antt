-- ===== src/Server/Undelivered.antt =====
-- server/undelivered.c: the file of messages that wait for a user. It has a header of the file's
-- length, the number of messages and their MAC, and then the messages, each with a MAC that also
-- covers the MAC before it.
pub mod Image
pub mod Add
pub mod Load
pub mod Delivery
pub mod Errors
mod Tests
use ibchat.Prelude.{
  pure, guard, ◌>>=◌, ◌>>◌, ℕ, zero, suc, ◌+◌, ◌-◌, ◌^◌, ◌%◌, Option, none, some, Bytes, List, [],
  ◌∷◌, ◌++◌, bytes_eq, length, take, drop, ◌==◌, ◌&&◌, if◌then◌else◌, ℤ, success, failure, Bool,
  true, false,
}
use ibchat.External.{Libibur, Ibcrypt}
use ibchat.Stdio.{Stream, Io, fread, fwrite, fseek}
use ibchat.Files.{Files, store, open_old, can_create}

-- `struct user`; the public key is an opaque value here.
pub record User : Type 0 where
  pub pkey : Bytes
  pub uid : Bytes
  pub und_auth : Bytes

-- The previous MAC that the first message's MAC covers.
abbrev pub initial_prev_mac : Bytes
initial_prev_mac =
    0 ∷ 1 ∷ 2 ∷ 3 ∷ 4 ∷ 5 ∷ 6 ∷ 7 ∷ 8 ∷ 9 ∷ 10 ∷ 11 ∷ 12 ∷ 13 ∷ 14 ∷ 15 ∷ 16 ∷ 17 ∷ 18 ∷ 19 ∷ 20
    ∷ 21 ∷ 22 ∷ 23 ∷ 24 ∷ 25 ∷ 26 ∷ 27 ∷ 28 ∷ 29 ∷ 30 ∷ 31 ∷ []

-- sizeof(struct umessage)
abbrev pub umessage_size : ℕ
umessage_size = 24

-- A message in front of those that were loaded after it.
abbrev pub load_linked : Bytes → Option (List Bytes) → Option (List Bytes)
load_linked message none = none
load_linked message (some messages) = some (message ∷ messages)

abbrev code : Option (Unit {0}) → ℤ
code none = failure
code (some x) = success

-- The return code, what `*messages` is set to, and the files; a file is emptied once it is read.
abbrev emptied : List Bytes → ℤ × Files → ℤ × Option (List Bytes) × Files
emptied messages r = (r.0, some messages, r.1)

module _ (lib : Libibur) (ib : Ibcrypt) where
  open lib use {encbe64, decbe64}
  open ib use {hmac_sha256}

  -- The first 0x30 bytes: end of the file, number of messages, MAC of the two.
  unfoldable pub header : Bytes → ℕ → ℕ → Bytes
  header auth flen mnum =
      let fields = encbe64 flen ++ encbe64 mnum in fields ++ hmac_sha256 auth fields

  -- The body of `undel_add_message` between the opening and the closing of the file.
  unfoldable pub add_message : Bytes → Bytes → Io (Unit {0})
  add_message auth message = do
    prefix ← fread 0x30
    guard (bytes_eq (hmac_sha256 auth (take 0x10 prefix)) (drop 0x10 prefix))
    let flen = decbe64 (take 8 prefix)
    let mnum = decbe64 (take 8 (drop 8 prefix))
    let len = length message
    fseek 0
    fwrite (header auth ((flen + 8 + len + 32) % 2 ^ 64) ((mnum + 1) % 2 ^ 64))
    fseek ((flen + 2 ^ 64 - 32) % 2 ^ 64)
    last_mac ← fread 0x20
    let prev_mac = if mnum == 0 then initial_prev_mac else last_mac
    let len_buf = encbe64 len
    fwrite len_buf
    fwrite message
    fwrite (hmac_sha256 auth (prev_mac ++ (len_buf ++ message)))

-- `mem n` is the allocator's answer to a request for `n` bytes.
module _ (lib : Libibur) (ib : Ibcrypt) (mem : ℕ → Bool) where
  open lib use {encbe64, decbe64}
  open ib use {hmac_sha256}

  -- One round of the loop, past the length; `prev_mac` is overwritten with the MAC that the file has.
  unfoldable pub load_message :
      Bytes → Bytes → Bytes → (Bytes → Io (Option (List Bytes))) → Io (Option (List Bytes))
  load_message auth prev_mac len_buf next = do
    message ← fread (decbe64 len_buf)
    macf ← fread 0x20
    guard (bytes_eq (hmac_sha256 auth (prev_mac ++ (len_buf ++ message))) macf)
    messages ← next macf
    pure (load_linked message messages)

  -- The loop over the `mnum` messages. The value `none` is undefined behaviour: the null pointer
  -- that `alloc_umessage` gives is written to.
  unfoldable pub load_messages : Bytes → ℕ → Bytes → Io (Option (List Bytes))
  load_messages auth zero prev_mac = pure (some [])
  load_messages auth (suc n) prev_mac = do
    len_buf ← fread 8
    let granted = mem umessage_size && mem (decbe64 len_buf)
    let round = load_message auth prev_mac len_buf (λ macf. load_messages auth n macf)
    if granted then round else pure none

  unfoldable pub load_file : Bytes → Io (Option (List Bytes))
  load_file auth = do
    prefix ← fread 0x30
    guard (bytes_eq (hmac_sha256 auth (take 0x10 prefix)) (drop 0x10 prefix))
    load_messages auth (decbe64 (take 8 (drop 8 prefix))) initial_prev_mac

-- `undel_dir` is the string UNDEL_DIR.
module _ (lib : Libibur) (ib : Ibcrypt) (undel_dir : Bytes) where
  unfoldable pub undel_path : User → Bytes
  undel_path u = undel_dir ++ lib.to_hex u.uid

module _ (lib : Libibur) (ib : Ibcrypt) (mem : ℕ → Bool) (undel_dir : Bytes) where
  abbrev path_of : User → Bytes
  path_of = undel_path lib ib undel_dir

  -- The allocator's answer to `undel_path`: the directory, 64 digits and a null byte.
  abbrev pub has_path : Bool
  has_path = mem (length undel_dir + 64 + 1)

  unfoldable pub undel_init_file : User → Files → ℤ × Files
  undel_init_file u fs =
      if has_path && can_create (path_of u) fs
      then (success, store (path_of u) (header lib ib u.und_auth 0x30 0) fs)
      else (failure, fs)

  -- `none` is undefined behaviour: the error path closes the stream that could not be opened.
  abbrev pub add_opened : User → Bytes → Files → Option Bytes → Option (ℤ × Files)
  add_opened u message fs none = none
  add_opened u message fs (some contents) =
      let r = add_message lib ib u.und_auth message (record { bytes = contents; pos = 0 }) in
      some (code r.0, store (path_of u) r.1.bytes fs)

  unfoldable pub undel_add_message : User → Bytes → Files → Option (ℤ × Files)
  undel_add_message u message fs =
      if has_path then add_opened u message fs (open_old (path_of u) fs) else some (failure, fs)

  -- What the loop gives: a failure, undefined behaviour, or the messages.
  abbrev pub load_ended :
      User → Files → Option (Option (List Bytes)) → Option (ℤ × Option (List Bytes) × Files)
  load_ended u fs none = some (failure, none, fs)
  load_ended u fs (some none) = none
  load_ended u fs (some (some messages)) = some (emptied messages (undel_init_file u fs))

  abbrev pub load_opened : User → Files → Option Bytes → Option (ℤ × Option (List Bytes) × Files)
  load_opened u fs none = none
  load_opened u fs (some contents) =
      load_ended u fs (load_file lib ib mem u.und_auth (record { bytes = contents; pos = 0 })).0

  unfoldable pub undel_load : User → Files → Option (ℤ × Option (List Bytes) × Files)
  undel_load u fs =
      if has_path then load_opened u fs (open_old (path_of u) fs) else some (failure, none, fs)
