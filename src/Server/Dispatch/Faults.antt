-- ===== src/Server/Dispatch/Faults.antt =====
-- Messages that are too short, have an unknown code or a wrong length field.
use ibchat.Prelude.{
  ℕ, ◌+◌, ◌%◌, ◌^◌, ◌≤◌, ◌<◌, ◌≡◌, ◌≢◌, refl, Bool, true, false, none, some, Bytes, ◌==◌, length,
  take, drop, get_or, ltb, ℤ, success, failure, arith,
}
use ibchat.External.{Libibur, Ibcrypt, Rsa}
use ibchat.Server.Undelivered.{User}
use ibchat.Server.HandlerTable.{ClientHandler}
use ibchat.Server.UserDb.{user_db_get_nolock}
use ibchat.Server.Dispatch.{ServerState, handle_message, forward}

-- Three kinds of messages: less than 33 bytes, an unknown code, and a wrong length field.
pub data Ignored (lib : Libibur) (m : Bytes) : Type 0 where
  too_short : length m < 33 → Ignored lib m
  unknown_code : 33 ≤ length m → 1 < get_or m 0 0 → Ignored lib m
  unfit_length :
      41 ≤ length m
      → get_or m 0 0 ≡ 0
      → lib.decbe64 (take 8 (drop 0x21 m)) + 41 ≢ length m
      → Ignored lib m

-- The code that is returned for each.
abbrev pub answer_code : (lib : Libibur) (m : Bytes) → Ignored lib m → ℤ
answer_code lib m (too_short h) = failure
answer_code lib m (unknown_code h k) = success
answer_code lib m (unfit_length h k n) = failure

module _ (lib : Libibur) (ib : Ibcrypt) (rsa : Rsa) (mem : ℕ → Bool) (undel_dir : Bytes) (m : Bytes)
    (c : ClientHandler) (st : ServerState) where
  -- A message of type 0 to a user who exists, of 33 to 40 bytes, is long enough for the only check
  -- of its length, but the field with the payload's length is read past its end.
  pub handle_message-over_read :
      (u : User)
      → 33 ≤ length m
      → length m < 41
      → get_or m 0 0 ≡ 0
      → user_db_get_nolock lib ib st.db (take 32 (drop 1 m)) ≡ some (some u)
      → handle_message lib ib rsa mem undel_dir m c st ≡ none
  unfolding handle_message forward
  handle_message-over_read u long short type found =
      let a : ltb (length m) 33 ≡ false = ground arith in
      let b : ltb (length m) 0x29 ≡ true = ground arith in rw (a, type, found, type, b) refl

  -- A message of less than 33 bytes is refused, one with a code above 1 is ignored with 0, and one
  -- of type 0 to a user who exists, whose length field does not fit its length, is refused. Nothing
  -- changes in all three cases.
  pub handle_message-Ignored :
      (u : User) (h : Ignored lib m)
      → user_db_get_nolock lib ib st.db (take 32 (drop 1 m)) ≡ some (some u)
      → handle_message lib ib rsa mem undel_dir m c st ≡ some (answer_code lib m h, st)
  unfolding handle_message forward
  handle_message-Ignored u (too_short short) found =
      let a : ltb (length m) 33 ≡ true = ground arith in rw a refl
  handle_message-Ignored u (unknown_code long code) found =
      let a : ltb (length m) 33 ≡ false = ground arith in
      let b : ltb 1 (get_or m 0 0) ≡ true = ground arith in rw (a, b) refl
  handle_message-Ignored u (unfit_length long code differ) found =
      let field = lib.decbe64-lt (take 8 (drop 0x21 m)) in
      let a : ltb (length m) 33 ≡ false = ground arith in
      let b : ltb (length m) 0x29 ≡ false = ground arith in
      let d : ((0x29 + lib.decbe64 (take 8 (drop 0x21 m))) % 2 ^ 64 == length m) ≡ false =
        ground arith in
      rw (a, code, found, code, b, d) refl
