-- ===== src/Client/DataFile/Argument.antt =====
-- Writing a data file of a format whose keys leave the argument alone leaves it alone.
use ibchat.Prelude.{
  ◌≡◌, refl, ◌∙◌, Bool, true, false, Option, none, some, Bytes, List, if◌then◌else◌, ℕ, ◌+◌, ◌%◌,
  ◌^◌, ◌++◌, length,
}
use ibchat.External.{Libibur, Ibcrypt}
use ibchat.Files.{Files, can_create}
use ibchat.Codec.{Verdict, ok, error, undefined}
use ibchat.Client.DataFile.{
  FormatDesc, file_contents, fill_prefix, with_keys, keys_of, payload_length, closed,
  write_datafile,
}

module _ {Arg A : Type 0} (lib : Libibur) (ib : Ibcrypt) (mem : ℕ → Bool) (f : FormatDesc Arg A)
    (arg : Arg) (same : (extra : Bytes) → (keys_of f arg extra).1 ≡ arg) where
  with_keys-arg :
      (fields random : Bytes) (xs : List A) (k : Option (Bytes × Bytes) × Arg)
      → (with_keys lib ib mem f fields random xs k).1 ≡ k.1
  with_keys-arg fields random xs (none, a) = refl
  with_keys-arg fields random xs (some (symm, hmac), a) = refl

  fill_prefix-arg :
      (random : Bytes) (xs : List A) → (fill_prefix lib ib mem f random arg xs).1 ≡ arg
  unfolding fill_prefix
  fill_prefix-arg random xs = by_fill (f.p_fill arg)
    where
      by_fill :
          (o : Option Bytes)
          → (elim o as (λ _. Verdict Bytes × Arg) [
            | none ↦ (error, arg)
            | some extra ↦
                let num = lib.encbe64 (length xs % 2 ^ 64) in
                let fields = num ++ (lib.encbe64 (payload_length f xs) ++ (random ++ extra)) in
                with_keys lib ib mem f fields random xs (keys_of f arg extra)
          ]).1
            ≡ arg
      by_fill none = refl
      by_fill (some extra) = with_keys-arg _ random xs (keys_of f arg extra) ∙ same extra

  file_contents-arg :
      (random : Option Bytes) (xs : List A) → (file_contents lib ib mem f random arg xs).1 ≡ arg
  unfolding file_contents
  file_contents-arg random xs = by_mem (mem (0x50 + f.pref_len)) random
    where
      by_mem :
          (b : Bool) (o : Option Bytes)
          → (if b
              then elim o as (λ _. Verdict Bytes × Arg) [
                | none ↦ (error, arg)
                | some r ↦ fill_prefix lib ib mem f r arg xs
              ]
              else (error, arg)).1
            ≡ arg
      by_mem false o = refl
      by_mem true none = refl
      by_mem true (some r) = fill_prefix-arg r xs

  closed-arg :
      (path : Bytes) (fs : Files) (r : Verdict Bytes × Arg)
      → r.1 ≡ arg
      → (closed lib ib mem f path fs r).1 ≡ arg
  closed-arg path fs (ok contents, a) e = e
  closed-arg path fs (error, a) e = e
  closed-arg path fs (undefined, a) e = e

  pub write_datafile-arg :
      (path : Bytes) (random : Option Bytes) (xs : List A) (fs : Files)
      → (write_datafile lib ib mem f path random arg xs fs).1 ≡ arg
  unfolding write_datafile
  write_datafile-arg path random xs fs = by_open (can_create path fs)
    where
      by_open :
          (b : Bool)
          → (if b
              then closed lib ib mem f path fs (file_contents lib ib mem f random arg xs)
              else (error, arg, fs)).1
            ≡ arg
      by_open false = refl
      by_open true = closed-arg path fs _ (file_contents-arg random xs)
