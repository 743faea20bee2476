-- ===== src/Client/Account.antt =====
-- A server account of the user, its form in a file, and the choice of one (client/account.c).
pub mod Kept
use ibchat.Prelude.{
  ℕ, zero, suc, ◌+◌, ◌*◌, ◌-◌, ◌%◌, ◌^◌, ◌==◌, Bool, Option, none, some, Bytes, List, [], ◌∷◌, ◌++◌,
  length, if◌then◌else◌, ℤ, pos, negsuc, success,
}
use ibchat.External.{Libibur}
use ibchat.Codec.{Parse, pure, guard, bytes, ◌>>=◌, ◌>>◌}
use ibchat.Client.Friend.{Friend}

-- `struct account`; `u_len`, `a_len` and `k_len` are the lengths of the first three fields.
pub record Account : Type 0 where
  pub uname : Bytes
  pub addr : Bytes
  pub key_bin : Bytes
  pub sfing : Bytes
  pub f_file : Bytes
  pub f_symm : Bytes
  pub f_hmac : Bytes
  pub n_file : Bytes
  pub n_symm : Bytes
  pub n_hmac : Bytes
  pub friends : List Friend

-- sizeof(struct account)
abbrev pub account_size : ℕ
account_size = 288

unfoldable pub account_bin_size : Account → ℕ
account_bin_size a =
    (8 + 8 + 8 + length a.uname + length a.addr + length a.key_bin + 7 * 0x20) % 2 ^ 64

module _ (lib : Libibur) (mem : ℕ → Bool) where
  open lib use {encbe64, decbe64}

  unfoldable pub account_write_bin : Account → Bytes
  account_write_bin a =
      encbe64 (length a.uname)
      ++ (encbe64 (length a.addr)
          ++ (encbe64 (length a.key_bin)
              ++ (a.uname
                  ++ (a.addr
                      ++ (a.key_bin
                          ++ (a.sfing
                              ++ (a.f_file
                                  ++ (a.f_symm
                                      ++ (a.f_hmac ++ (a.n_file ++ (a.n_symm ++ a.n_hmac)))))))))))

  unfoldable pub account_parse_bin : Parse Account
  account_parse_bin = do
    guard (mem account_size)
    u_len ← bytes 8
    a_len ← bytes 8
    k_len ← bytes 8
    guard (mem ((decbe64 u_len + 1) % 2 ^ 64))
    guard (mem ((decbe64 a_len + 1) % 2 ^ 64))
    guard (mem (decbe64 k_len))
    uname ← bytes (decbe64 u_len)
    addr ← bytes (decbe64 a_len)
    key_bin ← bytes (decbe64 k_len)
    sfing ← bytes 0x20
    f_file ← bytes 0x20
    f_symm ← bytes 0x20
    f_hmac ← bytes 0x20
    n_file ← bytes 0x20
    n_symm ← bytes 0x20
    n_hmac ← bytes 0x20
    pure (record {
      uname = uname;
      addr = addr;
      key_bin = key_bin;
      sfing = sfing;
      f_file = f_file;
      f_symm = f_symm;
      f_hmac = f_hmac;
      n_file = n_file;
      n_symm = n_symm;
      n_hmac = n_hmac;
      friends = [];
    })

-- The account at place `idx` of the list, counted from 1; 0 and the places past the end have none.
unfoldable pub account_at : List Account → ℕ → Option Account
account_at [] idx = none
account_at (a ∷ accs) zero = none
account_at (a ∷ accs) (suc zero) = some a
account_at (a ∷ accs) (suc (suc idx)) = account_at accs (suc idx)

-- The answer of `yn_prompt`, which is 1, 0 or -1, when there is no account.
unfoldable pub pick_none : ℤ → ℤ
pick_none (negsuc zero) = negsuc 0
pick_none (negsuc (suc n)) = pos 0x55
pick_none (pos zero) = pos 1
pick_none (pos (suc n)) = pos 0x55

-- `selection` is the answer of `num_prompt`, with ULLONG_MAX for a failure.
unfoldable pub pick_one : List Account → ℕ → ℤ × Option Account
pick_one accs selection =
    if selection == 2 ^ 64 - 1
    then (negsuc 0, none)
    else if selection == 0
    then (pos 0x55, none)
    else elim (account_at accs selection) [ none ↦ (negsuc 0, none) | some a ↦ (success, some a) ]

unfoldable pub pick_account : List Account → ℤ → ℕ → ℤ × Option Account
pick_account [] answer selection = (pick_none answer, none)
pick_account (a ∷ accs) answer selection = pick_one (a ∷ accs) selection
