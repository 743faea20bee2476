-- ===== src/Client/Account/Kept.antt =====
-- An account's form in a file, written and read, and the choice of an account.
use ibchat.Prelude.{
  plenty, ℕ, ◌+◌, ◌^◌, ◌<◌, ◌≡◌, refl, ap, [], ◌++◌, length, length-append, append_assoc, arith,
}
use ibchat.External.{Libibur}
use ibchat.Codec.{ok}
use ibchat.Codec.Steps.{Reads, flat-Stands, bytes-Stands}
use ibchat.Client.Account.{Account, account_bin_size, account_write_bin, account_parse_bin}

-- An account whose fields have the sizes of the structure. The friends are not part of its form.
pub record IsAccount (a : Account) : Type 0 where
  pub short : length a.uname + length a.addr + length a.key_bin < 2 ^ 60
  pub sfing : length a.sfing ≡ 0x20
  pub f_file : length a.f_file ≡ 0x20
  pub f_symm : length a.f_symm ≡ 0x20
  pub f_hmac : length a.f_hmac ≡ 0x20
  pub n_file : length a.n_file ≡ 0x20
  pub n_symm : length a.n_symm ≡ 0x20
  pub n_hmac : length a.n_hmac ≡ 0x20
  pub alone : a.friends ≡ []

module _ (lib : Libibur) (a : Account) (valid : IsAccount a) where
  open lib use {encbe64, decbe64}

  -- The sizes of the fields, added up.
  size :
      length (account_write_bin lib plenty a)
      ≡ 248 + length a.uname + length a.addr + length a.key_bin
  unfolding account_write_bin
  size =
      rw
        (
          length-append, length-append, length-append, length-append, length-append, length-append,
          length-append, length-append, length-append, length-append, length-append, length-append,
          lib.length-encbe64, lib.length-encbe64, lib.length-encbe64,
        )
        (omega (arith, valid))

  pub length-account_write_bin : length (account_write_bin lib plenty a) ≡ account_bin_size a
  unfolding account_bin_size
  length-account_write_bin = omega (arith, size, valid.short)

  pub account_write_bin-pos : 0 < length (account_write_bin lib plenty a)
  account_write_bin-pos = omega (arith, size)

  pub account-Reads : Reads (account_parse_bin lib plenty) (account_write_bin lib plenty a) a
  unfolding account_parse_bin account_write_bin
  account-Reads before after =
      let n₁ = encbe64 (length a.uname) in
      let n₂ = encbe64 (length a.addr) in
      let n₃ = encbe64 (length a.key_bin) in
      let flat : account_write_bin lib plenty a ++ after
          ≡ n₁
            ++ (n₂
                ++ (n₃
                    ++ (a.uname
                        ++ (a.addr
                            ++ (a.key_bin
                                ++ (a.sfing
                                    ++ (a.f_file
                                        ++ (a.f_symm
                                            ++ (a.f_hmac
                                                ++ (a.n_file
                                                    ++ (a.n_symm ++ (a.n_hmac ++ after)))))))))))) =
        simp append_assoc in
      let start = flat-Stands before (account_write_bin lib plenty a) after _ flat in
      let (r₁, s₁) = bytes-Stands 8 n₁ (lib.length-encbe64 (length a.uname)) start in
      let (r₂, s₂) = bytes-Stands 8 n₂ (lib.length-encbe64 (length a.addr)) s₁ in
      let (r₃, s₃) = bytes-Stands 8 n₃ (lib.length-encbe64 (length a.key_bin)) s₂ in
      let (r₄, s₄) = bytes-Stands (length a.uname) a.uname refl s₃ in
      let (r₅, s₅) = bytes-Stands (length a.addr) a.addr refl s₄ in
      let (r₆, s₆) = bytes-Stands (length a.key_bin) a.key_bin refl s₅ in
      let (r₇, s₇) = bytes-Stands 0x20 a.sfing valid.sfing s₆ in
      let (r₈, s₈) = bytes-Stands 0x20 a.f_file valid.f_file s₇ in
      let (r₉, s₉) = bytes-Stands 0x20 a.f_symm valid.f_symm s₈ in
      let (r₁₀, s₁₀) = bytes-Stands 0x20 a.f_hmac valid.f_hmac s₉ in
      let (r₁₁, s₁₁) = bytes-Stands 0x20 a.n_file valid.n_file s₁₀ in
      let (r₁₂, s₁₂) = bytes-Stands 0x20 a.n_symm valid.n_symm s₁₁ in
      let (r₁₃, s₁₃) = bytes-Stands 0x20 a.n_hmac valid.n_hmac s₁₂ in
      let d₁ = lib.decbe64-encbe64 (length a.uname) (omega (arith, valid.short)) in
      let d₂ = lib.decbe64-encbe64 (length a.addr) (omega (arith, valid.short)) in
      let d₃ = lib.decbe64-encbe64 (length a.key_bin) (omega (arith, valid.short)) in
      rw (r₁, r₂, r₃, d₁, d₂, d₃, r₄, r₅, r₆, r₇, r₈, r₉, r₁₀, r₁₁, r₁₂, r₁₃, ← valid.alone)
        (ap (λ (n : ℕ). ok (a, n)) (omega (arith, size)))
