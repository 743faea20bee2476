-- ===== src/Client/Friend/Kept.antt =====
-- A friend's form in a file, written and read.
use ibchat.Prelude.{
  plenty, ◌+◌, ◌^◌, ◌<◌, ◌≡◌, refl, ◌++◌, length, length-append, append_assoc, leb, false, Bytes,
  arith,
}
use ibchat.External.{Libibur, Ibcrypt}
use ibchat.Codec.{undefined}
use ibchat.Codec.Steps.{flat-Stands, bytes-Stands}
use ibchat.Client.Uname.{gen_uid}
use ibchat.Client.Friend.{Friend, friend_bin_size, friend_write_bin, friend_parse_bin}

-- A friend whose fields have the sizes of the structure, and whose id is that of the name.
pub record IsFriend (ib : Ibcrypt) (f : Friend) : Type 0 where
  pub named : f.uid ≡ gen_uid ib f.uname
  pub short : length f.uname + length f.pkey < 2 ^ 60
  pub c_file : length f.c_file ≡ 32
  pub f_symm : length f.f_symm_key ≡ 32
  pub f_hmac : length f.f_hmac_key ≡ 32
  pub s_symm : length f.s_symm_key ≡ 32
  pub s_hmac : length f.s_hmac_key ≡ 32
  pub r_symm : length f.r_symm_key ≡ 32
  pub r_hmac : length f.r_hmac_key ≡ 32
  pub s_count : f.s_nonce < 2 ^ 64
  pub r_count : f.r_nonce < 2 ^ 64

module _ (lib : Libibur) (ib : Ibcrypt) (f : Friend) (valid : IsFriend ib f) where
  open lib use {encbe64, decbe64}

  -- The sizes of the fields, added up.
  size : length (friend_write_bin lib ib plenty f) ≡ 256 + length f.uname + length f.pkey
  unfolding friend_write_bin
  size =
      rw
        (
          length-append, length-append, length-append, length-append, length-append, length-append,
          length-append, length-append, length-append, length-append, length-append, length-append,
          lib.length-encbe64, lib.length-encbe64, lib.length-encbe64, lib.length-encbe64,
        )
        (omega (arith, valid))

  pub length-friend_write_bin : length (friend_write_bin lib ib plenty f) ≡ friend_bin_size f
  unfolding friend_bin_size
  length-friend_write_bin = omega (arith, size, valid.short)

  pub friend_write_bin-pos : 0 < length (friend_write_bin lib ib plenty f)
  friend_write_bin-pos = omega (arith, size)

  -- The size of a friend's name is read, and then the name is written past its block.
  pub friend-overruns :
      (before after : Bytes)
      → friend_parse_bin lib ib plenty
          (before ++ (friend_write_bin lib ib plenty f ++ after))
          (length before)
        ≡ undefined
  unfolding friend_parse_bin friend_write_bin
  friend-overruns before after =
      let n₁ = encbe64 (length f.uname) in
      let n₂ = encbe64 (length f.pkey) in
      let fields =
        f.uname
        ++ (f.pkey
            ++ (f.c_file
                ++ (f.f_symm_key
                    ++ (f.f_hmac_key
                        ++ (f.s_symm_key
                            ++ (f.s_hmac_key
                                ++ (f.r_symm_key
                                    ++ (f.r_hmac_key
                                        ++ (encbe64 f.s_nonce ++ encbe64 f.r_nonce))))))))) in
      let flat : friend_write_bin lib ib plenty f ++ after ≡ n₁ ++ (n₂ ++ (fields ++ after)) =
        simp append_assoc in
      let start = flat-Stands before (friend_write_bin lib ib plenty f) after _ flat in
      let (r₁, s₁) = bytes-Stands 8 n₁ (lib.length-encbe64 (length f.uname)) start in
      let (r₂, s₂) = bytes-Stands 8 n₂ (lib.length-encbe64 (length f.pkey)) s₁ in
      let d₁ = lib.decbe64-encbe64 (length f.uname) (omega (arith, valid.short)) in
      let small : leb (length f.uname + 2) (length f.uname) ≡ false = ground arith in
      rw (r₁, r₂, d₁, small) refl
