-- ===== src/Client/Friend.antt =====
-- One friend of an account, and its form in a file (client/friends.c).
pub mod Kept
use ibchat.Prelude.{
  ℕ, ◌+◌, ◌*◌, ◌%◌, ◌^◌, Bool, ◌&&◌, Option, none, some, Bytes, List, [], ◌∷◌, ◌++◌, length, leb,
  take,
}
use ibchat.External.{Libibur, Ibcrypt}
use ibchat.Codec.{Verdict, ok, error, undefined, Parse, pure, guard, require, bytes, ◌>>=◌, ◌>>◌}
use ibchat.Client.Uname.{gen_uid}

-- `struct friend`; `u_len` and `k_len` are the lengths of the name and of the key.
pub record Friend : Type 0 where
  pub uname : Bytes
  pub pkey : Bytes
  pub uid : Bytes
  pub c_file : Bytes
  pub f_symm_key : Bytes
  pub f_hmac_key : Bytes
  pub s_symm_key : Bytes
  pub s_hmac_key : Bytes
  pub r_symm_key : Bytes
  pub r_hmac_key : Bytes
  pub s_nonce : ℕ
  pub r_nonce : ℕ

-- sizeof(struct friend)
abbrev pub friend_size : ℕ
friend_size = 312

unfoldable pub friend_bin_size : Friend → ℕ
friend_bin_size f = (8 + 8 + length f.uname + length f.pkey + 7 * 32 + 8 + 8) % 2 ^ 64

-- `mem n` is the allocator's answer to a request for `n` bytes.
module _ (lib : Libibur) (ib : Ibcrypt) (mem : ℕ → Bool) where
  open lib use {encbe64, decbe64}

  unfoldable pub friend_write_bin : Friend → Bytes
  friend_write_bin f =
      encbe64 (length f.uname)
      ++ (encbe64 (length f.pkey)
          ++ (f.uname
              ++ (f.pkey
                  ++ (f.c_file
                      ++ (f.f_symm_key
                          ++ (f.f_hmac_key
                              ++ (f.s_symm_key
                                  ++ (f.s_hmac_key
                                      ++ (f.r_symm_key
                                          ++ (f.r_hmac_key
                                              ++ (encbe64 f.s_nonce ++ encbe64 f.r_nonce)))))))))))

  -- The pointer to the name is one byte past the block that `malloc` gives, and is not null even
  -- where that is: the name with its null byte takes the bytes 1 to u_len + 1 of a block of u_len,
  -- which has no place for them. What follows would be read if the pointer were the block's own.
  unfoldable pub friend_parse_bin : Parse Friend
  friend_parse_bin = do
    guard (mem friend_size)
    u_len ← bytes 8
    k_len ← bytes 8
    guard (mem (decbe64 k_len))
    require (mem (decbe64 u_len) && leb (decbe64 u_len + 2) (decbe64 u_len))
    uname ← bytes (decbe64 u_len)
    pkey ← bytes (decbe64 k_len)
    c_file ← bytes 32
    f_symm_key ← bytes 32
    f_hmac_key ← bytes 32
    s_symm_key ← bytes 32
    s_hmac_key ← bytes 32
    r_symm_key ← bytes 32
    r_hmac_key ← bytes 32
    s_nonce ← bytes 8
    r_nonce ← bytes 8
    pure (record {
      uname = uname;
      pkey = pkey;
      uid = gen_uid ib uname;
      c_file = c_file;
      f_symm_key = f_symm_key;
      f_hmac_key = f_hmac_key;
      s_symm_key = s_symm_key;
      s_hmac_key = s_hmac_key;
      r_symm_key = r_symm_key;
      r_hmac_key = r_hmac_key;
      s_nonce = decbe64 s_nonce;
      r_nonce = decbe64 r_nonce;
    })
