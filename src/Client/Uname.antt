-- ===== src/Client/Uname.antt =====
-- User names in client/uname.c: which are valid, and the id of a user.
use ibchat.Prelude.{
  ℕ, zero, suc, ◌==◌, Bool, false, ◌&&◌, ◌||◌, not, Bytes, [], ◌∷◌, ◌++◌, length, leb, ltb,
  if◌then◌else◌,
}
use ibchat.External.{Ibcrypt}

unfoldable pub valid_uname_char : ℕ → Bool
valid_uname_char c =
    (leb 97 c && leb c 122) || (leb 65 c && leb c 90) || (leb 48 c && leb c 57) || c == 95

-- The flag that the loop gathers.
unfoldable pub has_invalid : Bytes → Bool
unfolding valid_uname_char
has_invalid [] = false
has_invalid (c ∷ cs) = not (valid_uname_char c) || has_invalid cs

unfoldable pub valid_uname : Bytes → Bool
unfolding has_invalid
valid_uname uname =
    if length uname == 0 || ltb 20 (length uname) then false else not (has_invalid uname)

-- The bytes before the first null byte.
abbrev pub c_string : Bytes → Bytes
c_string [] = []
c_string (zero ∷ cs) = []
c_string (suc c ∷ cs) = suc c ∷ c_string cs

-- The terminating null byte is hashed too.
unfoldable pub gen_uid : Ibcrypt → Bytes → Bytes
gen_uid ib uname = ib.sha256 (c_string uname ++ (0 ∷ []))
