-- ===== src/Codec.antt =====
-- Parsing of a buffer by a pointer that moves through it, as the client's data files are parsed.
pub mod Steps
use ibchat.Prelude.{
  ℕ, zero, suc, ◌+◌, Bool, true, false, Bytes, List, [], ◌∷◌, take, drop, length, leb, ltb,
  if◌then◌else◌,
}

-- A value, a failure that the code reports, or undefined behaviour.
pub data Verdict (A : Type 0) : Type 0 where
  ok : A → Verdict A
  error : Verdict A
  undefined : Verdict A

-- The buffer and the pointer's offset; the result has the offset at the end.
abbrev pub Parse : Type 0 → Type 0
Parse A = Bytes → ℕ → Verdict (A × ℕ)

abbrev pub continue : {A B : Type 0} → Verdict (A × ℕ) → (A → ℕ → Verdict B) → Verdict B
continue (ok (a, pos)) f = f a pos
continue error f = error
continue undefined f = undefined

abbrev pub pure : {A : Type 0} → A → Parse A
pure a buf pos = ok (a, pos)

infixl 5 ◌>>=◌ ◌>>◌
abbrev pub ◌>>=◌ : {A B : Type 0} → Parse A → (A → Parse B) → Parse B
◌>>=◌ p f buf pos = continue (p buf pos) (λ a next. f a buf next)

abbrev pub ◌>>◌ : {B : Type 0} → Parse (Unit {0}) → Parse B → Parse B
p >> q = p >>= λ _. q

abbrev pub guard : Bool → Parse (Unit {0})
guard true buf pos = ok (tt, pos)
guard false buf pos = error

-- A null pointer is used where the test fails.
abbrev pub require : Bool → Parse (Unit {0})
require true buf pos = ok (tt, pos)
require false buf pos = undefined

-- A failure that is reported.
abbrev pub fail : {A : Type 0} → Parse A
fail buf pos = error

-- Reading `n` bytes and moving past them; it is undefined past the end of the buffer.
unfoldable pub bytes : ℕ → Parse Bytes
bytes n buf pos =
    if leb (pos + n) (length buf) then ok (take n (drop pos buf), pos + n) else undefined

-- Reading `n` bytes that stand `off` bytes past the pointer, which stays where it is.
unfoldable pub peek : ℕ → ℕ → Parse Bytes
unfolding bytes
peek off n buf pos = continue (bytes n buf (pos + off)) (λ b next. ok (b, pos))

-- Moving the pointer alone.
unfoldable pub skip : ℕ → Parse (Unit {0})
skip n buf pos = ok (tt, pos + n)

-- for(i = 0; ptr - buf < len && i < n; i++) with the reader of one item
unfoldable pub items : {A : Type 0} → Parse A → ℕ → Parse (List A)
items p zero buf pos = ok ([], pos)
items p (suc n) buf pos =
    if ltb pos (length buf)
    then continue (p buf pos) (λ a next. continue (items p n buf next) (λ xs end. ok (a ∷ xs, end)))
    else ok ([], pos)
