-- ===== src/Buckets.antt =====
-- Chained hash tables keyed by user ids, as the server's two tables use them: what one chain
-- does, and where the entries of an array of chains stand.
pub mod Placed
pub mod Moved
use ibchat.Prelude.{
  ℕ, zero, suc, ◌+◌, ◌%◌, ◌≤◌, ◌<◌, ◌≡◌, ◌≢◌, refl, Bool, true, false, Option, none, some, Bytes,
  bytes_eq, bytes_eq→eq, bytes_eq_refl, List, [], ◌∷◌, ◌++◌, length, get_or, set, arith,
  if◌then◌else◌,
}

module _ {A : Type 0} (key : A → Bytes) where
  -- The first entry with the id `q`.
  unfoldable pub first : Bytes → List A → Option A
  first q [] = none
  first q (e ∷ c) = if bytes_eq (key e) q then some e else first q c

  unfoldable pub copies : Bytes → List A → ℕ
  copies q [] = 0
  copies q (e ∷ c) = (if bytes_eq (key e) q then 1 else 0) + copies q c

  -- `c` without its first entry with the id `q`.
  unfoldable pub unlink_first : Bytes → List A → List A
  unlink_first q [] = []
  unlink_first q (e ∷ c) = if bytes_eq (key e) q then c else e ∷ unlink_first q c

  pub first-absent : (q : Bytes) (c : List A) → copies q c ≡ 0 → first q c ≡ none
  unfolding copies first
  first-absent q [] h = refl
  first-absent q (e ∷ c) h = ground (arith, first-absent q c)

  pub copies-absent : (q : Bytes) (c : List A) → first q c ≡ none → copies q c ≡ 0
  unfolding copies first
  copies-absent q [] h = refl
  copies-absent q (e ∷ c) h = ground (arith, copies-absent q c)

  pub copies-append : (q : Bytes) (a b : List A) → copies q (a ++ b) ≡ copies q a + copies q b
  unfolding copies
  copies-append q [] b = omega arith
  copies-append q (e ∷ a) b = omega (arith, copies-append q a b)

  -- What a search in two lists, one after the other, finds.
  abbrev pub first_of_two : Option A → Option A → Option A
  first_of_two (some e) r = some e
  first_of_two none r = r

  pub first-append :
      (q : Bytes) (a b : List A) → first q (a ++ b) ≡ first_of_two (first q a) (first q b)
  unfolding first
  first-append q [] b = refl
  first-append q (e ∷ a) b = ground (arith, first-append q a b)

  pub first-unlink_first :
      (k q : Bytes) (c : List A)
      → copies q c ≤ 1
      → first q (unlink_first k c) ≡ (if bytes_eq k q then none else first q c)
  unfolding first unlink_first copies
  first-unlink_first k q [] h = ground arith
  first-unlink_first k q (e ∷ c) h = ground (
    arith,
    first-unlink_first k q c,
    first-absent q c,
    bytes_eq→eq (key e) k,
    bytes_eq→eq (key e) q,
    bytes_eq→eq k q,
    bytes_eq_refl q,
    bytes_eq_refl k,
  )

  pub copies-unlink_first-le : (k q : Bytes) (c : List A) → copies q (unlink_first k c) ≤ copies q c
  unfolding unlink_first copies
  copies-unlink_first-le k q [] = omega arith
  copies-unlink_first-le k q (e ∷ c) = ground (arith, copies-unlink_first-le k q c)

  pub length-unlink_first :
      (k : Bytes) (c : List A) (e : A)
      → first k c ≡ some e
      → length (unlink_first k c) + 1 ≡ length c
  unfolding unlink_first first
  length-unlink_first k [] e h = absurd (cc h)
  length-unlink_first k (x ∷ c) e h = ground (arith, length-unlink_first k c e)

  -- An entry that a search finds has the id that was searched.
  pub key-first : (q : Bytes) (c : List A) (e : A) → first q c ≡ some e → key e ≡ q
  unfolding first
  key-first q [] e h = absurd (cc h)
  key-first q (x ∷ c) e h = ground (arith, key-first q c e, bytes_eq→eq (key x) q)
