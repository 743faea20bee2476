-- ===== src/Prelude/Tables.antt =====
-- A list of lists as an array of chains: reading back a written chain, and counting all entries.
use Prim.Native.Nat.{ℕ, zero, suc, ◌+◌, ◌<◌}
use mathlib.Core.Path.{◌≡◌, refl}
use mathlib.Core.List.{List, [], ◌∷◌, flatten}
use native.Mathlib.Omega.{arith}
use ibchat.Prelude.Tests.{◌==◌, if◌then◌else◌}
use ibchat.Prelude.Lists.{length, get_or, set, replicate, length-append}

module _ {ℓ} {A : Type ℓ} where
  pub get_or-set :
      (xs : List A) (i j : ℕ) (v d : A)
      → i < length xs
      → get_or (set xs i v) j d ≡ (if i == j then v else get_or xs j d)
  get_or-set [] i j v d h = absurd (omega arith)
  get_or-set (x ∷ xs) zero zero v d h = refl
  get_or-set (x ∷ xs) zero (suc j) v d h = ground arith
  get_or-set (x ∷ xs) (suc i) zero v d h = ground arith
  get_or-set (x ∷ xs) (suc i) (suc j) v d h = ground (arith, get_or-set xs i j v d)

  pub get_or-replicate : (n i : ℕ) (d : A) → get_or (replicate n d) i d ≡ d
  get_or-replicate zero i d = refl
  get_or-replicate (suc n) zero d = refl
  get_or-replicate (suc n) (suc i) d = get_or-replicate n i d

  pub flatten-replicate : (n : ℕ) → flatten {A = A} (replicate n []) ≡ []
  unfolding flatten
  flatten-replicate zero = refl
  flatten-replicate (suc n) = flatten-replicate n

  -- Replacing the chain at `i` changes the number of entries by the difference in length.
  pub length-flatten-set :
      (i : ℕ) (new : List A) (chains : List (List A))
      → i < length chains
      → length (get_or chains i []) + length (flatten (set chains i new))
        ≡ length new + length (flatten chains)
  unfolding flatten
  length-flatten-set i new [] h = absurd (omega arith)
  length-flatten-set zero new (l ∷ rest) h =
      omega (arith, length-append l (flatten rest), length-append new (flatten rest))
  length-flatten-set (suc i) new (l ∷ rest) h =
      let shorter = length-flatten-set i new rest (omega arith) in
      omega
        (arith, shorter, length-append l (flatten rest), length-append l (flatten (set rest i new)))
