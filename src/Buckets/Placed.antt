-- ===== src/Buckets/Placed.antt =====
-- Where the entries of an array of chains stand, and writes to one chain.
use ibchat.Prelude.{
  ℕ, zero, suc, ◌+◌, ◌%◌, ◌≤◌, ◌<◌, ◌≡◌, ◌≢◌, refl, false, Option, Bytes, bytes_eq, bytes_eq→eq,
  List, [], ◌∷◌, length, get_or, set, arith, if◌then◌else◌, get_or-set, length-set, flatten,
  get_or-replicate, replicate, length-flatten-set,
}
use ibchat.Buckets.{first, copies, first-absent, copies-append, first-append}

module _ {A : Type 0} (key : A → Bytes) (hash : Bytes → ℕ) where
  -- The index of the chain for the id `q` in an array of `n` chains.
  abbrev pub home : Bytes → ℕ → ℕ
  home q n = hash q % n

  abbrev pub chain_of : List (List A) → Bytes → List A
  chain_of bs q = get_or bs (home q (length bs)) []

  -- No id occurs twice, and an id occurs only in its home chain.
  abbrev pub IsPlaced : List (List A) → Type 0
  IsPlaced bs =
      (q : Bytes) (i : ℕ)
      → (copies key q (get_or bs i []) ≤ 1)
        × (home q (length bs) ≢ i → copies key q (get_or bs i []) ≡ 0)

  pub copies-replicate :
      (n i : ℕ) (q : Bytes) → copies key q (get_or (replicate {A = List A} n []) i []) ≡ 0
  unfolding copies
  copies-replicate n i q = rw (get_or-replicate {A = List A} n i [])

  pub replicate-IsPlaced : (n : ℕ) → IsPlaced (replicate n [])
  unfolding copies
  replicate-IsPlaced n q i = rw (get_or-replicate {A = List A} n i []) (omega arith, λ h. refl)

  module _ (bs : List (List A)) (k : Bytes) (c : List A) (room : 0 < length bs) where
    home-lt : home k (length bs) < length bs
    home-lt = omega arith

    -- Replacing the chain of `k` by one that holds `k` at most once and no other id more often.
    pub set-IsPlaced :
        IsPlaced bs
        → copies key k c ≤ 1
        → ((q : Bytes) → bytes_eq k q ≡ false → copies key q c ≤ copies key q (chain_of bs k))
        → IsPlaced (set bs (home k (length bs)) c)
    set-IsPlaced placed once others q i =
        rw (length-set bs (home k (length bs)) c, get_or-set bs (home k (length bs)) i c [] home-lt)
          (ground (arith, placed q i, others q, bytes_eq→eq k q))

    -- The same write, as a search sees it.
    pub first-set :
        (v : Option A) (q : Bytes)
        → first key q c ≡ (if bytes_eq k q then v else first key q (chain_of bs k))
        → first key q (chain_of (set bs (home k (length bs)) c) q)
          ≡ (if bytes_eq k q then v else first key q (chain_of bs q))
    first-set v q reads =
        rw
          (
            length-set bs (home k (length bs)) c,
            get_or-set bs (home k (length bs)) (home q (length bs)) c [] home-lt,
          )
          (ground (arith, reads, bytes_eq→eq k q))

    -- The number of entries in all chains changes by the difference of the two chains.
    pub length-flatten-home :
        length (flatten (set bs (home k (length bs)) c)) + length (chain_of bs k)
        ≡ length (flatten bs) + length c
    length-flatten-home = omega (arith, length-flatten-set (home k (length bs)) c bs home-lt)

  -- In an array of placed entries a search of the home chain finds what a search of all entries
  -- finds.
  copies-flatten_absent :
      (q : Bytes) (bs : List (List A))
      → ((i : ℕ) → copies key q (get_or bs i []) ≡ 0)
      → copies key q (flatten bs) ≡ 0
  unfolding flatten copies
  copies-flatten_absent q [] h = refl
  copies-flatten_absent q (c ∷ bs) h =
      omega (
        arith,
        copies-append key q c (flatten bs),
        h 0,
        copies-flatten_absent q bs (λ i. h (suc i)),
      )

  flatten_single :
      (q : Bytes) (bs : List (List A)) (j : ℕ)
      → ((i : ℕ) → j ≢ i → copies key q (get_or bs i []) ≡ 0)
      → (first key q (flatten bs) ≡ first key q (get_or bs j []))
        × (copies key q (flatten bs) ≡ copies key q (get_or bs j []))
  unfolding flatten first copies
  flatten_single q [] j h = (refl, refl)
  flatten_single q (c ∷ bs) zero h =
      let rest = copies-flatten_absent q bs (λ i. h (suc i) (omega arith)) in
      (
        rw (first-append key q c (flatten bs), first-absent key q (flatten bs) rest) (ground arith),
        omega (arith, copies-append key q c (flatten bs)),
      )
  flatten_single q (c ∷ bs) (suc j) h =
      let here = h 0 (omega arith) in
      let (found, counted) = flatten_single q bs j (λ i ne. h (suc i) (omega arith)) in
      (
        rw (first-append key q c (flatten bs), first-absent key q c here) found,
        omega (arith, copies-append key q c (flatten bs)),
      )

  pub first-flatten :
      (bs : List (List A)) (q : Bytes)
      → IsPlaced bs
      → (first key q (flatten bs) ≡ first key q (chain_of bs q)) × (copies key q (flatten bs) ≤ 1)
  first-flatten bs q placed =
      let (found, counted) = flatten_single q bs (home q (length bs)) (λ i ne. (placed q i).1 ne) in
      (found, omega (arith, (placed q (home q (length bs))).0))
