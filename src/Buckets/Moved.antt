-- ===== src/Buckets/Moved.antt =====
-- Moving all entries to a fresh array, each to the front of its new home chain, as both tables do
-- when they are resized.
use ibchat.Prelude.{
  ℕ, ◌+◌, ◌≤◌, ◌<◌, ◌≡◌, refl, ap, sym, ◌∙◌, none, some, Bytes, bytes_eq_refl, List, [], ◌∷◌, ◌++◌,
  length, set, arith, length-set, flatten, replicate, length-replicate, flatten-replicate,
}
use ibchat.Buckets.{first, copies, first-absent, copies-absent, first_of_two}
use ibchat.Buckets.Placed.{
  IsPlaced, home, chain_of, set-IsPlaced, first-set, length-flatten-home, replicate-IsPlaced,
  first-flatten, copies-replicate,
}

module _ {A : Type 0} (key : A → Bytes) (hash : Bytes → ℕ) where
  -- cur->next = nbuckets[index]; nbuckets[index] = cur;
  abbrev pub push_front : A → List (List A) → List (List A)
  push_front e fresh =
      set fresh (home key hash (key e) (length fresh)) (e ∷ chain_of key hash fresh (key e))

  -- The entries of one chain, in their order.
  unfoldable pub move_chain : List A → List (List A) → List (List A)
  move_chain [] fresh = fresh
  move_chain (e ∷ es) fresh = move_chain es (push_front e fresh)

  -- One chain after the other.
  unfoldable pub move_all : List (List A) → List (List A) → List (List A)
  move_all [] fresh = fresh
  move_all (c ∷ cs) fresh = move_all cs (move_chain c fresh)

  move_chain-append :
      (a b : List A) (fresh : List (List A))
      → move_chain (a ++ b) fresh ≡ move_chain b (move_chain a fresh)
  unfolding move_chain
  move_chain-append [] b fresh = refl
  move_chain-append (e ∷ a) b fresh = move_chain-append a b (push_front e fresh)

  move_all-flatten : (bs fresh : List (List A)) → move_all bs fresh ≡ move_chain (flatten bs) fresh
  unfolding move_all flatten move_chain
  move_all-flatten [] fresh = refl
  move_all-flatten (c ∷ cs) fresh =
      move_all-flatten cs (move_chain c fresh) ∙ sym (move_chain-append c (flatten cs) fresh)

  -- `after` holds the entries `es` besides those of `fresh`.
  pub record Moved (es : List A) (fresh after : List (List A)) : Type 0 where
    pub width : length after ≡ length fresh
    pub total : length (flatten after) ≡ length (flatten fresh) + length es
    pub placed : IsPlaced key hash after
    pub reads :
        (q : Bytes)
        → first key q (chain_of key hash after q)
          ≡ first_of_two key (first key q es) (first key q (chain_of key hash fresh q))

  move_chain-Moved :
      (es : List A) (fresh : List (List A))
      → 0 < length fresh
      → IsPlaced key hash fresh
      → ((q : Bytes) → copies key q es ≤ 1)
      → ((q : Bytes) → 0 < copies key q es → first key q (chain_of key hash fresh q) ≡ none)
      → Moved es fresh (move_chain es fresh)
  unfolding move_chain first copies
  move_chain-Moved [] fresh room placed once apart = record {
    width = refl;
    total = omega arith;
    placed = placed;
    reads = λ q. refl;
  }
  move_chain-Moved (e ∷ es) fresh room placed once apart =
      let k = key e in
      let old = chain_of key hash fresh k in
      let absent : first key k old ≡ none = apart k (rw (bytes_eq_refl k) (omega arith)) in
      let zero_k = copies-absent key k old absent in
      let next = push_front e fresh in
      let seen = λ (q : Bytes). first-set key hash fresh k (e ∷ old) room (some e) q refl in
      let t =
        move_chain-Moved es next (rw (length-set fresh _ (e ∷ old)) room)
          (set-IsPlaced key hash fresh k (e ∷ old) room placed (rw (bytes_eq_refl k) (omega arith))
            (λ q ne. rw ne (omega arith)))
          (λ q. ground (arith, once q)) (λ q h. ground (arith, seen q, once q, apart q)) in
      record {
        width = t.width ∙ length-set fresh _ (e ∷ old);
        total = omega (arith, t.total, length-flatten-home key hash fresh k (e ∷ old) room);
        placed = t.placed;
        reads = λ q. ground (arith, t.reads q, seen q, once q, first-absent key q es);
      }

  -- Moving all entries of a placed array to `n` empty chains keeps every entry and every search.
  pub move_all-Moved :
      (bs : List (List A)) (n : ℕ)
      → 0 < n
      → IsPlaced key hash bs
      → (length (move_all bs (replicate n [])) ≡ n)
        × (length (flatten (move_all bs (replicate n []))) ≡ length (flatten bs))
        × IsPlaced key hash (move_all bs (replicate n []))
        × ((q : Bytes)
            → first key q (chain_of key hash (move_all bs (replicate n [])) q)
              ≡ first key q (chain_of key hash bs q))
  move_all-Moved bs n room placed =
      let fresh : List (List A) = replicate n [] in
      let width : length fresh ≡ n = length-replicate {A = List A} n [] in
      let start = replicate-IsPlaced key hash n in
      let empty = λ (q : Bytes).
        first-absent key q (chain_of key hash fresh q) (copies-replicate key hash n _ q) in
      let t =
        move_chain-Moved (flatten bs) fresh (rw width room) start
          (λ q. (first-flatten key hash bs q placed).1) (λ q h. empty q) in
      rw (move_all-flatten bs fresh) (
        t.width ∙ width,
        omega (arith, t.total, ap length (flatten-replicate {A = A} n)),
        t.placed,
        λ q. ground (arith, t.reads q, empty q, (first-flatten key hash bs q placed).0),
      )
