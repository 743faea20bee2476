-- ===== src/Server/HandlerTable/Write.antt =====
-- Replacing one chain of a valid table, which is what linking and unlinking a handler do.
use ibchat.Prelude.{
  ℕ, ◌+◌, ◌%◌, ◌≤◌, ◌<◌, ◌≡◌, sym, ◌∙◌, false, Option, Bytes, bytes_eq, List, [], length, get_or,
  set, if◌then◌else◌, arith, ap, length-set,
}
use ibchat.External.{Libibur, Ibcrypt}
use ibchat.Buckets.{first, copies}
use ibchat.Buckets.Placed.{home, chain_of, set-IsPlaced, first-set, length-flatten-home}
use ibchat.Server.HandlerTable.{
  ClientHandler, HandlerTable, id_of, hash_id, get_handler, index, chain,
}
use ibchat.Server.HandlerTable.Valid.{IsValid, get_handler-chain_of}

module _ (lib : Libibur) (ib : Ibcrypt) (t : HandlerTable) (valid : IsValid lib ib t)
    (k : Bytes) where
  -- The table after its chain for `k` is replaced by `c` and its counter by `n`.
  abbrev pub written : List ClientHandler → ℕ → HandlerTable
  written c n = record t { buckets = set t.buckets (index lib ib t k) c; elements = n }

  chain_eq : chain lib ib t k ≡ chain_of id_of (hash_id lib ib) t.buckets k
  chain_eq = ap (λ (n : ℕ). get_or t.buckets (hash_id lib ib k % n) []) (sym valid.width)

  pub written-IsValid :
      (c : List ClientHandler) (n : ℕ) (v : Option ClientHandler)
      → copies id_of k c ≤ 1
      → ((q : Bytes) → bytes_eq k q ≡ false → copies id_of q c ≤ copies id_of q (chain lib ib t k))
      → n + length (chain lib ib t k) ≡ t.elements + length c
      → ((q : Bytes)
          → first id_of q c ≡ (if bytes_eq k q then v else first id_of q (chain lib ib t k)))
      → (q : Bytes)
      → IsValid lib ib (written c n)
        × (get_handler lib ib (written c n) q
            ≡ (if bytes_eq k q then v else get_handler lib ib t q))
  written-IsValid c n v once others sizes reads q =
      let room : 0 < length t.buckets = omega (arith, valid.width, valid.least) in
      let spot : index lib ib t k ≡ home id_of (hash_id lib ib) k (length t.buckets) =
        ap (λ (m : ℕ). hash_id lib ib k % m) (sym valid.width) in
      let width : length (set t.buckets (index lib ib t k) c) ≡ t.size =
        length-set t.buckets _ c ∙ valid.width in
      (
        record {
          width = width;
          placed = rw spot (
              set-IsPlaced id_of (hash_id lib ib) t.buckets k c room valid.placed once
                (λ r ne. rw (← chain_eq) (others r ne)));
          counted = rw spot (
              omega (
                arith,
                length-flatten-home id_of (hash_id lib ib) t.buckets k c room,
                ap length chain_eq,
                valid.counted,
                sizes,
              ));
          least = valid.least;
          most = valid.most;
        },
        get_handler-chain_of lib ib (written c n) q width
            ∙ rw (spot, get_handler-chain_of lib ib t q valid.width)
                (first-set id_of (hash_id lib ib) t.buckets k c room v q
                  (rw (← chain_eq) (reads q))),
      )
