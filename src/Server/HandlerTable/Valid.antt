-- ===== src/Server/HandlerTable/Valid.antt =====
-- The invariant of the table, resizing, and what a lookup means.
use ibchat.Prelude.{
  ℕ, ◌≤◌, ◌≡◌, refl, sym, ◌∙◌, Bool, true, false, ◌||◌, none, Bytes, List, [], length, replicate,
  ltb, if◌then◌else◌, ℤ, success, failure, flatten, arith, length-replicate, flatten-replicate, ap,
  Bool-cases, inl, inr,
}
use ibchat.External.{Libibur, Ibcrypt}
use ibchat.Buckets.{first, first-absent}
use ibchat.Buckets.Placed.{IsPlaced, chain_of, first-flatten, replicate-IsPlaced, copies-replicate}
use ibchat.Buckets.Moved.{move_all, move_all-Moved}
use ibchat.Server.HandlerTable.{
  ClientHandler, HandlerTable, id_of, hash_id, resize_handler_table, get_handler,
  init_handler_table, max_size, min_size,
}

module _ (lib : Libibur) (ib : Ibcrypt) where
  -- Every handler is in its home chain, no id occurs twice, and the counters are right.
  pub record IsValid (t : HandlerTable) : Type 0 where
    pub width : length t.buckets ≡ t.size
    pub placed : IsPlaced id_of (hash_id lib ib) t.buckets
    pub counted : t.elements ≡ length (flatten t.buckets)
    pub least : min_size ≤ t.size
    pub most : t.size ≤ max_size

  -- A lookup searches the handler's home chain, written for the invariant's view of the array.
  pub get_handler-chain_of :
      (t : HandlerTable) (q : Bytes)
      → length t.buckets ≡ t.size
      → get_handler lib ib t q ≡ first id_of q (chain_of id_of (hash_id lib ib) t.buckets q)
  unfolding get_handler
  get_handler-chain_of t q width = rw width

  -- In a valid table `get_handler` finds, in the one chain that it searches, what a search of all
  -- the handlers of the table finds.
  pub get_handler-flatten :
      (t : HandlerTable) (q : Bytes)
      → IsValid t
      → get_handler lib ib t q ≡ first id_of q (flatten t.buckets)
  get_handler-flatten t q valid =
      get_handler-chain_of t q valid.width
      ∙ sym (first-flatten id_of (hash_id lib ib) t.buckets q valid.placed).0

  -- Whether the allocator gives the memory or not, resizing keeps the table valid, the number of
  -- elements and every lookup.
  pub resize_handler_table-IsValid :
      (mem : Bool) (nsize : ℕ) (t : HandlerTable) (q : Bytes)
      → IsValid t
      → (let r = resize_handler_table lib ib mem nsize t in
          IsValid r.1
          × (r.1.elements ≡ t.elements)
          × (get_handler lib ib r.1 q ≡ get_handler lib ib t q))
  unfolding resize_handler_table
  resize_handler_table-IsValid mem nsize t q valid =
      elim (Bool-cases (ltb max_size nsize || ltb nsize min_size)) [
        | inl out ↦ rw out (valid, refl, refl)
        | inr fits ↦ rw fits (resized mem (ground arith) (ground arith))
      ]
    where
      resized :
          (b : Bool)
          → min_size ≤ nsize
          → nsize ≤ max_size
          → (let r : ℤ × HandlerTable =
                if b
                then (
                  success,
                  record t {
                    buckets = move_all id_of (hash_id lib ib) t.buckets (replicate nsize []);
                    size = nsize;
                  },
                )
                else (failure, t) in
              IsValid r.1
              × (r.1.elements ≡ t.elements)
              × (get_handler lib ib r.1 q ≡ get_handler lib ib t q))
      resized false lo hi = (valid, refl, refl)
      resized true lo hi =
          let (width, total, placed, reads) =
            move_all-Moved id_of (hash_id lib ib) t.buckets nsize (omega arith) valid.placed in
          (
            record {
              width = width;
              placed = placed;
              counted = omega (arith, valid.counted, total);
              least = lo;
              most = hi;
            },
            refl,
            get_handler-chain_of _ q width ∙ reads q ∙ sym (get_handler-chain_of t q valid.width),
          )

  pub resize_handler_table_code :
      (mem : Bool) (nsize : ℕ) (t : HandlerTable)
      → (resize_handler_table lib ib mem nsize t).0 ≡ (
          if ltb max_size nsize || ltb nsize min_size
          then success
          else if mem
          then success
          else failure)
  unfolding resize_handler_table
  resize_handler_table_code mem nsize t = ground arith

  -- A new table is valid and finds nobody.
  pub init_handler_table-IsValid :
      (t : HandlerTable) (q : Bytes)
      → IsValid (init_handler_table true t).1
        × (get_handler lib ib (init_handler_table true t).1 q ≡ none)
        × ((init_handler_table true t).0 ≡ success)
  unfolding init_handler_table
  init_handler_table-IsValid t q = (
    record {
      width = length-replicate {A = List ClientHandler} min_size [];
      placed = replicate-IsPlaced id_of (hash_id lib ib) min_size;
      counted = ap length (sym (flatten-replicate {A = ClientHandler} min_size));
      least = omega arith;
      most = omega arith;
    },
    get_handler-chain_of _ q refl
        ∙ first-absent id_of q _ (copies-replicate id_of (hash_id lib ib) min_size _ q),
    refl,
  )
