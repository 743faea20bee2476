-- ===== src/Server/HandlerTable/Remove.antt =====
-- `rem_handler` on every branch, and `end_handlers`.
use ibchat.Prelude.{
  ℕ, zero, suc, ◌+◌, ◌-◌, ◌*◌, ◌/◌, ◌%◌, ◌^◌, ◌<◌, ◌≡◌, refl, sym, ◌∙◌, Bool, ◌&&◌, not, Option,
  none, some, Bytes, bytes_eq, List, [], ◌∷◌, length, get_or, map, if◌then◌else◌, ltb, leb, pos,
  success, failure, flatten, arith, ap, length-append, length-map, Bool-cases, inl, inr,
}
use ibchat.External.{Libibur, Ibcrypt}
use ibchat.Buckets.{
  first, unlink_first, copies, first-unlink_first, copies-unlink_first-le, length-unlink_first,
}
use ibchat.Buckets.Placed.{home, length-flatten-home}
use ibchat.Server.HandlerTable.{
  ClientHandler, HandlerTable, id_of, hash_id, get_handler, index, chain, rem_handler,
  unlink_handler, min_size, end_handlers, stopped,
}
use ibchat.Server.HandlerTable.Valid.{
  IsValid, resize_handler_table-IsValid, resize_handler_table_code,
}
use ibchat.Server.HandlerTable.Write.{written, written-IsValid}

module _ (lib : Libibur) (ib : Ibcrypt) (t : HandlerTable) (valid : IsValid lib ib t)
    (id : Bytes) where
  -- The table without the handler, before it shrinks.
  abbrev unlinked : HandlerTable
  unlinked =
      written lib ib t valid id (unlink_first id_of id (chain lib ib t id))
        ((t.elements + 2 ^ 64 - 1) % 2 ^ 64)

  -- A table with a handler counts at least one.
  counted_one : (old : ClientHandler) → get_handler lib ib t id ≡ some old → 0 < t.elements
  unfolding get_handler
  counted_one old present =
      let spot : index lib ib t id ≡ home id_of (hash_id lib ib) id (length t.buckets) =
        ap (λ (m : ℕ). hash_id lib ib id % m) (sym valid.width) in
      omega (
        arith,
        length-flatten-home id_of (hash_id lib ib) t.buckets id
            (unlink_first id_of id (chain lib ib t id)) (omega (arith, valid.width, valid.least)),
        length-unlink_first id_of id (chain lib ib t id) old present,
        ap (λ (i : ℕ). length (get_or t.buckets i [])) spot,
        valid.counted,
      )

  unlinked-IsValid :
      (q : Bytes) (old : ClientHandler)
      → get_handler lib ib t id ≡ some old
      → t.elements < 2 ^ 64
      → IsValid lib ib unlinked
        × (get_handler lib ib unlinked q ≡ (if bytes_eq id q then none else get_handler lib ib t q))
  unfolding get_handler
  unlinked-IsValid q old present few =
      let c = chain lib ib t id in
      written-IsValid lib ib t valid id (unlink_first id_of id c)
        ((t.elements + 2 ^ 64 - 1) % 2 ^ 64) none
        (omega
          (arith, copies-unlink_first-le id_of id id c, (valid.placed id (index lib ib t id)).0))
        (λ r ne. copies-unlink_first-le id_of id r c)
        (omega (arith, counted_one old present, length-unlink_first id_of id c old present))
        (λ r. first-unlink_first id_of id r c (valid.placed r (index lib ib t id)).0) q

  unlink_handler-present :
      (mem : Bool) (q : Bytes) (old : ClientHandler)
      → get_handler lib ib t id ≡ some old
      → t.elements < 2 ^ 64
      → (let r = unlink_handler lib ib mem id t in
          IsValid lib ib r.1
          × (get_handler lib ib r.1 q ≡ (if bytes_eq id q then none else get_handler lib ib t q))
          × (r.1.elements + 1 ≡ t.elements)
          × (r.0 ≡ (
              if ltb t.elements (t.size / 4 + 1) && leb (2 * min_size) t.size && not mem
              then failure
              else success)))
  unfolding unlink_handler
  unlink_handler-present mem q old present few =
      let (base, reads) = unlinked-IsValid q old present few in
      let some_left = counted_one old present in
      let counts : (t.elements + 2 ^ 64 - 1) % 2 ^ 64 + 1 ≡ t.elements = omega arith in
      elim (Bool-cases (ltb ((t.elements + 2 ^ 64 - 1) % 2 ^ 64) (t.size / 4))) [
        | inl shrinks ↦
            let (v, same, kept) =
              resize_handler_table-IsValid lib ib mem (t.size / 2) unlinked q base in
            rw shrinks (
              v,
              kept ∙ reads,
              omega (arith, same, counts),
              resize_handler_table_code lib ib mem (t.size / 2) unlinked
                  ∙ ground (arith, valid.least, valid.most, counts),
            )
        | inr stays ↦ rw stays (base, reads, counts, ground (arith, counts))
      ]

  -- `rem_handler` of a connected client's id keeps the table valid, removes that client, changes
  -- no other lookup and counts one less. It returns 0 but where the table has to shrink and there
  -- is no memory for it; the client is removed there too.
  pub rem_handler-present :
      (mem : Bool) (q : Bytes) (old : ClientHandler)
      → get_handler lib ib t id ≡ some old
      → t.elements < 2 ^ 64
      → (let r = rem_handler lib ib mem id t in
          IsValid lib ib r.1
          × (get_handler lib ib r.1 q ≡ (if bytes_eq id q then none else get_handler lib ib t q))
          × (r.1.elements + 1 ≡ t.elements)
          × (r.0 ≡ (
              if ltb t.elements (t.size / 4 + 1) && leb (2 * min_size) t.size && not mem
              then failure
              else success)))
  unfolding rem_handler get_handler
  rem_handler-present mem q old present few =
      rw (present, rem_handler) (unlink_handler-present mem q old present few)

  -- An id that is not in the table is answered with 1, and the table stays as it is.
  pub rem_handler-absent :
      (mem : Bool) → get_handler lib ib t id ≡ none → rem_handler lib ib mem id t ≡ (pos 1, t)
  unfolding rem_handler get_handler
  rem_handler-absent mem absent = rw (absent, rem_handler)

-- Stopping the handlers of a chain changes no id.
abbrev pub stop_found : Option ClientHandler → Option ClientHandler
stop_found none = none
stop_found (some h) = some (stopped h)

first-stopped :
    (q : Bytes) (c : List ClientHandler)
    → first id_of q (map stopped c) ≡ stop_found (first id_of q c)
unfolding first
first-stopped q [] = refl
first-stopped q (h ∷ c) = ground (arith, first-stopped q c)

copies-stopped :
    (q : Bytes) (c : List ClientHandler) → copies id_of q (map stopped c) ≡ copies id_of q c
unfolding copies
copies-stopped q [] = refl
copies-stopped q (h ∷ c) = ground (arith, copies-stopped q c)

get_or-stopped :
    (bs : List (List ClientHandler)) (i : ℕ)
    → get_or (map (map stopped) bs) i [] ≡ map stopped (get_or bs i [])
get_or-stopped [] i = refl
get_or-stopped (c ∷ bs) zero = refl
get_or-stopped (c ∷ bs) (suc i) = get_or-stopped bs i

length-flatten-stopped :
    (bs : List (List ClientHandler)) → length (flatten (map (map stopped) bs)) ≡ length (flatten bs)
unfolding flatten
length-flatten-stopped [] = refl
length-flatten-stopped (c ∷ bs) = omega (
  arith,
  length-append (map stopped c) (flatten (map (map stopped) bs)),
  length-append c (flatten bs),
  length-map c stopped,
  length-flatten-stopped bs,
)

-- After `end_handlers` the table is valid, holds the same clients, and the stop flag of every
-- client that a lookup can first is set.
pub end_handlers-IsValid :
    (lib : Libibur) (ib : Ibcrypt) (t : HandlerTable) (q : Bytes)
    → IsValid lib ib t
    → IsValid lib ib (end_handlers t)
      × (get_handler lib ib (end_handlers t) q ≡ stop_found (get_handler lib ib t q))
unfolding end_handlers
end_handlers-IsValid lib ib t q valid =
    let width : length (map (map stopped) t.buckets) ≡ length t.buckets =
      length-map t.buckets (map stopped) in
    (
      record {
        width = width ∙ valid.width;
        placed = λ r i.
            rw (width, get_or-stopped t.buckets i, copies-stopped r (get_or t.buckets i []))
              (valid.placed r i);
        counted = valid.counted ∙ sym (length-flatten-stopped t.buckets);
        least = valid.least;
        most = valid.most;
      },
      unfold get_handler in
          rw (get_or-stopped t.buckets (index lib ib t q)) (first-stopped q (chain lib ib t q)),
    )
