-- ===== src/Server/HandlerTable/Add.antt =====
-- `add_handler` on every branch.
use ibchat.Prelude.{
  ◌+◌, ◌*◌, ◌/◌, ◌%◌, ◌^◌, ◌<◌, ◌≡◌, ◌∙◌, Bool, ◌&&◌, not, none, some, Bytes, bytes_eq, bytes_eq→eq,
  bytes_eq_refl, [], ◌∷◌, ◌++◌, if◌then◌else◌, ltb, leb, pos, success, failure, arith,
  length-append, Bool-cases, inl, inr,
}
use ibchat.External.{Libibur, Ibcrypt}
use ibchat.Buckets.{first, copies, copies-absent, copies-append, first-append}
use ibchat.Server.HandlerTable.{
  ClientHandler, HandlerTable, id_of, get_handler, chain, add_handler, link_handler, max_size,
}
use ibchat.Server.HandlerTable.Valid.{
  IsValid, resize_handler_table-IsValid, resize_handler_table_code,
}
use ibchat.Server.HandlerTable.Write.{written, written-IsValid}

module _ (lib : Libibur) (ib : Ibcrypt) (t : HandlerTable) (valid : IsValid lib ib t)
    (h : ClientHandler) where
  -- The table with `h` at the end of its chain, before it grows.
  abbrev linked : HandlerTable
  linked = written lib ib t valid h.id (chain lib ib t h.id ++ (h ∷ [])) ((t.elements + 1) % 2 ^ 64)

  linked-IsValid :
      (q : Bytes)
      → get_handler lib ib t h.id ≡ none
      → t.elements + 1 < 2 ^ 64
      → IsValid lib ib linked
        × (get_handler lib ib linked q
            ≡ (if bytes_eq h.id q then some h else get_handler lib ib t q))
  unfolding get_handler
  linked-IsValid q absent few =
      let c = chain lib ib t h.id in
      let nobody = copies-absent id_of h.id c absent in
      let one = λ (r : Bytes). copies-append id_of r c (h ∷ []) in
      written-IsValid lib ib t valid h.id (c ++ (h ∷ [])) ((t.elements + 1) % 2 ^ 64) (some h)
        (unfold copies in ground (arith, one h.id, bytes_eq_refl h.id))
        (λ r ne. unfold copies in ground (arith, one r)) (omega (arith, length-append c (h ∷ [])))
        (λ r. unfold first in ground (arith, first-append id_of r c (h ∷ []), bytes_eq→eq h.id r)) q

  link_handler-new :
      (mem : Bool) (q : Bytes)
      → get_handler lib ib t h.id ≡ none
      → t.elements + 1 < 2 ^ 64
      → (let r = link_handler lib ib mem h t in
          IsValid lib ib r.1
          × (get_handler lib ib r.1 q
              ≡ (if bytes_eq h.id q then some h else get_handler lib ib t q))
          × (r.1.elements ≡ t.elements + 1)
          × (r.0 ≡ (
              if ltb (t.size * 3 / 4) (t.elements + 1) && leb (t.size * 2) max_size && not mem
              then failure
              else success)))
  unfolding link_handler
  link_handler-new mem q absent few =
      let (base, reads) = linked-IsValid q absent few in
      let counts : (t.elements + 1) % 2 ^ 64 ≡ t.elements + 1 = omega arith in
      elim (Bool-cases (ltb (t.size * 3 / 4) ((t.elements + 1) % 2 ^ 64))) [
        | inl grows ↦
            let (v, same, kept) =
              resize_handler_table-IsValid lib ib mem (t.size * 2) linked q base in
            rw grows (
              v,
              kept ∙ reads,
              same ∙ counts,
              resize_handler_table_code lib ib mem (t.size * 2) linked
                  ∙ ground (arith, valid.least),
            )
        | inr fits ↦ rw fits (base, reads, counts, ground arith)
      ]

  -- `add_handler` of a client whose id is not in the table keeps the table valid, adds the handler
  -- under its id, changes no other lookup and counts one more. It returns 0 but where the table
  -- has to grow and there is no memory for it; the handler is in the table there too.
  pub add_handler-new :
      (mem : Bool) (q : Bytes)
      → get_handler lib ib t h.id ≡ none
      → t.elements + 1 < 2 ^ 64
      → (let r = add_handler lib ib mem h t in
          IsValid lib ib r.1
          × (get_handler lib ib r.1 q
              ≡ (if bytes_eq h.id q then some h else get_handler lib ib t q))
          × (r.1.elements ≡ t.elements + 1)
          × (r.0 ≡ (
              if ltb (t.size * 3 / 4) (t.elements + 1) && leb (t.size * 2) max_size && not mem
              then failure
              else success)))
  unfolding add_handler get_handler
  add_handler-new mem q absent few = rw (absent, add_handler) (link_handler-new mem q absent few)

  -- A client whose id is in the table is refused with 1, and the table stays as it is.
  pub add_handler-duplicate :
      (mem : Bool) (old : ClientHandler)
      → get_handler lib ib t h.id ≡ some old
      → add_handler lib ib mem h t ≡ (pos 1, t)
  unfolding add_handler get_handler
  add_handler-duplicate mem old present = rw (present, add_handler)
