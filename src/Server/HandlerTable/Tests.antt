-- ===== src/Server/HandlerTable/Tests.antt =====
-- A table with one client and the theorems at it, with the sample external libraries.
use ibchat.Prelude.{
  ◌+◌, ◌*◌, ◌/◌, ◌≡◌, refl, bytes_eq, [], ◌∷◌, arith, some, none, success, failure, true, false,
  pos, if◌then◌else◌, ltb, leb, ◌&&◌, not, flatten,
}
use ibchat.External.Samples.{libibur, ibcrypt}
use ibchat.Buckets.{first, unlink_first, copies}
use ibchat.Buckets.Moved.{move_all, move_chain}
use ibchat.Server.HandlerTable.{
  ClientHandler, HandlerTable, hash_id, get_handler, add_handler, link_handler, rem_handler,
  unlink_handler, resize_handler_table, init_handler_table, end_handlers, max_size, min_size,
}
use ibchat.Server.HandlerTable.Valid.{IsValid, init_handler_table-IsValid}
use ibchat.Server.HandlerTable.Add.{add_handler-new, add_handler-duplicate}
use ibchat.Server.HandlerTable.Remove.{rem_handler-present, rem_handler-absent}

abbrev alice : ClientHandler
alice = record { fd = 4; id = 7 ∷ []; hndl = 100; keys = 200; stop = false }

abbrev unset : HandlerTable
unset = record { buckets = []; size = 0; elements = 0 }

abbrev empty : HandlerTable
empty = (init_handler_table true unset).1

program : Unit {0}
unfolding libibur ibcrypt hash_id get_handler add_handler link_handler rem_handler unlink_handler
    resize_handler_table init_handler_table end_handlers first unlink_first copies move_all
    move_chain flatten
program = tt

empty-IsValid : IsValid libibur ibcrypt empty
empty-IsValid = (init_handler_table-IsValid libibur ibcrypt unset []).0

add_handler-new_example :
    (let r = add_handler libibur ibcrypt true alice empty in
      IsValid libibur ibcrypt r.1
      × (get_handler libibur ibcrypt r.1 (7 ∷ []) ≡ (
          if bytes_eq alice.id (7 ∷ [])
          then some alice
          else get_handler libibur ibcrypt empty (7 ∷ [])))
      × (r.1.elements ≡ empty.elements + 1)
      × (r.0 ≡ (
          if ltb (empty.size * 3 / 4) (empty.elements + 1)
            && leb (empty.size * 2) max_size
            && not true
          then failure
          else success)))
unfolding program
add_handler-new_example =
    add_handler-new libibur ibcrypt empty empty-IsValid alice true (7 ∷ []) refl (omega arith)

abbrev one : HandlerTable
one = (add_handler libibur ibcrypt true alice empty).1

one-IsValid : IsValid libibur ibcrypt one
unfolding program
one-IsValid =
    (add_handler-new libibur ibcrypt empty empty-IsValid alice true [] refl (omega arith)).0

add_handler-duplicate_example : add_handler libibur ibcrypt true alice one ≡ (pos 1, one)
unfolding program
add_handler-duplicate_example =
    add_handler-duplicate libibur ibcrypt one one-IsValid alice true alice refl

rem_handler-present_example :
    (let r = rem_handler libibur ibcrypt true (7 ∷ []) one in
      IsValid libibur ibcrypt r.1
      × (get_handler libibur ibcrypt r.1 (7 ∷ [])
          ≡ (if bytes_eq (7 ∷ []) (7 ∷ []) then none else get_handler libibur ibcrypt one (7 ∷ [])))
      × (r.1.elements + 1 ≡ one.elements)
      × (r.0 ≡ (
          if ltb one.elements (one.size / 4 + 1) && leb (2 * min_size) one.size && not true
          then failure
          else success)))
unfolding program
rem_handler-present_example =
    rem_handler-present libibur ibcrypt one one-IsValid (7 ∷ []) true (7 ∷ []) alice refl
      (omega arith)

rem_handler-absent_example : rem_handler libibur ibcrypt true (8 ∷ []) one ≡ (pos 1, one)
unfolding program
rem_handler-absent_example = rem_handler-absent libibur ibcrypt one one-IsValid (8 ∷ []) true refl
