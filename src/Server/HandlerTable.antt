-- ===== src/Server/HandlerTable.antt =====
-- The table of connected clients in server/client_handler.c: chains of handlers by user id.
pub mod Valid
pub mod Write
pub mod Add
pub mod Remove
mod Tests
use ibchat.Prelude.{
  ℕ, ◌+◌, ◌-◌, ◌*◌, ◌/◌, ◌%◌, ◌^◌, bit_xor, Bool, true, false, ◌||◌, Option, none, some, Bytes,
  bytes_eq, List, [], ◌∷◌, ◌++◌, length, take, drop, get_or, set, map, replicate, ltb, leb,
  if◌then◌else◌, ℤ, pos, success, failure,
}
use ibchat.External.{Libibur, Ibcrypt}
use ibchat.Buckets.{first, unlink_first}
use ibchat.Buckets.Moved.{move_all}

-- `struct client_handler`; `hndl` and `keys` are the addresses of the connection and its keys. The
-- `next` pointers are the order of a chain.
pub record ClientHandler : Type 0 where
  pub fd : ℕ
  pub id : Bytes
  pub hndl : ℕ
  pub keys : ℕ
  pub stop : Bool

-- `struct handler_table`
pub record HandlerTable : Type 0 where
  pub buckets : List (List ClientHandler)
  pub size : ℕ
  pub elements : ℕ

abbrev pub max_size : ℕ
max_size = 2 ^ 20

abbrev pub min_size : ℕ
min_size = 16

abbrev pub id_of : ClientHandler → Bytes
id_of h = h.id

-- `mem` is the allocator's answer: whether `malloc` gives the memory that is asked for.
unfoldable pub init_handler_table : Bool → HandlerTable → ℤ × HandlerTable
init_handler_table false t = (pos 1, t)
init_handler_table true t =
    (success, record { buckets = replicate min_size []; size = min_size; elements = 0 })

-- cur->stop = 1;
abbrev pub stopped : ClientHandler → ClientHandler
stopped h = record h { stop = true }

-- Every handler of every bucket is told to stop.
unfoldable pub end_handlers : HandlerTable → HandlerTable
end_handlers t = record t { buckets = map (map stopped) t.buckets }

module _ (lib : Libibur) (ib : Ibcrypt) where
  open lib use {decbe64}

  unfoldable pub hash_id : Bytes → ℕ
  hash_id id =
      let shasum = ib.sha256 id in
      bit_xor
        (bit_xor (bit_xor (decbe64 (take 8 shasum)) (decbe64 (take 8 (drop 8 shasum))))
          (decbe64 (take 8 (drop 16 shasum))))
        (decbe64 (take 8 (drop 24 shasum)))

  -- The index of the chain for `id`, and the chain.
  abbrev pub index : HandlerTable → Bytes → ℕ
  index t id = hash_id id % t.size

  abbrev pub chain : HandlerTable → Bytes → List ClientHandler
  chain t id = get_or t.buckets (index t id) []

  unfoldable pub resize_handler_table : Bool → ℕ → HandlerTable → ℤ × HandlerTable
  resize_handler_table mem nsize t =
      if ltb max_size nsize || ltb nsize min_size
      then (success, t)
      else if mem
      then (
        success,
        record t { buckets = move_all id_of hash_id t.buckets (replicate nsize []); size = nsize },
      )
      else (failure, t)

  unfoldable pub get_handler : HandlerTable → Bytes → Option ClientHandler
  get_handler t id = first id_of id (chain t id)

  -- Past the loop: the handler is linked at the end of its chain, and the table may grow. The load
  -- bound `size * 0.75` is exact for the sizes that occur.
  unfoldable pub link_handler : Bool → ClientHandler → HandlerTable → ℤ × HandlerTable
  link_handler mem handler t =
      let linked = record t {
        buckets = set t.buckets (index t handler.id) (chain t handler.id ++ (handler ∷ []));
        elements = (t.elements + 1) % 2 ^ 64;
      } in
      if ltb (linked.size * 3 / 4) linked.elements
      then resize_handler_table mem (linked.size * 2) linked
      else (success, linked)

  -- The loop stops at a handler with the same id, and nothing is added then.
  unfoldable pub add_handler : Bool → ClientHandler → HandlerTable → ℤ × HandlerTable
  add_handler mem handler t = elim (first id_of handler.id (chain t handler.id)) [
    | some duplicate ↦ (pos 1, t)
    | none ↦ link_handler mem handler t
  ]

  unfoldable pub unlink_handler : Bool → Bytes → HandlerTable → ℤ × HandlerTable
  unlink_handler mem id t =
      let unlinked = record t {
        buckets = set t.buckets (index t id) (unlink_first id_of id (chain t id));
        elements = (t.elements + 2 ^ 64 - 1) % 2 ^ 64;
      } in
      if ltb unlinked.elements (unlinked.size / 4)
      then resize_handler_table mem (unlinked.size / 2) unlinked
      else (success, unlinked)

  unfoldable pub rem_handler : Bool → Bytes → HandlerTable → ℤ × HandlerTable
  rem_handler mem id t = elim (first id_of id (chain t id)) [
    | none ↦ (pos 1, t)
    | some found ↦ unlink_handler mem id t
  ]
