-- ===== src/Inet/AckMap.antt =====
-- The map of messages that wait for an acknowledgement, in inet/protocol.c: sixteen lists, chosen
-- by the low four bits of the sequence number.
pub mod Counts
mod Tests
use ibchat.Prelude.{
  ℕ, ◌%◌, Bool, true, false, Option, none, some, List, [], ◌∷◌, ◌++◌, get_or, set, replicate, ltb,
  ◌==◌, if◌then◌else◌, ◌||◌, ℤ, success, failure, flatten,
}

-- `struct ack_map_el`; the `next` pointers are the order of a list.
pub record AckMapEl : Type 0 where
  pub seq_num : ℕ
  pub time : ℕ

-- `struct ack_map`
pub record AckMap : Type 0 where
  pub lists : List (List AckMapEl)

-- ACK_MAP_MASK + 1
abbrev pub ack_lists : ℕ
ack_lists = 16

-- memset(&map, 0, sizeof(map))
abbrev pub empty_map : AckMap
empty_map = record { lists = replicate ack_lists [] }

-- seq_num & ACK_MAP_MASK
abbrev pub list_index : ℕ → ℕ
list_index seq_num = seq_num % ack_lists

-- The new element goes to the end of its list. `mem` is the allocator's answer.
unfoldable pub ack_map_add : Bool → AckMap → ℕ → ℕ → ℤ × AckMap
ack_map_add false map seq_num time = (failure, map)
ack_map_add true map seq_num time =
    let i = list_index seq_num in
    (
      success,
      record {
        lists =
            set map.lists i
              (get_or map.lists i [] ++ (record { seq_num = seq_num; time = time } ∷ []));
      },
    )

-- The list without its first element for `seq_num`; `none` at its end.
unfoldable pub unlink : ℕ → List AckMapEl → Option (List AckMapEl)
unlink seq_num [] = none
unlink seq_num (el ∷ rest) = elim (el.seq_num == seq_num) [
  | true ↦ some rest
  | false ↦ elim (unlink seq_num rest) [ none ↦ none | some rest' ↦ some (el ∷ rest') ]
]

unfoldable pub ack_map_rm : AckMap → ℕ → ℤ × AckMap
ack_map_rm map seq_num = elim (unlink seq_num (get_or map.lists (list_index seq_num) [])) [
  | none ↦ (failure, map)
  | some rest ↦ (success, record { lists = set map.lists (list_index seq_num) rest })
]

-- The check in `handle_connection`, over all lists: an element was sent before `earliest_ack`.
unfoldable pub list_overdue : ℕ → List AckMapEl → Bool
list_overdue earliest_ack [] = false
list_overdue earliest_ack (el ∷ rest) = ltb el.time earliest_ack || list_overdue earliest_ack rest

unfoldable pub lists_overdue : ℕ → List (List AckMapEl) → Bool
lists_overdue earliest_ack [] = false
lists_overdue earliest_ack (l ∷ ls) = list_overdue earliest_ack l || lists_overdue earliest_ack ls

abbrev pub overdue : ℕ → AckMap → Bool
overdue earliest_ack map = lists_overdue earliest_ack map.lists
