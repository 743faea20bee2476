-- ===== src/Inet/AckMap/Tests.antt =====
-- A map with one number that waits.
use ibchat.Prelude.{◌≡◌, refl, true, false, failure}
use ibchat.Inet.AckMap.{
  AckMap, empty_map, ack_map_add, unlink, ack_map_rm, list_overdue, lists_overdue, overdue,
}
use ibchat.Inet.AckMap.Counts.{count, count_all, ack_map_rm-unknown}

program : Unit {0}
unfolding ack_map_add unlink ack_map_rm count count_all list_overdue lists_overdue
program = tt

abbrev one : AckMap
one = (ack_map_add true empty_map 35 7).1

ack_map_rm-unknown_example : ack_map_rm one 3 ≡ (failure, one)
unfolding program
ack_map_rm-unknown_example = ack_map_rm-unknown one 3 refl

overdue_after : (overdue 8 one ≡ true) × (overdue 7 one ≡ false)
unfolding program
overdue_after = (refl, refl)
