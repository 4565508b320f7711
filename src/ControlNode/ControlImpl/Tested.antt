-- ===== src/ControlNode/ControlImpl/Tested.antt =====
-- The command of control_impl that has the first node print a string.
use distributed_rocks_db_tes.Prelude.{◌+◌, ◌≡◌, refl, some, [], ◌∷◌, arith, length, ◌≤◌}
use distributed_rocks_db_tes.Prelude.Bytes.{Bytes}
use distributed_rocks_db_tes.ConstValues.{test_word}
use distributed_rocks_db_tes.HandleBuff.{max_line, start_of, to_int}
use distributed_rocks_db_tes.HandleBuff.Writes.{insert_str_s-frames}
use distributed_rocks_db_tes.Rocks.{Rocks, IsRocks}
use distributed_rocks_db_tes.Rocks.Entries.{Rows}
use distributed_rocks_db_tes.NetConnect.NetFile.{receive_from}
use distributed_rocks_db_tes.StoreNode.StoreImpl.Silent.{
  test_message, length-test_message, step-test,
}
use distributed_rocks_db_tes.StoreNode.StoreImpl.Messages.{take-advance}
use distributed_rocks_db_tes.ControlNode.ControlImpl.{ControlImpl, test}
use distributed_rocks_db_tes.ControlNode.ControlImpl.Requests.{
  OnlyNode, Reaches, talked, talked-Reaches, talked-OnlyNode,
}

receive_from-nil : (buff : Bytes) → receive_from [] buff ≡ buff
unfolding receive_from
receive_from-nil buff = refl

module _ {Db Iterator : Type 0} (r : Rocks Db Iterator) (laws : IsRocks r) where
  -- The command ends, and the entries and the log of the first node, the metadata and the other nodes
  -- stay.
  pub test-Reaches :
      (text : Bytes) {c : ControlImpl Db} {stored kept : Rows}
      → Reaches r laws c 0 stored kept
      → length text + 14 ≤ max_line
      → (c' : ControlImpl Db) × (test r text c ≡ some c')
        × Reaches r laws c' 0 stored kept
        × OnlyNode 0 c c'
  unfolding test talked
  test-Reaches text {c} h short =
      let (node', e, g) = step-test r laws text h.holds short in
      let message : Bytes = test_message text in
      let size : length message ≡ length text + 14 = length-test_message text in
      let c' : ControlImpl Db = talked r laws 0 message node' [] c in
      (
        c',
        rw
            (
              insert_str_s-frames (start_of c.send_buff) (test_word ∷ text ∷ []) 0 (
                omega arith,
                omega (arith, h.send_room),
                (omega (arith, short), omega (arith, short, h.send_room), tt),
              ),
              h.has_node,
              take-advance message c.send_buff (to_int (0 + length message)) (omega (arith, size))
                  (omega arith),
              e,
              receive_from-nil c.receive_buff,
            )
            refl,
        talked-Reaches r laws h message [] node' (omega (arith, size)) (omega arith) g,
        talked-OnlyNode r laws 0 message [] node' c,
      )
