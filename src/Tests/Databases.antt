-- ===== src/Tests/Databases.antt =====
-- Examples for DbHandle.
use distributed_rocks_db_tes.Prelude.{[], ◌∷◌, ◌++◌, arith}
use distributed_rocks_db_tes.Prelude.Bytes.{codes}
use distributed_rocks_db_tes.Rocks.Entries.{seek, Position, off, rows_of}
use distributed_rocks_db_tes.Rocks.Reference.{memory, memory-IsRocks, rows_of-off}
use distributed_rocks_db_tes.DbHandle.{
  get_iterator_str, get_smaller_or_equal_but_as_large_as_possible,
}
use distributed_rocks_db_tes.DbHandle.Floor.{
  IsFloor, get_smaller_or_equal_but_as_large_as_possible-IsFloor, get_iterator_str-not_found,
  LooksUp,
}
use distributed_rocks_db_tes.Tests.Samples.{three_rows, three_rows-IsSorted, three_handle}

-- The seek passes the key that is stored, to one that is as long: the copy goes past its end.
get_iterator_str-not_found_example :
    LooksUp memory memory-IsRocks
      (codes "d")
      (seek (codes "d" ++ (0 ∷ [])) three_rows)
      (get_iterator_str memory (codes "d") three_handle)
get_iterator_str-not_found_example =
    get_iterator_str-not_found memory memory-IsRocks (codes "d") three_handle (omega arith)

abbrev start : Position
start = off three_rows

get_smaller_or_equal_but_as_large_as_possible-IsFloor_example :
    IsFloor
      (codes "e")
      (rows_of start)
      (get_smaller_or_equal_but_as_large_as_possible memory (codes "e") start).0
      (get_smaller_or_equal_but_as_large_as_possible memory (codes "e") start).1
get_smaller_or_equal_but_as_large_as_possible-IsFloor_example =
    get_smaller_or_equal_but_as_large_as_possible-IsFloor memory memory-IsRocks (codes "e") start
      (rw rows_of-off three_rows-IsSorted)
