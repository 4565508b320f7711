-- ===== src/Tests/Data.antt =====
-- Examples for the data of a node.
use distributed_rocks_db_tes.Prelude.{◌≡◌, refl, arith, if◌then◌else◌}
use distributed_rocks_db_tes.Prelude.Bytes.{codes, eq_bytes}
use distributed_rocks_db_tes.Rocks.Reference.{MemoryDb, memory, memory-IsRocks}
use distributed_rocks_db_tes.DbHandle.Counts.{bytes_of}
use distributed_rocks_db_tes.StoreNode.StoreData.{Data, StoreData, get, put, delete_1}
use distributed_rocks_db_tes.StoreNode.StoreData.Size.{IsSized, put-IsSized, delete_1-IsSized}
use distributed_rocks_db_tes.StoreNode.StoreData.Contents.{get-put}
use distributed_rocks_db_tes.Tests.Samples.{three_handle}

abbrev three_data : StoreData MemoryDb
three_data = record { db_handle = three_handle; size = 13 }

three_data-IsSized : IsSized memory memory-IsRocks three_data
unfolding bytes_of
three_data-IsSized = record { counted = refl; filled = omega arith }

abbrev item : Data
item = record { key = codes "d"; value = codes "new" }

put-IsSized_example : IsSized memory memory-IsRocks (put memory item three_data)
put-IsSized_example = put-IsSized memory memory-IsRocks item (omega arith) three_data-IsSized

delete_1-IsSized_example : IsSized memory memory-IsRocks (delete_1 memory (codes "d") three_data)
delete_1-IsSized_example = delete_1-IsSized memory memory-IsRocks (codes "d") three_data-IsSized

get-put_example :
    get memory (codes "d") (put memory item three_data)
    ≡ (if eq_bytes (codes "d") (codes "d") then codes "new" else get memory (codes "d") three_data)
get-put_example = get-put memory memory-IsRocks item (codes "d") three_data
