-- ===== src/StoreNode.antt =====
-- my_code/store_node: a storage process, with its data, its log and the commands it serves.
pub mod StoreData
pub mod StoreLog
pub mod StoreImpl
