-- ===== src/Lib.antt =====
-- A key-value store over several storage processes, each on a RocksDB database, and a control process
-- that routes commands to them by ranges of keys.
--
-- The program (my_code/). A storage process (store_node/) keeps its data and a log of the change that is
-- pending in two databases. It serves messages in a loop: a change is first logged, which is answered by
-- the range of keys that the data will have, and then committed or dropped. The control process
-- (control_node/) keeps a range of keys for each storage process, and moves entries between neighbours.
-- Both speak by frames of strings and ints (handle_buff/) over a socket (net_connect/), with the words
-- of const_values/, and reach RocksDB through a handle (db_handle/).
--
-- The files.
--   Prelude          shared names; Prelude/Bytes has std::string as a list of bytes, and its order
--   ConstValues      const_values/const_values.cpp
--   HandleBuff       handle_buff/: insert_str_to_buff, get_string_from_buff and the others, by name.
--                    A pointer that is written through is a cursor; one that is read is the rest of
--                    the bytes. Undefined behaviour, such as a copy past the end, is `none`
--   NetConnect       net_connect/: IpLocation (an address, and the calls of the operating system that
--                    open a connection, which are a parameter) and NetFile (a connection)
--   Rocks            RocksDB as a parameter: `Rocks` has the operations that the program calls, `IsRocks`
--                    the behaviour that the headers (rocksdb_include/rocksdb/) document of them, call by
--                    call in Rocks/Calls, which the theorems take as a hypothesis (sorted entries,
--                    snapshots of iterators). Rocks/Reference is a database in memory that meets it
--   DbHandle         db_handle/: the class DB_Handle; its loops take fuel
--   StoreNode        store_node/: StoreData (store_data), StoreLog (LOG and Store_Log), StoreImpl (the
--                    operations of store_impl) and StoreImpl/Loop (its run)
--   ControlNode      control_node/: ControlMeta (control_meta: what is kept of a storage process, and its
--                    bytes) and ControlImpl (control_impl: the requests and the commands, with
--                    ControlImpl/Start its constructor, ControlImpl/Balance its re_balance and
--                    ControlImpl/Run its run). It reaches each storage process as a StoreImpl that serves
--                    one message at a time. ControlNode/Cluster has what the metadata and the
--                    processes are together, one map of short strings over ranges that follow one
--                    another. On it, Cluster/Serving has a get, a put and a del;
--                    Cluster/Balancing and Cluster/Descending a round of re_balance towards the process
--                    behind and towards that before, Cluster/Relieving the loop of such rounds,
--                    Cluster/Sides and Cluster/Passes the two passes, Cluster/Rebalanced the whole of
--                    re_balance; Cluster/Executed a command, Cluster/Session the commands that a user
--                    types, Cluster/Opened the constructor on an empty start and Cluster/Restarted
--                    on that of a former run
--   MainCpp          main_cpp/, and the input that test/test1.py prints; MainCpp/Served has the control
--                    process from its start to "quit", MainCpp/Script that input behind its start
--   Tests            every result at a concrete input
-- The file Interface of a component has the methods that its header declares as a record, and what they
-- promise as a record of laws.
--
-- Numbers. An int is its 32-bit pattern, stored least significant byte first, and the additions that the
-- source makes wrap; signed overflow, which the language leaves undefined, is not told apart. A cast to
-- size_t of a negative int is the huge number that it becomes.
--
-- Fuel. The loops of get_num and get_size take one round more than the database has entries, which
-- their results assume. The loop of store_less_or_equal_one ends in three rounds. Each while loop of
-- re_balance takes fuel, one unit for each test, and so does the loop of show_meta; more than there are
-- entries, and more than there are processes, is enough, since a round takes an entry from the process
-- that it relieves. A storage process runs over the list of the messages that arrive.
--
-- The loop of the control process reads the words of its input, a list; at their end the
-- source goes on for ever, and the model gives `none`.
--
-- Not modelled: what a connection may do to a message (it arrives whole, in one recv of MAXLINE bytes
-- at most; lost, split and joined messages are left out, and so are the counts that send and recv
-- return), how the constructors of the processes connect, what the processes print but for the
-- metadata and the answer of a get, RocksDB's options but for those of a write, its failures and its
-- durability, the arithmetic on doubles in not_too_much, which is a parameter, and RocksDB itself
-- (rocksdb_include/): it is another project's library, of which the model has the calls and their
-- documented behaviour.
pub mod Prelude
pub mod ConstValues
pub mod HandleBuff
pub mod NetConnect
pub mod Rocks
pub mod DbHandle
pub mod StoreNode
pub mod ControlNode
pub mod MainCpp
pub mod Tests
