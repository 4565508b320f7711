-- ===== src/ConstValues.antt =====
-- my_code/const_values: the words of the protocol. MAXLINE is `max_line` in HandleBuff.
use distributed_rocks_db_tes.Prelude.Bytes.{Bytes, codes}

abbrev pub put_word : Bytes
put_word = codes "put"

abbrev pub get_word : Bytes
get_word = codes "get"

abbrev pub del_word : Bytes
del_word = codes "del"

abbrev pub del_log_word : Bytes
del_log_word = codes "dlg"

abbrev pub commit_log_word : Bytes
commit_log_word = codes "CLG"

abbrev pub size_word : Bytes
size_word = codes "size"

abbrev pub quit_word : Bytes
quit_word = codes "quit"

abbrev pub log_word : Bytes
log_word = codes "log"

abbrev pub test_word : Bytes
test_word = codes "test"

abbrev pub ok_word : Bytes
ok_word = codes "ok"

abbrev pub max_key_word : Bytes
max_key_word = codes "max"

abbrev pub min_key_word : Bytes
min_key_word = codes "min"

abbrev pub less_or_equal_one_word : Bytes
less_or_equal_one_word = codes "LEO"
