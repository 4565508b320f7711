-- ===== src/NetConnect/NetFile.antt =====
-- my_code/net_connect/net_file: a connection, by its descriptor.
--
-- A message is what one `recv` returns: it overwrites the start of the receive buffer, whose other
-- bytes stay from earlier messages.
use distributed_rocks_db_tes.Prelude.{ℕ, ◌++◌, length, take, drop}
use distributed_rocks_db_tes.Prelude.Bytes.{Bytes}
use distributed_rocks_db_tes.HandleBuff.{max_line, to_size}
use distributed_rocks_db_tes.NetConnect.IpLocation
use distributed_rocks_db_tes.NetConnect.IpLocation.{Os, minus_one, make_location, connect_to}

pub data ConnectKind : Type 0 where
  to from : ConnectKind

pub record NetFile : Type 0 where
  pub connect_fd : ℕ

abbrev pub file_of_fd : ℕ → NetFile
file_of_fd connect_fd = record { connect_fd = connect_fd }

abbrev pub null_file : NetFile
null_file = record { connect_fd = minus_one }

unfoldable pub open_file :
    {World : Type 0} → Os World → ConnectKind → ℕ → Bytes → World → NetFile × World
open_file os to port ip_address world =
    let (fd, world') = connect_to os (make_location os ip_address port) world in
    (file_of_fd fd, world')
open_file os from port ip_address world =
    let (fd, world') = IpLocation.receive_from os port world in (file_of_fd fd, world')

-- The bytes that `send_to(inf, len)` sends, a length within the buffer, as every caller's is where its
-- writes succeeded. What `send` returns is dropped, as in the source.
abbrev pub send_to : Bytes → ℕ → Bytes
send_to inf len = take (to_size len) inf

-- The buffer after a `recv` of MAXLINE bytes at most. The count that the source's method returns, which
-- tells a closed connection, is left out: its one reader prints it.
unfoldable pub receive_from : Bytes → Bytes → Bytes
receive_from message buff = let got = take max_line message in got ++ drop (length got) buff
