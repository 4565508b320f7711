-- ===== src/NetConnect/Interface.antt =====
-- The methods that my_code/net_connect declares, of an address and of a connection.
use distributed_rocks_db_tes.Prelude.{ℕ}
use distributed_rocks_db_tes.Prelude.Bytes.{Bytes}
use distributed_rocks_db_tes.NetConnect.IpLocation
use distributed_rocks_db_tes.NetConnect.IpLocation.{Os, IpLocation}
use distributed_rocks_db_tes.NetConnect.NetFile
use distributed_rocks_db_tes.NetConnect.NetFile.{NetFile, ConnectKind}

pub record Location (World Place : Type 0) : Type 0 where
  pub make_location : Bytes → ℕ → Place
  pub connect_to : Place → World → ℕ × World
  pub receive_from : ℕ → World → ℕ × World

pub record Connection (World File : Type 0) : Type 0 where
  pub null_file : File
  pub file_of_fd : ℕ → File
  pub open_file : ConnectKind → ℕ → Bytes → World → File × World
  -- What is sent of a buffer, and a buffer once a message came.
  pub send_to : Bytes → ℕ → Bytes
  pub receive_from : Bytes → Bytes → Bytes

module _ {World : Type 0} (os : Os World) where
  abbrev pub location : Location World IpLocation
  location = record {
    make_location = IpLocation.make_location os;
    connect_to = IpLocation.connect_to os;
    receive_from = IpLocation.receive_from os;
  }

  abbrev pub connection : Connection World NetFile
  connection = record {
    null_file = NetFile.null_file;
    file_of_fd = NetFile.file_of_fd;
    open_file = NetFile.open_file os;
    send_to = NetFile.send_to;
    receive_from = NetFile.receive_from;
  }
