-- ===== src/NetConnect/IpLocation.antt =====
-- my_code/net_connect/ip_location: an address, and the calls that open a connection.
--
-- The calls of the operating system are a parameter, `Os`: each takes what it changes, `World`, and
-- gives the descriptor or whether it failed. A descriptor is the 32-bit pattern of an int. The texts
-- that are printed for a failure are not modelled; the failures are.
use distributed_rocks_db_tes.Prelude.{ℕ, Bool, Option, none, some, [], if◌then◌else◌}
use distributed_rocks_db_tes.Prelude.Bytes.{Bytes}

-- sockaddr_in, in network byte order.
pub record Address : Type 0 where
  pub sin_family : ℕ
  pub sin_port : ℕ
  pub sin_addr : ℕ

abbrev pub af_inet : ℕ
af_inet = 2

abbrev pub inaddr_any : ℕ
inaddr_any = 0

-- -1 as an int.
abbrev pub minus_one : ℕ
minus_one = 4294967295

pub record Os (World : Type 0) : Type 0 where
  pub htons : ℕ → ℕ
  -- The address of a text; `none` is a result that is not positive.
  pub inet_pton : Bytes → Option ℕ
  pub socket : World → ℕ × World
  -- These tell whether they failed.
  pub connect : ℕ → Address → World → Bool × World
  pub set_reuse_address : ℕ → World → Bool × World
  pub bind : ℕ → Address → World → Bool × World
  pub listen : ℕ → ℕ → World → Bool × World
  pub accept : ℕ → World → ℕ × World

pub record IpLocation : Type 0 where
  pub ip_address : Bytes
  pub port : ℕ
  pub store_node_address : Address

-- The default constructor.
abbrev pub null_location : IpLocation
null_location = record {
  ip_address = [];
  port = 0;
  store_node_address = record { sin_family = 0; sin_port = 0; sin_addr = 0 };
}

-- The address that a failed conversion leaves, from the initialiser of the class.
abbrev pub address_or_zero : Option ℕ → ℕ
address_or_zero none = 0
address_or_zero (some address) = address

-- The parameters hide the members of the same names, which keep what the class gives them.
module _ {World : Type 0} (os : Os World) where
  unfoldable pub make_location : Bytes → ℕ → IpLocation
  make_location ip_address port = record {
    ip_address = [];
    port = 0;
    store_node_address = record {
      sin_family = af_inet;
      sin_port = os.htons port;
      sin_addr = address_or_zero (os.inet_pton ip_address);
    };
  }

  -- A failure of either call is only printed.
  unfoldable pub connect_to : IpLocation → World → ℕ × World
  connect_to location world =
      let (socket_fd, world') = os.socket world in
      let (failed, world'') = os.connect socket_fd location.store_node_address world' in
      (socket_fd, world'')

  -- A failure is only printed, that of setsockopt apart.
  unfoldable pub receive_from : ℕ → World → ℕ × World
  receive_from port world =
      let (listen_fd, w1) = os.socket world in
      let (refused, w2) = os.set_reuse_address listen_fd w1 in
      let listen_address : Address = record {
        sin_family = af_inet;
        sin_port = os.htons port;
        sin_addr = inaddr_any;
      } in
      let (unbound, w3) = os.bind listen_fd listen_address w2 in
      let (deaf, w4) = os.listen listen_fd 10 w3 in
      if refused then (minus_one, w2) else os.accept listen_fd w4
