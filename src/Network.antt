-- ===== src/Network.antt =====
-- kernel/network_manager.rs: what the layers of the network share. A 16-bit or 32-bit field of a
-- header is its value; `to_be` and `from_be` are applied on the way in and out and cancel.
pub mod Ipv4
pub mod Tcp
pub mod Udp
mod HandlerTests
mod Tests
use methylenix.Memory.Error.{MemoryError}
use methylenix.Base.{ℕ}

pub data NetworkError : Type 0 where
  invalid_device data_size_error invalid_socket invalid_network_address : NetworkError
  network_internal_error data_overflowed out_of_buffer : NetworkError
  memory_error : MemoryError → NetworkError

-- Rust's `Result<A, NetworkError>`
pub data Result (A : Type 0) : Type 0 where
  ok : A → Result A
  err : NetworkError → Result A

-- The sender is the opposite side, the destination our side.
pub record Ipv4ConnectionInfo : Type 0 where
  pub sender_address : ℕ
  pub destination_address : ℕ

-- `Ethernet` carries the frame information, which the network device alone reads.
pub data LinkType : Type 0 where
  no_link ethernet : LinkType

-- `unimplemented!()` for IPv6 is a panic of the code.
pub data InternetType : Type 0 where
  no_internet ipv6 : InternetType
  ipv4 : Ipv4ConnectionInfo → InternetType
