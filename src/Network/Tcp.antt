-- ===== src/Network/Tcp.antt =====
-- kernel/network_manager/tcp.rs: the sessions. `PtrLinkedList` and `LinkedList` are lists of their
-- entries here; the bytes at an address are a list too. The allocator and the network device answer each
-- call the way a `Device` says, the calls of one function being numbered from 0.
pub mod Acknowledge
pub mod Close
pub mod Dispatch
pub mod Waiting
pub mod Receive
pub mod Send
use methylenix.Base.{
  ℕ, zero, suc, ◌+◌, ◌-◌, Bool, true, false, not, ◌&&◌, Option, none, some, List, [], ◌∷◌, ◌++◌,
  ◌==◌, if◌then◌else◌, ltb, length, take, drop, min, add_u16, sub_u16, add_u32, sub_u32, add_usize,
  u16_mod, u32_mod,
}
use methylenix.Memory.Error.{MemoryError}
use methylenix.Network.{
  NetworkError, Result, ok, err, invalid_device, invalid_socket, out_of_buffer, memory_error,
  Ipv4ConnectionInfo, LinkType, no_link, ethernet, InternetType, no_internet, ipv4, ipv6,
}

pub data TcpSessionStatus : Type 0 where
  listening half_opened opened open_opposite_closed closing : TcpSessionStatus
  closing_opposite_closed closed_opposite_opened closed_opposite_closing closed : TcpSessionStatus

pub record TcpReceiveDataBuffer : Type 0 where
  pub allocated_data_base : ℕ
  pub data_length : ℕ
  pub payload_offset : ℕ
  pub payload_size : ℕ
  pub sequence_number : ℕ

pub record TcpSendDataBufferHeader : Type 0 where
  pub buffer_length : ℕ
  pub sequence_number : ℕ
  pub payload_size : ℕ

pub record TcpSessionInfo : Type 0 where
  pub status : TcpSessionStatus
  pub our_port : ℕ
  pub their_port : ℕ
  pub window_size : ℕ
  pub available_window_size : ℕ
  pub expected_arrival_sequence_number : ℕ
  pub next_sequence_number : ℕ
  pub last_sent_acknowledge_number : ℕ
  pub receive_buffer_list : List TcpReceiveDataBuffer
  pub send_buffer_list : List TcpSendDataBufferHeader

abbrev pub new : ℕ → ℕ → TcpSessionInfo
new our_port their_port = record {
  status = closed;
  our_port = our_port;
  their_port = their_port;
  window_size = 0;
  available_window_size = 0;
  expected_arrival_sequence_number = 0;
  next_sequence_number = 0;
  last_sent_acknowledge_number = 0;
  receive_buffer_list = [];
  send_buffer_list = [];
}

abbrev pub free_buffer : TcpSessionInfo → TcpSessionInfo
free_buffer s = record s { receive_buffer_list = []; send_buffer_list = [] }

pub record TcpSegmentInfo : Type 0 where
  pub sender_port : ℕ
  pub destination_port : ℕ
  pub sequence_number : ℕ
  pub acknowledgement_number : ℕ
  pub window_size : ℕ

-- A packet that goes to the network device.
pub record Packet : Type 0 where
  pub segment : TcpSegmentInfo
  pub fin : Bool
  pub syn : Bool
  pub ack : Bool
  pub psh : Bool
  pub sender_ipv4_address : ℕ
  pub destination_ipv4_address : ℕ
  pub payload : List ℕ

-- `kmalloc!`, which gives an error or nothing to complain about, and `reply_data` of the Ethernet
-- manager: the answers to the call of a given number.
pub record Device : Type 0 where
  pub kmalloc : ℕ → ℕ → Option MemoryError
  pub reply_data : ℕ → Packet → Option NetworkError

-- `send_ipv4_tcp_header`, whose one packet has no payload; that fits into a packet of IPv4
abbrev pub send_ipv4_tcp_header :
    Device → TcpSegmentInfo → Bool → Bool → Bool → ℕ → ℕ → LinkType → Option NetworkError
send_ipv4_tcp_header d g fin syn ack sender destination no_link = some invalid_device
send_ipv4_tcp_header d g fin syn ack sender destination ethernet = d.reply_data 0 (record {
  segment = g;
  fin = fin;
  syn = syn;
  ack = ack;
  psh = false;
  sender_ipv4_address = sender;
  destination_ipv4_address = destination;
  payload = [];
})

-- What a handler returns, and the session after it.
abbrev pub Handled : Type 0
Handled = Result Bool × TcpSessionInfo

abbrev pub is_empty {ℓ} : {A : Type ℓ} → List A → Bool
is_empty [] = true
is_empty (x ∷ xs) = false

abbrev pub can_send : TcpSessionStatus → Bool
can_send opened = true
can_send open_opposite_closed = true
can_send _ = false
