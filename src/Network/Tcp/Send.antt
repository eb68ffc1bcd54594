-- ===== src/Network/Tcp/Send.antt =====
-- `send_tcp_ipv4_data` of network_manager/tcp.rs.
pub mod Sent
use methylenix.Base.{
  ℕ, zero, suc, ◌+◌, ◌%◌, Bool, true, false, not, ◌||◌, Option, none, some, List, [], ◌∷◌, ◌++◌,
  ◌==◌, if◌then◌else◌, length, take, drop, min, sub_u16, add_u32, u16_mod, u32_mod,
}
use methylenix.Network.{
  NetworkError, Result, ok, err, invalid_socket, out_of_buffer, memory_error, Ipv4ConnectionInfo,
  LinkType, no_link, ethernet,
}
use methylenix.Network.Tcp.{
  TcpSendDataBufferHeader, TcpSessionInfo, TcpSegmentInfo, Packet, Device, can_send, is_empty,
}

abbrev pub max_segment_size : ℕ
max_segment_size = 1460

-- `TCP_DEFAULT_HEADER_SIZE + IPV4_DEFAULT_HEADER_SIZE`
abbrev pub packet_header_size : ℕ
packet_header_size = 20 + 20

-- `size_of::<TcpSendDataBufferHeader>()`: the list node, a length and two 32-bit numbers
abbrev pub tcp_send_data_header_size : ℕ
tcp_send_data_header_size = 16 + 8 + 4 + 4

-- The result, the session, the data that is left, and the packets that the device has taken.
abbrev pub SendOutcome : Type 0
SendOutcome = Result (Unit {0}) × TcpSessionInfo × List ℕ × List Packet

unfoldable pub send_size : TcpSessionInfo → List ℕ → ℕ
send_size s bytes = min (min (length bytes) s.available_window_size) max_segment_size

-- The packet of one round of the loop.
unfoldable pub data_packet : Ipv4ConnectionInfo → TcpSessionInfo → List ℕ → Packet
unfolding send_size
data_packet info s bytes = record {
  segment = record {
    sender_port = s.our_port;
    destination_port = s.their_port;
    sequence_number = s.next_sequence_number;
    acknowledgement_number = s.last_sent_acknowledge_number;
    window_size = s.window_size;
  };
  fin = false;
  syn = false;
  ack = true;
  psh = true;
  sender_ipv4_address = info.destination_address;
  destination_ipv4_address = info.sender_address;
  payload = take (send_size s bytes) bytes;
}

-- The session after a packet of `n` bytes.
unfoldable pub count_sent : ℕ → TcpSessionInfo → TcpSessionInfo
count_sent n s = record s {
  next_sequence_number = add_u32 s.next_sequence_number (n % u32_mod);
  send_buffer_list =
      s.send_buffer_list
      ++ (record {
        buffer_length = n + packet_header_size + tcp_send_data_header_size;
        sequence_number = s.next_sequence_number;
        payload_size = n % u32_mod;
      }
          ∷ []);
  available_window_size = sub_u16 s.available_window_size (n % u16_mod);
}

-- What the device makes of round `i`: a reason to stop, or nothing. The header of a packet with at
-- most `max_segment_size` bytes is always created.
unfoldable pub round_stops :
    Device
    → Ipv4ConnectionInfo
    → LinkType
    → ℕ
    → TcpSessionInfo
    → List ℕ
    → Option (Result (Unit {0}))
unfolding send_size data_packet
round_stops d info link i s bytes =
    elim (d.kmalloc i (send_size s bytes + packet_header_size + tcp_send_data_header_size)) [
      | some e ↦ some (err (memory_error e))
      | none ↦ elim link [
        | no_link ↦ some (err invalid_socket)
        | ethernet ↦ elim (d.reply_data i (data_packet info s bytes)) [
          | none ↦ none
          | some out_of_buffer ↦ some (ok tt)
          | some e ↦ some (err e)
        ]
      ]
    ]

-- The `while` loop from round `i` on, for at most `fuel` rounds.
unfoldable pub send_loop :
    Device → Ipv4ConnectionInfo → LinkType → ℕ → ℕ → TcpSessionInfo → List ℕ → SendOutcome
unfolding send_size data_packet count_sent round_stops
send_loop d info link zero i s bytes = (ok tt, s, bytes, [])
send_loop d info link (suc fuel) i s bytes =
    let n = send_size s bytes in
    let rest = send_loop d info link fuel (suc i) (count_sent n s) (drop n bytes) in
    if is_empty bytes || s.available_window_size == 0
    then (ok tt, s, bytes, [])
    else elim (round_stops d info link i s bytes) [
      | some r ↦ (r, s, bytes, [])
      | none ↦ (rest.0, rest.1, rest.2, data_packet info s bytes ∷ rest.3)
    ]

-- Each round sends a byte at least.
unfoldable pub send_tcp_ipv4_data :
    Device → Ipv4ConnectionInfo → LinkType → TcpSessionInfo → List ℕ → SendOutcome
unfolding send_loop
send_tcp_ipv4_data d info link s bytes =
    if not (can_send s.status)
    then (err invalid_socket, s, bytes, [])
    else send_loop d info link (length bytes) 0 s bytes
