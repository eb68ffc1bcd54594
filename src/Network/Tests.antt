-- ===== src/Network/Tests.antt =====
-- The headers of IPv4 and the sessions of TCP on concrete packets.
use methylenix.Base.{ℕ, ◌+◌, ◌%◌, ◌≡◌, ◌≢◌, refl, true, none, List, [], ◌∷◌, arith}
use methylenix.Network.{ok, Ipv4ConnectionInfo, ethernet}
use methylenix.Network.Ipv4.{create_default_ipv4_header}
use methylenix.Network.Ipv4.Checksum.{Created, create_default_ipv4_header-Valid}
use methylenix.Network.Tcp.Waiting.{fin, ack, arrive_all, we_closed_first, waits_for_ever}
use methylenix.Network.Tcp.{
  opened, closed, closed_opposite_opened, TcpSendDataBufferHeader, TcpSessionInfo, TcpSegmentInfo,
  Device,
}
use methylenix.Network.Tcp.Send.{send_tcp_ipv4_data}
use methylenix.Network.Tcp.Send.Sent.{Sent, Done, send_tcp_ipv4_data-Sent, send_tcp_ipv4_data-Done}
use methylenix.Network.Tcp.Receive.{Arrived, Sink, write_sink, ipv4_tcp_data_handler}
use methylenix.Network.Tcp.Receive.Gap.{queued, filled_gap}
use methylenix.RingBuffer.{Ringbuffer, Memory, write}

create_default_ipv4_header-Valid_example :
    Created 20 520 (create_default_ipv4_header 20 520 7 128 6 3232235777 3232235778)
create_default_ipv4_header-Valid_example =
    create_default_ipv4_header-Valid 20 520 7 128 6 3232235777 3232235778 (omega arith)
      (omega arith) (omega arith) (omega arith) (omega arith)

-- 100 and 200 bytes wait for their acknowledgement.
abbrev piece : ℕ → ℕ → TcpSendDataBufferHeader
piece number size = record {
  buffer_length = size + 72;
  sequence_number = number;
  payload_size = size;
}

abbrev session : TcpSessionInfo
session = record {
  status = opened;
  our_port = 80;
  their_port = 4000;
  window_size = 1000;
  available_window_size = 700;
  expected_arrival_sequence_number = 50;
  next_sequence_number = 1300;
  last_sent_acknowledge_number = 50;
  receive_buffer_list = [];
  send_buffer_list = piece 1000 100 ∷ piece 1100 200 ∷ [];
}

abbrev segment : ℕ → ℕ → TcpSegmentInfo
segment number acknowledgement = record {
  sender_port = 4000;
  destination_port = 80;
  sequence_number = number;
  acknowledgement_number = acknowledgement;
  window_size = 1000;
}

abbrev device : Device
device = record { kmalloc = λ i size. none; reply_data = λ i p. none }

abbrev connection : Ipv4ConnectionInfo
connection = record { sender_address = 3232235778; destination_address = 3232235777 }

-- A session of which the other side has acknowledged our FIN.
abbrev half_closed : TcpSessionInfo
half_closed = record session { status = closed_opposite_opened; send_buffer_list = [] }

waits_for_ever_example :
    let t =
      arrive_all device
        (fin (segment 50 1300) ethernet connection true ∷ ack (segment 51 1301) ∷ [])
        half_closed in
    (we_closed_first t.status ≡ true) × (t.status ≢ closed)
waits_for_ever_example =
    waits_for_ever device
      (fin (segment 50 1300) ethernet connection true ∷ ack (segment 51 1301) ∷ []) half_closed refl

abbrev text : List ℕ
text = 72 ∷ 101 ∷ 108 ∷ 108 ∷ 111 ∷ []

send_tcp_ipv4_data-Sent_example :
    Sent session text (send_tcp_ipv4_data device connection ethernet session text)
send_tcp_ipv4_data-Sent_example =
    send_tcp_ipv4_data-Sent device connection ethernet session text (omega arith)

send_tcp_ipv4_data-Done_example : Done (send_tcp_ipv4_data device connection ethernet session text)
send_tcp_ipv4_data-Done_example =
    send_tcp_ipv4_data-Done device connection session text ((λ i size. refl), (λ i p. refl)) refl

-- 4 bytes at 8192 behind 54 bytes of headers.
abbrev arrived : Arrived
arrived = record {
  allocated_data_base = 8192;
  data_length = 58;
  payload_offset = 54;
  payload_size = 4;
}

abbrev ring : Ringbuffer
ring = record { buffer = 4096; size = 16; write_ptr = 0; read_ptr = 15 }

abbrev bytes : Memory
bytes a = a % 256

abbrev sink : Sink
sink = (ring, bytes)

-- The session after that, and the sink after each of the two writes.
abbrev waiting_session : TcpSessionInfo
waiting_session = record session { receive_buffer_list = queued (segment 54 1000) arrived ∷ [] }

abbrev sink1 : Sink
sink1 = (write_sink 8246 4 sink).1

abbrev sink2 : Sink
sink2 = (write_sink 8246 4 sink1).1

first_write : write_sink 8246 4 sink ≡ (4, sink1)
unfolding write_sink write
first_write = refl

second_write : write_sink 8246 4 sink1 ≡ (4, sink2)
unfolding write_sink write
second_write = refl

filled_gap_example :
    let (r, t, sink', _) = ipv4_tcp_data_handler (segment 50 1000) arrived waiting_session sink in
    (r ≡ ok true)
    × (t.receive_buffer_list ≡ [])
    × (sink' ≡ sink2)
    × (t.expected_arrival_sequence_number ≡ 54)
filled_gap_example =
    filled_gap (segment 50 1000) arrived waiting_session sink sink1 sink2
      (queued (segment 54 1000) arrived) refl refl refl first_write second_write
