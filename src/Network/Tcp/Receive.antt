-- ===== src/Network/Tcp/Receive.antt =====
-- `ipv4_tcp_data_handler` of network_manager/tcp.rs, with the ring buffer of the socket.
pub mod Gap
use methylenix.Base.{
  ℕ, zero, suc, ◌+◌, ◌%◌, Bool, true, false, Option, none, some, List, [], ◌∷◌, ◌++◌, ◌==◌,
  if◌then◌else◌, ltb, length, add_u32, add_usize, u32_mod,
}
use methylenix.Network.{
  NetworkError, Result, ok, err, data_overflowed, Ipv4ConnectionInfo, LinkType,
}
use methylenix.Network.Tcp.{
  TcpReceiveDataBuffer, TcpSessionInfo, TcpSegmentInfo, Device, send_ipv4_tcp_header, is_empty,
}
use methylenix.RingBuffer.{Ringbuffer, Memory, write}

-- The write buffer and the memory.
abbrev pub Sink : Type 0
Sink = Ringbuffer × Memory

-- `write_buffer.write(address, size)`: the size written, and the sink
unfoldable pub write_sink : ℕ → ℕ → Sink → ℕ × Sink
write_sink address size (r, m) = let (n, r', m') = write r address size m in (n, (r', m'))

-- The first queued entry with a sequence number, and the others.
abbrev pub take_entry :
    ℕ → List TcpReceiveDataBuffer → Option (TcpReceiveDataBuffer × List TcpReceiveDataBuffer)
take_entry number [] = none
take_entry number (e ∷ es) =
    if e.sequence_number == number
    then some (e, es)
    else elim (take_entry number es) [ none ↦ none | some (found, rest) ↦ some (found, e ∷ rest) ]

-- The loop `'outer_loop`: whether everything was written, the queue and the sink. The sizes are
-- compared with `payload_size`, that of the segment that has just arrived.
unfoldable pub drain :
    ℕ → ℕ → ℕ → List TcpReceiveDataBuffer → Sink → Bool × List TcpReceiveDataBuffer × Sink
drain zero payload_size number queue sink = (true, queue, sink)
drain (suc fuel) payload_size number queue sink = elim (take_entry number queue) [
  | none ↦ (true, queue, sink)
  | some (e, rest) ↦
      let (written, sink') =
        write_sink (add_usize e.allocated_data_base e.payload_offset) e.payload_size sink in
      let more = drain fuel payload_size (add_u32 number (payload_size % u32_mod)) rest sink' in
      if ltb written payload_size then (false, queue, sink') else more
]

-- The segment is at `allocated_data_base`, `data_length` bytes with the headers.
pub record Arrived : Type 0 where
  pub allocated_data_base : ℕ
  pub data_length : ℕ
  pub payload_offset : ℕ
  pub payload_size : ℕ

-- The segment whose number is the expected one: whether it was written as a whole.
unfoldable pub accept_in_order :
    TcpSegmentInfo → Arrived → TcpSessionInfo → Sink → Bool × TcpSessionInfo × Sink
accept_in_order g a s sink =
    let next = add_u32 g.sequence_number (a.payload_size % u32_mod) in
    let (written, sink') =
      write_sink (add_usize a.allocated_data_base a.payload_offset) a.payload_size sink in
    if ltb written a.payload_size
    then (false, s, sink')
    else let queue = s.receive_buffer_list in
      let (all, queue', sink'') = drain (length queue) a.payload_size next queue sink' in
      if all
      then (
        true,
        record s { receive_buffer_list = queue'; expected_arrival_sequence_number = next },
        sink'',
      )
      else (false, record s { receive_buffer_list = queue' }, sink'')

-- The acknowledgement of the segment; its loss is only reported.
abbrev pub acknowledged : TcpSegmentInfo → Arrived → TcpSessionInfo → TcpSessionInfo
acknowledged g a s = record s {
  last_sent_acknowledge_number = add_u32 g.sequence_number (a.payload_size % u32_mod);
}

-- The header that goes out with it.
abbrev pub reply : TcpSegmentInfo → TcpSessionInfo → Option TcpSegmentInfo
reply g s = some (record {
  sender_port = g.destination_port;
  destination_port = g.sender_port;
  sequence_number = s.next_sequence_number;
  acknowledgement_number = s.last_sent_acknowledge_number;
  window_size = g.window_size;
})

-- The result, which says whether the caller frees the data; the session; the sink; and the header that
-- goes to the device.
abbrev pub Received : Type 0
Received = Result Bool × TcpSessionInfo × Sink × Option TcpSegmentInfo

unfoldable pub ipv4_tcp_data_handler : TcpSegmentInfo → Arrived → TcpSessionInfo → Sink → Received
unfolding accept_in_order
ipv4_tcp_data_handler g a s sink =
    if g.sequence_number == s.expected_arrival_sequence_number
    then (let (all, s', sink') = accept_in_order g a s sink in
        let s'' = acknowledged g a s' in
        if all then (ok true, s'', sink', reply g s'') else (err data_overflowed, s', sink', none))
    else (let s'' = acknowledged g a (record s {
      receive_buffer_list =
          s.receive_buffer_list
          ++ (record {
            allocated_data_base = a.allocated_data_base;
            data_length = a.data_length;
            payload_offset = a.payload_offset;
            payload_size = a.payload_size;
            sequence_number = g.sequence_number;
          }
              ∷ []);
    }) in
        (ok false, s'', sink, reply g s''))
