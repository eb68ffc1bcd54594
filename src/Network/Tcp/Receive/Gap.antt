-- ===== src/Network/Tcp/Receive/Gap.antt =====
-- Segments that overtake each other, in `ipv4_tcp_data_handler`.
use methylenix.Base.{
  ℕ, ◌%◌, ◌≡◌, ◌≢◌, refl, sym, true, false, some, List, [], ◌∷◌, ◌++◌, add_u32, add_usize, u32_mod,
  ==_iff, ==_ne, ltb_irrefl,
}
use methylenix.Network.{ok}
use methylenix.Network.Tcp.{TcpReceiveDataBuffer, TcpSessionInfo, TcpSegmentInfo}
use methylenix.Network.Tcp.Receive.{
  Arrived, Sink, write_sink, take_entry, drain, accept_in_order, ipv4_tcp_data_handler,
}

abbrev pub queued : TcpSegmentInfo → Arrived → TcpReceiveDataBuffer
queued g a = record {
  allocated_data_base = a.allocated_data_base;
  data_length = a.data_length;
  payload_offset = a.payload_offset;
  payload_size = a.payload_size;
  sequence_number = g.sequence_number;
}

-- A segment that overtakes the expected one goes to the end of the queue, its data is kept and
-- nothing is delivered.
pub overtaking_segment :
    (g : TcpSegmentInfo) (a : Arrived) (s : TcpSessionInfo) (sink : Sink)
    → g.sequence_number ≢ s.expected_arrival_sequence_number
    → let (r, t, sink', _) = ipv4_tcp_data_handler g a s sink in
      (r ≡ ok false)
      × (t.receive_buffer_list ≡ s.receive_buffer_list ++ (queued g a ∷ []))
      × (t.expected_arrival_sequence_number ≡ s.expected_arrival_sequence_number)
      × (sink' ≡ sink)
unfolding ipv4_tcp_data_handler
overtaking_segment g a s sink ne =
    rw (==_ne g.sequence_number s.expected_arrival_sequence_number ne) (refl, refl, refl, refl)

take_entry_head :
    (number : ℕ) (e : TcpReceiveDataBuffer) (es : List TcpReceiveDataBuffer)
    → e.sequence_number ≡ number
    → take_entry number (e ∷ es) ≡ some (e, es)
take_entry_head number e es same = rw ((==_iff e.sequence_number number).1 same) refl

drain_one :
    (size number : ℕ) (e : TcpReceiveDataBuffer) (sink sink' : Sink)
    → e.sequence_number ≡ number
    → write_sink (add_usize e.allocated_data_base e.payload_offset) e.payload_size sink
      ≡ (size, sink')
    → drain 1 size number (e ∷ []) sink ≡ (true, [], sink')
unfolding drain
drain_one size number e sink sink' same w =
    rw (drain, take_entry_head number e [] same, w, ltb_irrefl size) refl

accept_in_order_run :
    (g : TcpSegmentInfo) (a : Arrived) (s : TcpSessionInfo) (sink sink1 sink2 : Sink)
    (e : TcpReceiveDataBuffer)
    → s.receive_buffer_list ≡ e ∷ []
    → write_sink (add_usize a.allocated_data_base a.payload_offset) a.payload_size sink
      ≡ (a.payload_size, sink1)
    → drain 1 a.payload_size (add_u32 g.sequence_number (a.payload_size % u32_mod)) (e ∷ []) sink1
      ≡ (true, [], sink2)
    → accept_in_order g a s sink ≡ (
      true,
      record s {
        receive_buffer_list = [];
        expected_arrival_sequence_number = add_u32 g.sequence_number (a.payload_size % u32_mod);
      },
      sink2,
    )
unfolding accept_in_order
accept_in_order_run g a s sink sink1 sink2 e q w d = rw (w, ltb_irrefl a.payload_size, q, d) refl

-- When the expected segment arrives, the one behind it is the only one waiting in the queue, and the sink
-- takes all bytes of the first and as many of the second, both are delivered and the queue becomes empty;
-- but the session then expects the number of the segment that it has just delivered from the queue.
pub filled_gap :
    (g : TcpSegmentInfo) (a : Arrived) (s : TcpSessionInfo) (sink sink1 sink2 : Sink)
    (e : TcpReceiveDataBuffer)
    → g.sequence_number ≡ s.expected_arrival_sequence_number
    → s.receive_buffer_list ≡ e ∷ []
    → e.sequence_number ≡ add_u32 g.sequence_number (a.payload_size % u32_mod)
    → write_sink (add_usize a.allocated_data_base a.payload_offset) a.payload_size sink
      ≡ (a.payload_size, sink1)
    → write_sink (add_usize e.allocated_data_base e.payload_offset) e.payload_size sink1
      ≡ (a.payload_size, sink2)
    → let (r, t, sink', _) = ipv4_tcp_data_handler g a s sink in
      (r ≡ ok true)
      × (t.receive_buffer_list ≡ [])
      × (sink' ≡ sink2)
      × (t.expected_arrival_sequence_number ≡ e.sequence_number)
unfolding ipv4_tcp_data_handler
filled_gap g a s sink sink1 sink2 e now q next w1 w2 =
    rw
      (
        (==_iff g.sequence_number s.expected_arrival_sequence_number).1 now,
        accept_in_order_run g a s sink sink1 sink2 e q w1 (drain_one _ _ e sink1 sink2 next w2),
      )
      (refl, refl, refl, sym next)
