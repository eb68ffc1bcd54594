-- ===== src/Network/Tcp/Dispatch.antt =====
-- `tcp_ipv4_segment_handler` of network_manager/tcp.rs: what a segment that has arrived leads to.
use Prim.Native.Nat.{bit_xor}
use methylenix.Base.{
  ℕ, ◌+◌, ◌*◌, ◌/◌, ◌%◌, ◌^◌, ◌<◌, ◌≤◌, ◌≡◌, refl, arith, Bool, not, ◌&&◌, [], ltb, ◌==◌,
  if◌then◌else◌, inl, inr, Bool-cases, add_u32, add_usize, sub_usize, u32_mod, usize_mod,
}
use methylenix.Network.Tcp.{TcpSessionInfo, half_opened, TcpSegmentInfo}

-- `DefaultTcpSegment`, with the layout of a little-endian target
pub record DefaultTcpSegment : Type 0 where
  pub sender_port : ℕ
  pub destination_port : ℕ
  pub sequence_number : ℕ
  pub acknowledgement_number : ℕ
  pub header_length_and_ns : ℕ
  pub flags : ℕ
  pub window_size : ℕ

abbrev pub tcp_default_header_size : ℕ
tcp_default_header_size = 20

abbrev pub get_header_length : DefaultTcpSegment → ℕ
get_header_length t = t.header_length_and_ns / 16 * 4

abbrev pub is_fin_active : DefaultTcpSegment → Bool
is_fin_active t = t.flags % 2 == 1

abbrev pub is_syn_active : DefaultTcpSegment → Bool
is_syn_active t = t.flags / 2 % 2 == 1

abbrev pub is_ack_active : DefaultTcpSegment → Bool
is_ack_active t = t.flags / 16 % 2 == 1

abbrev pub segment_info : DefaultTcpSegment → TcpSegmentInfo
segment_info t = record {
  sender_port = t.sender_port;
  destination_port = t.destination_port;
  sequence_number = t.sequence_number;
  acknowledgement_number = t.acknowledgement_number;
  window_size = t.window_size;
}

-- The first sequence number from the clock: the two halves of a 64-bit number.
unfoldable pub initial_sequence_number : ℕ → ℕ
initial_sequence_number seed = bit_xor (seed / 2 ^ 32) (seed % 2 ^ 32) % u32_mod

-- The session that a SYN opens.
unfoldable pub new_session : ℕ → TcpSegmentInfo → TcpSessionInfo
unfolding initial_sequence_number
new_session seed g = record {
  status = half_opened;
  our_port = g.destination_port;
  their_port = g.sender_port;
  window_size = g.window_size;
  available_window_size = g.window_size;
  expected_arrival_sequence_number = add_u32 g.sequence_number 1;
  next_sequence_number = add_u32 (initial_sequence_number seed) 1;
  last_sent_acknowledge_number = add_u32 g.sequence_number 1;
  receive_buffer_list = [];
  send_buffer_list = [];
}

-- What the segment leads to: its data is freed at once; or a session is opened; or the FIN handler,
-- the ACK handler, or both the ACK handler (if the flag says so) and the data handler are called. The
-- numbers are the offset and the size of the payload.
pub data Action : Type 0 where
  freed : Action
  opens : TcpSessionInfo → Action
  closes : TcpSegmentInfo → Bool → Action
  acknowledges : TcpSegmentInfo → Action
  receives : TcpSegmentInfo → Bool → ℕ → ℕ → Action

unfoldable pub tcp_ipv4_segment_handler : ℕ → DefaultTcpSegment → ℕ → ℕ → Action
unfolding new_session
tcp_ipv4_segment_handler seed t segment_offset segment_size =
    if ltb segment_size tcp_default_header_size
    then freed
    else if is_syn_active t && is_ack_active t
    then freed
    else if is_syn_active t && not (is_ack_active t)
    then opens (new_session seed (segment_info t))
    else if is_fin_active t
    then closes (segment_info t) (is_ack_active t)
    else if is_ack_active t && segment_size == get_header_length t
    then acknowledges (segment_info t)
    else receives (segment_info t) (is_ack_active t)
        (add_usize segment_offset (get_header_length t))
        (sub_usize segment_size (get_header_length t))

-- The payload of a segment stands in the data; a session that is opened has its whole window open and
-- nothing on its way.
abbrev pub IsProper : ℕ → Action → Type 0
IsProper data_length freed = Unit
IsProper data_length (opens s) =
    (s.status ≡ half_opened)
    × (s.available_window_size ≡ s.window_size)
    × (s.send_buffer_list ≡ [])
    × (s.expected_arrival_sequence_number < u32_mod)
    × (s.next_sequence_number < u32_mod)
IsProper data_length (closes g ack) = Unit
IsProper data_length (acknowledges g) = Unit
IsProper data_length (receives g ack offset size) = offset + size ≤ data_length

-- A segment inside the data that is not shorter than its own header leads to nothing, to the handlers of
-- the FIN or of the acknowledgement, to a new session with an open window, or to a payload inside the
-- data.
pub tcp_ipv4_segment_handler-IsProper :
    (seed : ℕ) (t : DefaultTcpSegment) (data_length segment_offset segment_size : ℕ)
    → data_length < usize_mod
    → segment_offset + segment_size ≤ data_length
    → get_header_length t ≤ segment_size
    → IsProper data_length (tcp_ipv4_segment_handler seed t segment_offset segment_size)
unfolding tcp_ipv4_segment_handler new_session
tcp_ipv4_segment_handler-IsProper seed t data_length segment_offset segment_size word inside
      header =
    elim (Bool-cases (ltb segment_size 20)) [
      | inl short ↦ rw short tt
      | inr long ↦ rw long (elim (Bool-cases (is_syn_active t && is_ack_active t)) [
        | inl both ↦ rw both tt
        | inr one ↦ rw one (elim (Bool-cases (is_syn_active t && not (is_ack_active t))) [
          | inl syn ↦ rw syn (refl, refl, refl, omega arith, omega arith)
          | inr other ↦ rw other (elim (Bool-cases (is_fin_active t)) [
            | inl fin ↦ rw fin tt
            | inr on ↦
                rw on (elim (Bool-cases (is_ack_active t && segment_size == get_header_length t)) [
                  | inl only ↦ rw only tt
                  | inr payload ↦ rw payload (omega arith)
                ])
          ])
        ])
      ])
    ]
