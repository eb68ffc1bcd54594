-- ===== src/Network/Tcp/Acknowledge.antt =====
-- `ipv4_tcp_ack_handler` of network_manager/tcp.rs.
pub mod Window
use methylenix.Base.{
  ℕ, Bool, true, false, Option, none, some, List, [], ◌∷◌, ltb, ◌==◌, if◌then◌else◌, add_u16,
  add_u32, u16_mod, ◌%◌,
}
use methylenix.Network.{Result, ok}
use methylenix.Network.Tcp.{
  TcpSessionStatus, half_opened, opened, closing, closing_opposite_closed, closed_opposite_opened,
  closed, TcpSendDataBufferHeader, TcpSessionInfo, TcpSegmentInfo, free_buffer, Handled,
}

-- The acknowledgement that an entry waits for.
abbrev pub expected_ack : TcpSendDataBufferHeader → ℕ
expected_ack e = add_u32 e.sequence_number e.payload_size

-- The list without the first entry that waits for the acknowledgement, if one does.
abbrev pub remove_acknowledged :
    ℕ → List TcpSendDataBufferHeader → Option (List TcpSendDataBufferHeader)
remove_acknowledged number [] = none
remove_acknowledged number (e ∷ es) =
    if number == expected_ack e
    then some es
    else elim (remove_acknowledged number es) [ none ↦ none | some rest ↦ some (e ∷ rest) ]

-- The window after `payload_size` more bytes are acknowledged.
unfoldable pub widen : ℕ → TcpSessionInfo → ℕ
widen payload_size s =
    let available = add_u16 s.available_window_size (payload_size % u16_mod) in
    if ltb s.window_size available then s.window_size else available

-- The part of the handler that looks at the sent data. It tries the first entry, and then every
-- entry; the window always grows by the size of the first.
unfoldable pub acknowledge_data : TcpSegmentInfo → TcpSessionInfo → TcpSessionInfo
unfolding widen
acknowledge_data g s = elim s.send_buffer_list [
  | [] ↦ s
  | first ∷ rest ↦
      if g.acknowledgement_number == expected_ack first
      then record s { available_window_size = widen first.payload_size s; send_buffer_list = rest }
      else elim (remove_acknowledged g.acknowledgement_number (first ∷ rest)) [
        | none ↦ s
        | some es ↦ record s {
          available_window_size = widen first.payload_size s;
          send_buffer_list = es;
        }
      ]
]

-- The branches of `ipv4_tcp_ack_handler` on the status. Where the number is not the awaited one, a
-- half-opened session goes on to the sent data.
unfoldable pub ack_in : TcpSessionStatus → Bool → TcpSegmentInfo → TcpSessionInfo → Handled
unfolding acknowledge_data
ack_in half_opened true g s = (ok true, record s { status = opened })
ack_in closing_opposite_closed matches g s =
    (ok false, if matches then free_buffer (record s { status = closed }) else s)
ack_in closing matches g s =
    (ok true, if matches then free_buffer (record s { status = closed_opposite_opened }) else s)
ack_in _ matches g s = (ok true, acknowledge_data g s)

unfoldable pub ipv4_tcp_ack_handler : TcpSegmentInfo → TcpSessionInfo → Handled
unfolding ack_in
ipv4_tcp_ack_handler g s = ack_in s.status (s.next_sequence_number == g.acknowledgement_number) g s
