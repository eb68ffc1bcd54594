-- ===== src/Network/Tcp/Close.antt =====
-- `ipv4_tcp_fin_handler` and `close_tcp_session` of network_manager/tcp.rs.
use methylenix.Base.{Bool, true, false, Option, none, some, ◌==◌, add_u32}
use methylenix.Network.{
  NetworkError, ok, err, invalid_socket, Ipv4ConnectionInfo, LinkType, InternetType, no_internet,
  ipv4, ipv6,
}
use methylenix.Network.Tcp.{
  TcpSessionStatus, listening, half_opened, opened, open_opposite_closed, closing,
  closing_opposite_closed, closed_opposite_opened, closed_opposite_closing, closed, TcpSessionInfo,
  TcpSegmentInfo, Device, send_ipv4_tcp_header, free_buffer, Handled,
}

-- The `match` of `ipv4_tcp_fin_handler`: the new status, whether an acknowledgement is sent, and whether
-- the socket stays active. `none` is the error for a listening session.
unfoldable pub fin_status : Bool → Bool → TcpSessionStatus → Option (TcpSessionStatus × Bool × Bool)
fin_status is_ack_active matches closed = some (closed, false, false)
fin_status true true closing = some (closed_opposite_closing, true, true)
fin_status true false closing = some (closing, false, true)
fin_status false matches closing = some (closing_opposite_closed, true, true)
fin_status is_ack_active matches half_opened = some (closing_opposite_closed, true, true)
fin_status is_ack_active matches opened = some (open_opposite_closed, true, true)
fin_status is_ack_active matches open_opposite_closed = some (open_opposite_closed, true, true)
fin_status is_ack_active matches closing_opposite_closed =
    some (closing_opposite_closed, true, true)
fin_status is_ack_active matches closed_opposite_closing =
    some (closed_opposite_closing, true, true)
fin_status is_ack_active matches closed_opposite_opened = some (closed_opposite_closing, true, true)
fin_status is_ack_active matches listening = none

-- The rest of `ipv4_tcp_fin_handler`, once the `match` has been decided.
unfoldable pub answer_fin :
    Device
    → TcpSegmentInfo
    → LinkType
    → Ipv4ConnectionInfo
    → TcpSessionInfo
    → Option (TcpSessionStatus × Bool × Bool)
    → Handled
answer_fin d g link info s none = (err invalid_socket, s)
answer_fin d g link info s (some (status, false, is_socket_active)) =
    (ok is_socket_active, record s { status = status })
answer_fin d g link info s (some (status, true, is_socket_active)) =
    let s' = record s {
      status = status;
      last_sent_acknowledge_number = add_u32 g.sequence_number 1;
    } in
    elim (send_ipv4_tcp_header d
      (record {
        sender_port = g.destination_port;
        destination_port = g.sender_port;
        sequence_number = s'.next_sequence_number;
        acknowledgement_number = s'.last_sent_acknowledge_number;
        window_size = g.window_size;
      })
      false false true info.destination_address info.sender_address link) [
        | some e ↦ (err e, s')
        | none ↦ (
          ok is_socket_active,
          record s' { next_sequence_number = add_u32 s'.next_sequence_number 1 },
        )
      ]

unfoldable pub ipv4_tcp_fin_handler :
    Device → TcpSegmentInfo → LinkType → Ipv4ConnectionInfo → Bool → TcpSessionInfo → Handled
unfolding fin_status answer_fin
ipv4_tcp_fin_handler d g link info is_ack_active s =
    let matches = g.acknowledgement_number == s.next_sequence_number in
    answer_fin d g link info s (fin_status is_ack_active matches s.status)

abbrev pub status_after_fin : TcpSessionStatus → TcpSessionStatus
status_after_fin open_opposite_closed = closing_opposite_closed
status_after_fin _ = closing

-- The session after its FIN, or after the device has refused it.
unfoldable pub fin_sent : TcpSessionInfo → Option NetworkError → Handled
fin_sent s (some e) = (err e, s)
fin_sent s none = (
  ok true,
  record s {
    next_sequence_number = add_u32 s.next_sequence_number 1;
    status = status_after_fin s.status;
  },
)

-- What `close_tcp_session` does to a session that must send a FIN; `none` is the panic of
-- `unimplemented!()`.
unfoldable pub send_fin : Device → InternetType → LinkType → TcpSessionInfo → Option Handled
unfolding fin_sent
send_fin d no_internet link s = some (err invalid_socket, s)
send_fin d ipv6 link s = none
send_fin d (ipv4 info) link s = some (
    fin_sent s (
      send_ipv4_tcp_header d
        (record {
          sender_port = s.our_port;
          destination_port = s.their_port;
          sequence_number = s.next_sequence_number;
          acknowledgement_number = s.last_sent_acknowledge_number;
          window_size = s.window_size;
        })
        true false true info.destination_address info.sender_address link))

-- The `match` of `close_tcp_session`.
unfoldable pub close_in :
    TcpSessionStatus → Device → InternetType → LinkType → TcpSessionInfo → Option Handled
unfolding send_fin
close_in listening d net link s = some (ok false, s)
close_in closed d net link s = some (ok false, free_buffer s)
close_in closing d net link s = some (ok true, s)
close_in closing_opposite_closed d net link s = some (ok true, s)
close_in closed_opposite_opened d net link s = some (ok true, s)
close_in _ d net link s = send_fin d net link s

unfoldable pub close_tcp_session :
    Device → InternetType → LinkType → TcpSessionInfo → Option Handled
unfolding close_in
close_tcp_session d net link s = close_in s.status d net link s
