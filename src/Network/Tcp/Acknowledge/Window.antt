-- ===== src/Network/Tcp/Acknowledge/Window.antt =====
-- The window of a session under `ipv4_tcp_ack_handler`.
use methylenix.Base.{
  ℕ, ◌+◌, ◌<◌, ◌≤◌, ◌≡◌, refl, sym, ◌∙◌, ap, arith, Bool, true, false, List, ◌∷◌, u16_mod,
  List-cases, ==_iff, inl, inr,
}
use methylenix.Network.{ok}
use methylenix.Network.Tcp.{
  TcpSessionStatus, listening, half_opened, opened, open_opposite_closed, closing,
  closing_opposite_closed, closed_opposite_opened, closed_opposite_closing, closed,
  TcpSendDataBufferHeader, TcpSessionInfo, TcpSegmentInfo,
}
use methylenix.Network.Tcp.Acknowledge.{
  expected_ack, widen, acknowledge_data, ack_in, ipv4_tcp_ack_handler,
}
use methylenix.Network.Tcp.Send.Sent.{in_flight}

-- The window that is open and the bytes on their way make up the window of the other side, a 16-bit number.
pub record IsBalanced (s : TcpSessionInfo) : Type 0 where
  pub fits : s.window_size < u16_mod
  pub balance : s.available_window_size + in_flight s.send_buffer_list ≡ s.window_size

ack_opened :
    (g : TcpSegmentInfo) (s : TcpSessionInfo)
    → s.status ≡ opened
    → ipv4_tcp_ack_handler g s ≡ (ok true, acknowledge_data g s)
unfolding ipv4_tcp_ack_handler
ack_opened g s st = rw st refl

acknowledge_data_first :
    (g : TcpSegmentInfo) (s : TcpSessionInfo) (first : TcpSendDataBufferHeader)
    (rest : List TcpSendDataBufferHeader)
    → s.send_buffer_list ≡ first ∷ rest
    → g.acknowledgement_number ≡ expected_ack first
    → acknowledge_data g s
      ≡ record s { available_window_size = widen first.payload_size s; send_buffer_list = rest }
unfolding acknowledge_data
acknowledge_data_first g s first rest l n =
    rw (l, (==_iff g.acknowledgement_number (expected_ack first)).1 n) refl

widen-eq :
    (n : ℕ) (s : TcpSessionInfo)
    → s.window_size < u16_mod
    → s.available_window_size + n ≤ s.window_size
    → widen n s ≡ s.available_window_size + n
unfolding widen
widen-eq n s fits le = ground arith

-- The acknowledgement of the oldest data on its way takes exactly that data off the list, and the window
-- stays balanced.
pub acknowledge_first :
    (g : TcpSegmentInfo) (s : TcpSessionInfo) (first : TcpSendDataBufferHeader)
    (rest : List TcpSendDataBufferHeader)
    → s.status ≡ opened
    → s.send_buffer_list ≡ first ∷ rest
    → g.acknowledgement_number ≡ expected_ack first
    → IsBalanced s
    → let (r, t) = ipv4_tcp_ack_handler g s in
      (r ≡ ok true) × (t.send_buffer_list ≡ rest) × IsBalanced t
acknowledge_first g s first rest st l n v =
    let all : s.available_window_size + (first.payload_size + in_flight rest) ≡ s.window_size =
      ap (λ es. s.available_window_size + in_flight es) (sym l) ∙ v.balance in
    rw (ack_opened g s st, acknowledge_data_first g s first rest l n)
      (
        refl,
        refl,
        record {
          fits = v.fits;
          balance = omega (arith, widen-eq first.payload_size s v.fits (omega arith));
        },
      )

widen-le : (n : ℕ) (s : TcpSessionInfo) → widen n s ≤ s.window_size
unfolding widen
widen-le n s = ground arith

acknowledge_data-le :
    (g : TcpSegmentInfo) (s : TcpSessionInfo)
    → s.available_window_size ≤ s.window_size
    → (acknowledge_data g s).available_window_size ≤ s.window_size
unfolding acknowledge_data
acknowledge_data-le g s h = elim (List-cases s.send_buffer_list) [
  | inl e ↦ rw e h
  | inr (first, rest, e) ↦ rw e (ground (arith, widen-le first.payload_size s))
]

acknowledge_data-window_size :
    (g : TcpSegmentInfo) (s : TcpSessionInfo) → (acknowledge_data g s).window_size ≡ s.window_size
unfolding acknowledge_data
acknowledge_data-window_size g s = elim (List-cases s.send_buffer_list) [
  | inl e ↦ rw e refl
  | inr (first, rest, e) ↦ rw e (ground arith)
]

data-window :
    (g : TcpSegmentInfo) (s : TcpSessionInfo)
    → s.available_window_size ≤ s.window_size
    → let t = acknowledge_data g s in
      (t.available_window_size ≤ t.window_size) × (t.window_size ≡ s.window_size)
data-window g s h = (
  omega (arith, acknowledge_data-le g s h, acknowledge_data-window_size g s),
  acknowledge_data-window_size g s,
)

ack_in-window :
    (st : TcpSessionStatus) (matches : Bool) (g : TcpSegmentInfo) (s : TcpSessionInfo)
    → s.available_window_size ≤ s.window_size
    → let (r, t) = ack_in st matches g s in
      (t.available_window_size ≤ t.window_size) × (t.window_size ≡ s.window_size)
unfolding ack_in
ack_in-window half_opened true g s h = (h, refl)
ack_in-window half_opened false g s h = data-window g s h
ack_in-window closing true g s h = (h, refl)
ack_in-window closing false g s h = (h, refl)
ack_in-window closing_opposite_closed true g s h = (h, refl)
ack_in-window closing_opposite_closed false g s h = (h, refl)
ack_in-window listening matches g s h = data-window g s h
ack_in-window opened matches g s h = data-window g s h
ack_in-window open_opposite_closed matches g s h = data-window g s h
ack_in-window closed_opposite_opened matches g s h = data-window g s h
ack_in-window closed_opposite_closing matches g s h = data-window g s h
ack_in-window closed matches g s h = data-window g s h

-- No acknowledgement, in any status, opens the window wider than the other side's.
pub ipv4_tcp_ack_handler-window :
    (g : TcpSegmentInfo) (s : TcpSessionInfo)
    → s.available_window_size ≤ s.window_size
    → let (r, t) = ipv4_tcp_ack_handler g s in
      (t.available_window_size ≤ t.window_size) × (t.window_size ≡ s.window_size)
unfolding ipv4_tcp_ack_handler
ipv4_tcp_ack_handler-window g s h = ack_in-window s.status _ g s h
