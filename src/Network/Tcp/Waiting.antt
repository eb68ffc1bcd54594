-- ===== src/Network/Tcp/Waiting.antt =====
-- The handlers of network_manager/tcp.rs one after the other: a session whose own FIN was acknowledged before
-- the other side closed.
use methylenix.Base.{
  ◌≡◌, ◌≢◌, ◌∙◌, ap, arith, Bool, true, false, List, [], ◌∷◌, inl, inr, List-cases, refl, some,
}
use methylenix.Network.{Ipv4ConnectionInfo, LinkType}
use methylenix.Network.Tcp.{
  TcpSessionStatus, listening, half_opened, opened, open_opposite_closed, closing,
  closing_opposite_closed, closed_opposite_opened, closed_opposite_closing, closed, TcpSessionInfo,
  TcpSegmentInfo, Device,
}
use methylenix.Network.Tcp.Acknowledge.{acknowledge_data, ack_in, ipv4_tcp_ack_handler}
use methylenix.Network.Tcp.Close.{fin_status, answer_fin, ipv4_tcp_fin_handler}

-- A segment without data, as tcp_ipv4_segment_handler sorts it: an acknowledgement; or a FIN, with or without
-- the flag of an acknowledgement.
pub data Arrival : Type 0 where
  ack : TcpSegmentInfo → Arrival
  fin : TcpSegmentInfo → LinkType → Ipv4ConnectionInfo → Bool → Arrival

-- The session after its handler.
abbrev pub arrive : Device → Arrival → TcpSessionInfo → TcpSessionInfo
arrive d (ack g) s = (ipv4_tcp_ack_handler g s).1
arrive d (fin g link info is_ack_active) s = (ipv4_tcp_fin_handler d g link info is_ack_active s).1

abbrev pub arrive_all : Device → List Arrival → TcpSessionInfo → TcpSessionInfo
arrive_all d [] s = s
arrive_all d (a ∷ later) s = arrive_all d later (arrive d a s)

-- The other side has acknowledged our FIN, and its own FIN is awaited, or has come afterwards.
abbrev pub we_closed_first : TcpSessionStatus → Bool
we_closed_first listening = false
we_closed_first half_opened = false
we_closed_first opened = false
we_closed_first open_opposite_closed = false
we_closed_first closing = false
we_closed_first closing_opposite_closed = false
we_closed_first closed_opposite_opened = true
we_closed_first closed_opposite_closing = true
we_closed_first closed = false

acknowledge_data-status :
    (g : TcpSegmentInfo) (s : TcpSessionInfo) → (acknowledge_data g s).status ≡ s.status
unfolding acknowledge_data
acknowledge_data-status g s = elim (List-cases s.send_buffer_list) [
  | inl e ↦ rw e refl
  | inr (first, rest, e) ↦ rw e (ground arith)
]

ack_in-waits :
    (st : TcpSessionStatus) (matches : Bool) (g : TcpSegmentInfo) (s : TcpSessionInfo)
    → we_closed_first st ≡ true
    → s.status ≡ st
    → we_closed_first (ack_in st matches g s).1.status ≡ true
unfolding ack_in
ack_in-waits closed_opposite_opened matches g s h e =
    ap we_closed_first (acknowledge_data-status g s ∙ e)
ack_in-waits closed_opposite_closing matches g s h e =
    ap we_closed_first (acknowledge_data-status g s ∙ e)
ack_in-waits listening matches g s h e = absurd (cc)
ack_in-waits half_opened matches g s h e = absurd (cc)
ack_in-waits opened matches g s h e = absurd (cc)
ack_in-waits open_opposite_closed matches g s h e = absurd (cc)
ack_in-waits closing matches g s h e = absurd (cc)
ack_in-waits closing_opposite_closed matches g s h e = absurd (cc)
ack_in-waits closed matches g s h e = absurd (cc)

answer_fin-status :
    (d : Device) (g : TcpSegmentInfo) (link : LinkType) (info : Ipv4ConnectionInfo)
    (s : TcpSessionInfo) (status : TcpSessionStatus)
    → (answer_fin d g link info s (some (status, true, true))).1.status ≡ status
unfolding answer_fin
answer_fin-status d g link info s status = ground arith

fin-waits :
    (st : TcpSessionStatus) (is_ack_active matches : Bool) (d : Device) (g : TcpSegmentInfo)
    (link : LinkType) (info : Ipv4ConnectionInfo) (s : TcpSessionInfo)
    → we_closed_first st ≡ true
    → we_closed_first (answer_fin d g link info s (fin_status is_ack_active matches st)).1.status
      ≡ true
unfolding fin_status
fin-waits closed_opposite_opened is_ack_active matches d g link info s h =
    ap we_closed_first (answer_fin-status d g link info s closed_opposite_closing)
fin-waits closed_opposite_closing is_ack_active matches d g link info s h =
    ap we_closed_first (answer_fin-status d g link info s closed_opposite_closing)
fin-waits listening is_ack_active matches d g link info s h = absurd (cc)
fin-waits half_opened is_ack_active matches d g link info s h = absurd (cc)
fin-waits opened is_ack_active matches d g link info s h = absurd (cc)
fin-waits open_opposite_closed is_ack_active matches d g link info s h = absurd (cc)
fin-waits closing is_ack_active matches d g link info s h = absurd (cc)
fin-waits closing_opposite_closed is_ack_active matches d g link info s h = absurd (cc)
fin-waits closed is_ack_active matches d g link info s h = absurd (cc)

arrive-waits :
    (d : Device) (a : Arrival) (s : TcpSessionInfo)
    → we_closed_first s.status ≡ true
    → we_closed_first (arrive d a s).status ≡ true
unfolding ipv4_tcp_ack_handler ipv4_tcp_fin_handler
arrive-waits d (ack g) s h = ack_in-waits s.status _ g s h refl
arrive-waits d (fin g link info is_ack_active) s h =
    fin-waits s.status is_ack_active _ d g link info s h

not_closed : (st : TcpSessionStatus) → we_closed_first st ≡ true → st ≢ closed
not_closed st h e = let g : we_closed_first st ≡ false = ap we_closed_first e in absurd (cc)

-- A session whose own FIN was acknowledged before the other side closed is never closed by what arrives:
-- after any sequence of acknowledgements and FINs, whatever they hold and whatever the device answers, it
-- awaits the FIN of the other side, or has had it and stays in the status in which it should expire.
pub waits_for_ever :
    (d : Device) (arrivals : List Arrival) (s : TcpSessionInfo)
    → we_closed_first s.status ≡ true
    → let t = arrive_all d arrivals s in (we_closed_first t.status ≡ true) × (t.status ≢ closed)
waits_for_ever d [] s h = (h, not_closed s.status h)
waits_for_ever d (a ∷ later) s h = waits_for_ever d later (arrive d a s) (arrive-waits d a s h)
