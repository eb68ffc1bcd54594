-- ===== src/Network/Udp.antt =====
-- kernel/network_manager/udp.rs: the header that is sent, and the segments that arrive.
use methylenix.Base.{
  ℕ, ◌+◌, ◌-◌, ◌%◌, ◌<◌, ◌≤◌, arith, not, Option, none, some, ltb, ◌==◌, if◌then◌else◌, inl, inr,
  Bool-cases, add_usize, sub_usize, usize_mod, u16_mod,
}
use methylenix.Network.{Result, ok, err, data_size_error}
use methylenix.Network.Ipv4.{
  DefaultIpv4Packet, create_default_ipv4_header, get_default_ttl, ipv4_default_header_size,
}

abbrev pub udp_header_size : ℕ
udp_header_size = 8

pub record UdpSegment : Type 0 where
  pub sender_port : ℕ
  pub destination_port : ℕ
  pub segment_length : ℕ
  pub checksum : ℕ

-- `create_ipv4_udp_header`, for `data_length` bytes of data: the two headers
unfoldable pub create_ipv4_udp_header :
    ℕ → ℕ → ℕ → ℕ → ℕ → ℕ → Result (DefaultIpv4Packet × UdpSegment)
unfolding create_default_ipv4_header
create_ipv4_udp_header data_length sender_port sender destination_port destination id =
    if ltb (u16_mod - 1) (add_usize data_length udp_header_size)
    then err data_size_error
    else (let segment_length = add_usize data_length udp_header_size % u16_mod in
        elim (create_default_ipv4_header ipv4_default_header_size segment_length id get_default_ttl
          17 sender destination) [
            | err e ↦ err e
            | ok p ↦ ok (
              p,
              record {
                sender_port = sender_port;
                destination_port = destination_port;
                segment_length = segment_length;
                checksum = 0;
              },
            )
          ])

-- `udp_ipv4_segment_handler`: `none` where the data is freed, otherwise the payload's size and offset,
-- which go to the socket manager.
unfoldable pub udp_ipv4_segment_handler : UdpSegment → ℕ → ℕ → ℕ → Option (ℕ × ℕ)
udp_ipv4_segment_handler g data_length segment_offset segment_size =
    if ltb data_length (add_usize segment_offset udp_header_size)
    then none
    else if not (segment_size == g.segment_length)
    then none
    else some (sub_usize g.segment_length udp_header_size, add_usize segment_offset udp_header_size)

-- The payload stands in the data.
abbrev pub PayloadInside : ℕ → Option (ℕ × ℕ) → Type 0
PayloadInside data_length none = Unit
PayloadInside data_length (some (size, offset)) = offset + size ≤ data_length

-- A segment in the data, at least as long as a header, is freed or has a payload inside the data.
pub udp_ipv4_segment_handler-Inside :
    (g : UdpSegment) (data_length segment_offset segment_size : ℕ)
    → data_length < usize_mod
    → segment_offset + segment_size ≤ data_length
    → udp_header_size ≤ segment_size
    → PayloadInside data_length (udp_ipv4_segment_handler g data_length segment_offset segment_size)
unfolding udp_ipv4_segment_handler
udp_ipv4_segment_handler-Inside g data_length segment_offset segment_size word inside long =
    elim (Bool-cases (ltb data_length (add_usize segment_offset 8))) [
      | inl bad ↦ rw bad tt
      | inr good ↦ rw good (elim (Bool-cases (segment_size == g.segment_length)) [
        | inl same ↦ rw same (ground arith)
        | inr other ↦ rw other tt
      ])
    ]
