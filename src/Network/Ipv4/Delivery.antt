-- ===== src/Network/Ipv4/Delivery.antt =====
-- A header of network_manager/ipv4.rs that `create_default_ipv4_header` writes and `ipv4_packet_handler` reads.
use methylenix.Base.{
  ℕ, ◌+◌, ◌-◌, ◌%◌, ◌<◌, ◌≤◌, ◌≡◌, refl, arith, false, ltb, ◌==◌, if◌then◌else◌, add_usize,
  sub_usize, usize_mod, u16_mod,
}
use methylenix.Network.{ok, Ipv4ConnectionInfo}
use methylenix.Network.Ipv4.{
  DefaultIpv4Packet, default_packet, set_checksum, create_default_ipv4_header,
}
use methylenix.Network.Ipv4.Handler.{
  Action, freed, to_tcp, to_udp, to_protocol, ipv4_packet_handler,
}

-- What the receiver must do with the data of a protocol, which stands at `offset`.
abbrev pub delivered : ℕ → ℕ → ℕ → Ipv4ConnectionInfo → Action
delivered protocol offset data_size info =
    if protocol == 17
    then to_udp offset data_size info
    else if protocol == 6
    then to_tcp offset data_size info
    else freed

-- Where a packet with at most 65515 bytes of data stands whole in what the device received, behind
-- `packet_offset` bytes, and `create_default_ipv4_header` wrote its header, `ipv4_packet_handler` hands exactly
-- the data to the protocol of the header, with the two addresses: to UDP or TCP; any other is freed.
pub ipv4_packet_handler-create_default_ipv4_header :
    (data_size id ttl protocol sender destination packet_offset data_length : ℕ)
    → data_size ≤ 65515
    → packet_offset + (data_size + 20) ≤ data_length
    → data_length < usize_mod
    → (p : DefaultIpv4Packet) × (create_default_ipv4_header data_length data_size id ttl protocol
          sender destination
        ≡ ok p)
      × (ipv4_packet_handler p data_length packet_offset
          ≡ delivered protocol
              (packet_offset + 20)
              data_size
              (record { sender_address = sender; destination_address = destination }))
unfolding create_default_ipv4_header ipv4_packet_handler to_protocol set_checksum
ipv4_packet_handler-create_default_ipv4_header data_size id ttl protocol sender destination
      packet_offset data_length few inside word =
    let fits : ltb (65535 - 20) data_size ≡ false = ground arith in
    let long : ltb data_length 20 ≡ false = ground arith in
    let total : add_usize data_size 20 % u16_mod ≡ data_size + 20 = omega arith in
    let room : ltb data_length (add_usize packet_offset 20) ≡ false = ground arith in
    let whole : ltb data_length (add_usize (data_size + 20) packet_offset) ≡ false = ground arith in
    let offset : add_usize packet_offset 20 ≡ packet_offset + 20 = omega arith in
    let size : sub_usize (data_size + 20) 20 ≡ data_size = omega arith in
    (
      set_checksum (default_packet data_size id ttl protocol sender destination),
      rw (fits, long) refl,
      rw (total, room, whole, offset, size) refl,
    )
