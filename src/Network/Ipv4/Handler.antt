-- ===== src/Network/Ipv4/Handler.antt =====
-- `ipv4_packet_handler` of network_manager/ipv4.rs, and `udp_ipv4_segment_handler` of
-- network_manager/udp.rs behind it. `kfree!` gives the data back to the allocator.
use methylenix.Base.{
  ℕ, ◌+◌, ◌<◌, ◌≤◌, arith, ◌||◌, ltb, ◌==◌, not, if◌then◌else◌, inl, inr, Bool-cases, not_ltb→le,
  ltb→lt, ◌≡◌, ◌≢◌, ◌⊎◌, ◌/◌, ◌%◌, true, add_usize, sub_usize, usize_mod, u16_mod,
}
use methylenix.Network.{Ipv4ConnectionInfo}
use methylenix.Network.Ipv4.{
  DefaultIpv4Packet, ipv4_default_header_size, get_version, get_header_length,
  is_more_packet_flag_on,
}

abbrev pub ipv4_protocol_tcp : ℕ
ipv4_protocol_tcp = 6

abbrev pub ipv4_protocol_udp : ℕ
ipv4_protocol_udp = 17

-- What is done with the data: it is freed, or goes to a protocol with the offset and the size of the
-- segment.
pub data Action : Type 0 where
  freed : Action
  to_udp to_tcp : ℕ → ℕ → Ipv4ConnectionInfo → Action

-- The `match` on the protocol; `packet_size as usize - header_length` wraps.
unfoldable pub to_protocol : DefaultIpv4Packet → ℕ → Action
to_protocol p packet_offset =
    let offset = add_usize packet_offset (get_header_length p) in
    let size = sub_usize p.length (get_header_length p) in
    let info : Ipv4ConnectionInfo = record {
      sender_address = p.sender_ip_address;
      destination_address = p.destination_ip_address;
    } in
    if p.protocol == ipv4_protocol_udp
    then to_udp offset size info
    else if p.protocol == ipv4_protocol_tcp
    then to_tcp offset size info
    else freed

unfoldable pub ipv4_packet_handler : DefaultIpv4Packet → ℕ → ℕ → Action
unfolding to_protocol
ipv4_packet_handler p data_length packet_offset =
    if ltb data_length (add_usize packet_offset ipv4_default_header_size)
      || not (get_version p == 4)
    then freed
    else if ltb data_length (add_usize p.length packet_offset)
    then freed
    else if is_more_packet_flag_on p
    then freed
    else to_protocol p packet_offset

-- A reason not to hand a packet on: the data is too short for a header, the version is another, the data is too
-- short for the packet, more fragments follow, or the protocol is neither UDP nor TCP.
abbrev pub Refusable : DefaultIpv4Packet → ℕ → ℕ → Type 0
Refusable p data_length packet_offset =
    (data_length < packet_offset + 20)
    ⊎ ((get_version p ≢ 4)
        ⊎ ((data_length < packet_offset + p.length)
            ⊎ ((0 < p.fragment_offset / 8192 % 2) ⊎ ((p.protocol ≢ 17) × (p.protocol ≢ 6)))))

-- The data is freed for a reason; or the segment stands in the data.
abbrev pub Inside : DefaultIpv4Packet → ℕ → ℕ → Action → Type 0
Inside p data_length packet_offset freed = Refusable p data_length packet_offset
Inside p data_length packet_offset (to_udp offset size info) = offset + size ≤ data_length
Inside p data_length packet_offset (to_tcp offset size info) = offset + size ≤ data_length

to_protocol-Inside :
    (p : DefaultIpv4Packet) (data_length packet_offset : ℕ)
    → packet_offset + u16_mod < usize_mod
    → p.length < u16_mod
    → get_header_length p ≤ p.length
    → p.length + packet_offset ≤ data_length
    → Inside p data_length packet_offset (to_protocol p packet_offset)
unfolding to_protocol
to_protocol-Inside p data_length packet_offset small word header fits =
    let sum : add_usize packet_offset (get_header_length p)
          + sub_usize p.length (get_header_length p)
        ≤ data_length =
      omega arith in
    elim (Bool-cases (p.protocol == 17)) [
      | inl udp ↦ rw udp sum
      | inr other ↦ rw other (elim (Bool-cases (p.protocol == 6)) [
        | inl tcp ↦ rw tcp sum
        | inr neither ↦
            let no_udp : p.protocol ≢ 17 = ground arith in
            let no_tcp : p.protocol ≢ 6 = ground arith in
            rw neither (inr (inr (inr (inr (no_udp, no_tcp)))))
      ])
    ]

bad_start :
    (p : DefaultIpv4Packet) (data_length packet_offset : ℕ)
    → packet_offset + u16_mod < usize_mod
    → (ltb data_length (add_usize packet_offset 20) || not (get_version p == 4)) ≡ true
    → (data_length < packet_offset + 20) ⊎ (get_version p ≢ 4)
bad_start p data_length packet_offset small bad =
    elim (Bool-cases (ltb data_length (add_usize packet_offset 20))) [
      | inl short ↦ inl (omega (arith, ltb→lt _ _ short))
      | inr long ↦ let version : get_version p ≢ 4 = ground arith in inr version
    ]

-- For a packet whose header is not longer than the packet itself, and an offset that is far from 2 ^ 64,
-- `ipv4_packet_handler` hands a segment that stands inside the data to UDP or TCP; or it frees the data, and
-- then the data is too short for a header or for the packet, the version is not 4, more fragments follow, or the
-- protocol is neither UDP nor TCP.
pub ipv4_packet_handler-Inside :
    (p : DefaultIpv4Packet) (data_length packet_offset : ℕ)
    → packet_offset + u16_mod < usize_mod
    → p.length < u16_mod
    → get_header_length p ≤ p.length
    → Inside p data_length packet_offset (ipv4_packet_handler p data_length packet_offset)
unfolding ipv4_packet_handler
ipv4_packet_handler-Inside p data_length packet_offset small word header =
    elim (Bool-cases (ltb data_length (add_usize packet_offset 20) || not (get_version p == 4))) [
      | inl bad ↦ rw bad (elim (bad_start p data_length packet_offset small bad) [
        | inl short ↦ inl short
        | inr version ↦ inr (inl version)
      ])
      | inr good ↦ rw good (elim (Bool-cases (ltb data_length (add_usize p.length packet_offset))) [
        | inl long ↦ rw long (inr (inr (inl (omega (arith, ltb→lt _ _ long)))))
        | inr fits ↦ rw fits (elim (Bool-cases (is_more_packet_flag_on p)) [
          | inl more ↦ rw more (inr (inr (inr (inl (ltb→lt _ _ more)))))
          | inr last ↦ rw last (
              to_protocol-Inside p data_length packet_offset small word header
                (omega (arith, not_ltb→le data_length (add_usize p.length packet_offset) fits)))
        ])
      ])
    ]
