-- ===== src/Network/Ipv4.antt =====
-- kernel/network_manager/ipv4.rs: the default header.
pub mod Checksum
pub mod Handler
pub mod Delivery
use methylenix.Base.{
  ℕ, ◌+◌, ◌-◌, ◌*◌, ◌/◌, ◌%◌, ◌^◌, Bool, List, [], ◌∷◌, ltb, if◌then◌else◌, u8_mod, u16_mod,
  add_u16, add_usize,
}
use methylenix.Network.{Result, ok, err, data_size_error, Ipv4ConnectionInfo}

abbrev pub ipv4_default_header_size : ℕ
ipv4_default_header_size = 20

abbrev pub max_packet_size : ℕ
max_packet_size = u16_mod - 1

pub record DefaultIpv4Packet : Type 0 where
  pub version_and_length : ℕ
  pub type_of_service : ℕ
  pub length : ℕ
  pub id : ℕ
  pub fragment_offset : ℕ
  pub ttl : ℕ
  pub protocol : ℕ
  pub checksum : ℕ
  pub sender_ip_address : ℕ
  pub destination_ip_address : ℕ

-- The header as the big-endian words that `set_checksum` reads.
unfoldable pub words : DefaultIpv4Packet → List ℕ
words p =
    (p.version_and_length * 256 + p.type_of_service)
    ∷ p.length
    ∷ p.id
    ∷ p.fragment_offset
    ∷ (p.ttl * 256 + p.protocol)
    ∷ p.checksum
    ∷ (p.sender_ip_address / 65536)
    ∷ (p.sender_ip_address % 65536)
    ∷ (p.destination_ip_address / 65536)
    ∷ (p.destination_ip_address % 65536)
    ∷ []

-- `overflowing_add`, the carry added again
unfoldable pub add_carry : ℕ → ℕ → ℕ
add_carry a b = if ltb (a + b) u16_mod then a + b else add_u16 (add_u16 a b) 1

-- The loop of `set_checksum`.
abbrev pub sum_words : ℕ → List ℕ → ℕ
sum_words checksum [] = checksum
sum_words checksum (w ∷ ws) = sum_words (add_carry checksum w) ws

unfoldable pub set_checksum : DefaultIpv4Packet → DefaultIpv4Packet
unfolding words
set_checksum p =
    let p0 = record p { checksum = 0 } in
    record p0 { checksum = u16_mod - 1 - sum_words 0 (words p0) }

abbrev pub get_version : DefaultIpv4Packet → ℕ
get_version p = p.version_and_length / 16

abbrev pub get_header_length : DefaultIpv4Packet → ℕ
get_header_length p = p.version_and_length % 16 * 4

abbrev pub is_more_packet_flag_on : DefaultIpv4Packet → Bool
is_more_packet_flag_on p = ltb 0 (p.fragment_offset / 8192 % 2)

abbrev pub get_fragment_offset : DefaultIpv4Packet → ℕ
get_fragment_offset p = p.fragment_offset % 8192 * 8

abbrev pub get_default_ttl : ℕ
get_default_ttl = 128

-- The fields that `create_default_ipv4_header` sets.
abbrev pub default_packet : ℕ → ℕ → ℕ → ℕ → ℕ → ℕ → DefaultIpv4Packet
default_packet data_size id ttl protocol sender destination = record {
  version_and_length = 4 * 16 + 5;
  type_of_service = 0;
  length = add_usize data_size ipv4_default_header_size % u16_mod;
  id = id;
  fragment_offset = 0;
  ttl = ttl;
  protocol = protocol;
  checksum = 0;
  sender_ip_address = sender;
  destination_ip_address = destination;
}

-- `create_default_ipv4_header`, for a buffer of `buffer_length` bytes
unfoldable pub create_default_ipv4_header : ℕ → ℕ → ℕ → ℕ → ℕ → ℕ → ℕ → Result DefaultIpv4Packet
unfolding set_checksum
create_default_ipv4_header buffer_length data_size id ttl protocol sender destination =
    if ltb (max_packet_size - ipv4_default_header_size) data_size
    then err data_size_error
    else if ltb buffer_length ipv4_default_header_size
    then err data_size_error
    else ok (set_checksum (default_packet data_size id ttl protocol sender destination))
