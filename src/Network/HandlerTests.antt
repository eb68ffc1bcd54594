-- ===== src/Network/HandlerTests.antt =====
-- The handlers of arriving packets on concrete headers.
use methylenix.Base.{◌≡◌, arith}
use methylenix.Network.{ok}
use methylenix.Network.Ipv4.{DefaultIpv4Packet, create_default_ipv4_header}
use methylenix.Network.Ipv4.Handler.{Inside, ipv4_packet_handler, ipv4_packet_handler-Inside}
use methylenix.Network.Ipv4.Delivery.{delivered, ipv4_packet_handler-create_default_ipv4_header}

ipv4_packet_handler-create_default_ipv4_header_example :
    (p : DefaultIpv4Packet) × (create_default_ipv4_header 54 20 7 128 6 3232235777 3232235778
      ≡ ok p)
    × (ipv4_packet_handler p 54 14
        ≡ delivered 6 34 20
            (record { sender_address = 3232235777; destination_address = 3232235778 }))
ipv4_packet_handler-create_default_ipv4_header_example =
    ipv4_packet_handler-create_default_ipv4_header 20 7 128 6 3232235777 3232235778 14 54
      (omega arith) (omega arith) (omega arith)

-- A packet of TCP of 60 bytes.
abbrev packet : DefaultIpv4Packet
packet = record {
  version_and_length = 69;
  type_of_service = 0;
  length = 60;
  id = 1;
  fragment_offset = 0;
  ttl = 64;
  protocol = 6;
  checksum = 0;
  sender_ip_address = 3232235778;
  destination_ip_address = 3232235777;
}

ipv4_packet_handler-Inside_example : Inside packet 74 14 (ipv4_packet_handler packet 74 14)
ipv4_packet_handler-Inside_example =
    ipv4_packet_handler-Inside packet 74 14 (omega arith) (omega arith) (omega arith)
