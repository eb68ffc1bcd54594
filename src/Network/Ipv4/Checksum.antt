-- ===== src/Network/Ipv4/Checksum.antt =====
-- What a receiver finds in the headers of ipv4.rs.
use methylenix.Base.{
  ℕ, ◌+◌, ◌-◌, ◌*◌, ◌/◌, ◌%◌, ◌<◌, ◌≤◌, ◌≡◌, refl, ◌∙◌, ap, List, [], ◌∷◌, ltb, u8_mod, u16_mod,
  u32_mod, arith, All, Bool-cases, ltb→lt, not_ltb→le, inl, inr, ◌⊎◌,
}
use methylenix.Network.{Result, ok, err, data_size_error}
use methylenix.Network.Ipv4.{
  DefaultIpv4Packet, words, add_carry, sum_words, set_checksum, create_default_ipv4_header,
  default_packet, get_version, get_header_length,
}

-- The fields fit into their widths.
pub record IsPacket (p : DefaultIpv4Packet) : Type 0 where
  pub version_and_length_fits : p.version_and_length < u8_mod
  pub type_of_service_fits : p.type_of_service < u8_mod
  pub length_fits : p.length < u16_mod
  pub id_fits : p.id < u16_mod
  pub fragment_offset_fits : p.fragment_offset < u16_mod
  pub ttl_fits : p.ttl < u8_mod
  pub protocol_fits : p.protocol < u8_mod
  pub sender_fits : p.sender_ip_address < u32_mod
  pub destination_fits : p.destination_ip_address < u32_mod

-- The plain sum of the words.
abbrev pub total : List ℕ → ℕ
total [] = 0
total (w ∷ ws) = w + total ws

-- What `create_default_ipv4_header` must return.
abbrev pub Created : ℕ → ℕ → Result DefaultIpv4Packet → Type 0
Created buffer_length data_size (err e) =
    (e ≡ data_size_error) × ((65515 < data_size) ⊎ (buffer_length < 20))
Created buffer_length data_size (ok p) =
    (data_size ≤ 65515)
    × (20 ≤ buffer_length)
    × (get_version p ≡ 4)
    × (get_header_length p ≡ 20)
    × (p.length ≡ data_size + 20)
    × (total (words p) % 65535 ≡ 0)
    × All (λ w. w < 65536) (words p)

add_carry-lt : (a b : ℕ) → a < 65536 → b < 65536 → add_carry a b < 65536
unfolding add_carry
add_carry-lt a b ha hb = ground arith

add_carry_swap :
    (a b c : ℕ)
    → a < 65536
    → b < 65536
    → c < 65536
    → add_carry (add_carry a b) c ≡ add_carry (add_carry a c) b
unfolding add_carry
add_carry_swap a b c ha hb hc = ground arith

add_carry_complement : (a : ℕ) → a < 65536 → add_carry a (65535 - a) ≡ 65535
unfolding add_carry
add_carry_complement a h = ground arith

add_carry_zero : (a : ℕ) → a < 65536 → add_carry a 0 ≡ a
unfolding add_carry
add_carry_zero a h = ground arith

-- A word can be added last.
sum_words_late :
    (a w : ℕ) (ws : List ℕ)
    → a < 65536
    → w < 65536
    → All (λ v. v < 65536) ws
    → (sum_words (add_carry a w) ws ≡ add_carry (sum_words a ws) w) × (sum_words a ws < 65536)
sum_words_late a w [] ha hw h = (refl, ha)
sum_words_late a w (v ∷ ws) ha hw h = (
  ap (λ b. sum_words b ws) (add_carry_swap a w v ha hw h.0)
      ∙ (sum_words_late (add_carry a v) w ws (add_carry-lt a v ha h.0) hw h.1).0,
  (sum_words_late (add_carry a v) w ws (add_carry-lt a v ha h.0) hw h.1).1,
)

-- The words before the checksum add up to `a`, the words behind it are `ws`.
sum_words_around :
    (a : ℕ) (ws : List ℕ)
    → a < 65536
    → All (λ v. v < 65536) ws
    → sum_words (add_carry a (65535 - sum_words (add_carry a 0) ws)) ws ≡ 65535
sum_words_around a ws ha h =
    let lt = (sum_words_late a 0 ws ha (omega arith) h).1 in
    ap (λ b. sum_words (add_carry a (65535 - sum_words b ws)) ws) (add_carry_zero a ha)
    ∙ (sum_words_late a (65535 - sum_words a ws) ws ha (omega arith) h).0
    ∙ add_carry_complement (sum_words a ws) lt

sum_words-lt : (a : ℕ) (ws : List ℕ) → a < 65536 → All (λ v. v < 65536) ws → sum_words a ws < 65536
sum_words-lt a ws ha h = (sum_words_late a 0 ws ha (omega arith) h).1

add_carry-mod : (a b : ℕ) → a < 65536 → b < 65536 → add_carry a b % 65535 ≡ (a + b) % 65535
unfolding add_carry
add_carry-mod a b ha hb = ground arith

-- The loop keeps the plain sum up to multiples of 65535.
sum_words-mod :
    (a : ℕ) (ws : List ℕ)
    → a < 65536
    → All (λ v. v < 65536) ws
    → sum_words a ws % 65535 ≡ (a + total ws) % 65535
sum_words-mod a [] ha h = omega arith
sum_words-mod a (v ∷ ws) ha h =
    sum_words-mod (add_carry a v) ws (add_carry-lt a v ha h.0) h.1
    ∙ omega (arith, add_carry-mod a v ha h.0)

words-set_checksum-fit :
    (p : DefaultIpv4Packet) → IsPacket p → All (λ w. w < 65536) (words (set_checksum p))
unfolding words set_checksum
words-set_checksum-fit p v = (
  omega (arith, v.version_and_length_fits, v.type_of_service_fits),
  (
    v.length_fits,
    (
      v.id_fits,
      (
        v.fragment_offset_fits,
        (
          omega (arith, v.ttl_fits, v.protocol_fits),
          (
            omega arith,
            (
              omega (arith, v.sender_fits),
              (omega arith, (omega (arith, v.destination_fits), (omega arith, tt))),
            ),
          ),
        ),
      ),
    ),
  ),
)

-- A receiver that adds the words of a header, the checksum among them, the way `set_checksum` does
-- finds 0xFFFF.
pub sum_words-set_checksum :
    (p : DefaultIpv4Packet) → IsPacket p → sum_words 0 (words (set_checksum p)) ≡ 65535
unfolding words set_checksum
sum_words-set_checksum p v =
    let pre =
      (p.version_and_length * 256 + p.type_of_service)
      ∷ p.length
      ∷ p.id
      ∷ p.fragment_offset
      ∷ (p.ttl * 256 + p.protocol)
      ∷ [] in
    let post =
      (p.sender_ip_address / 65536)
      ∷ (p.sender_ip_address % 65536)
      ∷ (p.destination_ip_address / 65536)
      ∷ (p.destination_ip_address % 65536)
      ∷ [] in
    sum_words_around (sum_words 0 pre) post
      (sum_words-lt 0 pre (omega arith) (
        omega (arith, v.version_and_length_fits, v.type_of_service_fits),
        (
          v.length_fits,
          (v.id_fits, (v.fragment_offset_fits, (omega (arith, v.ttl_fits, v.protocol_fits), tt))),
        ),
      ))
      (
        omega (arith, v.sender_fits),
        (omega arith, (omega (arith, v.destination_fits), (omega arith, tt))),
      )

-- The plain sum of the words is a multiple of 65535.
total-set_checksum :
    (p : DefaultIpv4Packet) → IsPacket p → total (words (set_checksum p)) % 65535 ≡ 0
total-set_checksum p v = omega (
  arith,
  sum_words-set_checksum p v,
  sum_words-mod 0 (words (set_checksum p)) (omega arith) (words-set_checksum-fit p v),
)

default_packet-IsPacket :
    (data_size id ttl protocol sender destination : ℕ)
    → id < u16_mod
    → ttl < u8_mod
    → protocol < u8_mod
    → sender < u32_mod
    → destination < u32_mod
    → IsPacket (default_packet data_size id ttl protocol sender destination)
default_packet-IsPacket data_size id ttl protocol sender destination hi ht hp hs hd = record {
  version_and_length_fits = omega arith;
  type_of_service_fits = omega arith;
  length_fits = omega arith;
  id_fits = hi;
  fragment_offset_fits = omega arith;
  ttl_fits = ht;
  protocol_fits = hp;
  sender_fits = hs;
  destination_fits = hd;
}

-- `create_default_ipv4_header` refuses the data that does not fit into a packet and a buffer that is too
-- short; otherwise the header it writes says version 4 and 20 bytes, its length is the length of the packet,
-- and its words, of 16 bits each, add up to a multiple of 65535, as the ones' complement sum of a header must.
pub create_default_ipv4_header-Valid :
    (buffer_length data_size id ttl protocol sender destination : ℕ)
    → id < u16_mod
    → ttl < u8_mod
    → protocol < u8_mod
    → sender < u32_mod
    → destination < u32_mod
    → Created buffer_length data_size
        (create_default_ipv4_header buffer_length data_size id ttl protocol sender destination)
unfolding create_default_ipv4_header
create_default_ipv4_header-Valid buffer_length data_size id ttl protocol sender destination hi ht hp
      hs hd =
    let fields =
      default_packet-IsPacket data_size id ttl protocol sender destination hi ht hp hs hd in
    elim (Bool-cases (ltb (65535 - 20) data_size)) [
      | inl big ↦ rw big (refl, inl (ltb→lt (65535 - 20) data_size big))
      | inr fits ↦ rw fits (elim (Bool-cases (ltb buffer_length 20)) [
        | inl short ↦ rw short (refl, inr (ltb→lt buffer_length 20 short))
        | inr long ↦ rw long (
          omega (arith, not_ltb→le _ _ fits),
          not_ltb→le _ _ long,
          refl,
          refl,
          omega (arith, not_ltb→le _ _ fits),
          total-set_checksum (default_packet data_size id ttl protocol sender destination) fields,
          words-set_checksum-fit (default_packet data_size id ttl protocol sender destination)
              fields,
        )
      ])
    ]
