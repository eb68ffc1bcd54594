-- ===== src/Network/Tcp/Send/Sent.antt =====
-- What `send_tcp_ipv4_data` has done when it returns.
use mathlib.Core.Path.{subst}
use methylenix.Base.{
  ℕ, zero, suc, ◌+◌, ◌%◌, ◌<◌, ◌≤◌, ◌≡◌, refl, sym, ◌∙◌, ap, arith, true, false, not, ◌||◌, none,
  List, [], ◌∷◌, ◌++◌, ◌==◌, ◌⊎◌, inl, inr, All, length, take, drop, add_u32, u16_mod, u32_mod,
  length-append, take-append-drop, length-take, length-drop, append_assoc, Bool-cases, Option-cases,
}
use methylenix.Network.{Result, ok, Ipv4ConnectionInfo, LinkType, ethernet}
use methylenix.Network.Tcp.{
  TcpSendDataBufferHeader, TcpSessionInfo, Packet, Device, can_send, is_empty,
}
use methylenix.Network.Tcp.Send.{
  send_size, data_packet, count_sent, round_stops, send_loop, send_tcp_ipv4_data, SendOutcome,
  max_segment_size,
}

-- All bytes of the packets, in order.
abbrev pub payloads : List Packet → List ℕ
payloads [] = []
payloads (p ∷ ps) = p.payload ++ payloads ps

-- The packets carry consecutive sequence numbers from `n` on, and `m` comes next.
abbrev pub Numbered : ℕ → List Packet → ℕ → Type 0
Numbered n [] m = n ≡ m
Numbered n (p ∷ ps) m =
    (p.segment.sequence_number ≡ n) × Numbered (add_u32 n (length p.payload % u32_mod)) ps m

-- The bytes that wait for an acknowledgement.
abbrev pub in_flight : List TcpSendDataBufferHeader → ℕ
in_flight [] = 0
in_flight (e ∷ es) = e.payload_size + in_flight es

pub in_flight-append :
    (xs ys : List TcpSendDataBufferHeader) → in_flight (xs ++ ys) ≡ in_flight xs + in_flight ys
in_flight-append [] ys = omega arith
in_flight-append (x ∷ xs) ys = omega (arith, in_flight-append xs ys)

pub record Sent (s : TcpSessionInfo) (bytes : List ℕ) (o : SendOutcome) : Type 0 where
  pub whole : payloads o.3 ++ o.2 ≡ bytes
  pub numbered : Numbered s.next_sequence_number o.3 o.1.next_sequence_number
  pub bounded : All (λ p. (0 < length p.payload) × (length p.payload ≤ max_segment_size)) o.3
  pub window : o.1.available_window_size + length (payloads o.3) ≡ s.available_window_size
  pub kept : in_flight o.1.send_buffer_list ≡ in_flight s.send_buffer_list + length (payloads o.3)

nothing-Sent :
    (s : TcpSessionInfo) (bytes : List ℕ) (r : Result (Unit {0})) → Sent s bytes (r, s, bytes, [])
nothing-Sent s bytes r = record {
  whole = refl;
  numbered = refl;
  bounded = tt;
  window = omega arith;
  kept = omega arith;
}

-- A round that sends.
round-Sent :
    (info : Ipv4ConnectionInfo) (s : TcpSessionInfo) (bytes : List ℕ) (o : SendOutcome)
    → s.available_window_size < u16_mod
    → 0 < send_size s bytes
    → Sent (count_sent (send_size s bytes) s) (drop (send_size s bytes) bytes) o
    → Sent s bytes (o.0, o.1, o.2, data_packet info s bytes ∷ o.3)
unfolding send_size data_packet count_sent
round-Sent info s bytes o fits some_bytes h =
    let n = send_size s bytes in
    let l : length (take n bytes) ≡ n = length-take n bytes (omega arith) in
    record {
      whole =
          append_assoc (take n bytes) (payloads o.3) o.2
          ∙ ap (λ l. take n bytes ++ l) h.whole
          ∙ take-append-drop n bytes;
      numbered = (
        refl,
        subst
            (λ v.
              Numbered (add_u32 s.next_sequence_number (v % u32_mod)) o.3 o.1.next_sequence_number)
            (sym l) h.numbered,
      );
      bounded = ((omega (arith, l), omega (arith, l)), h.bounded);
      window = omega (arith, l, h.window, length-append (take n bytes) (payloads o.3));
      kept = omega (
        arith,
        l,
        h.kept,
        length-append (take n bytes) (payloads o.3),
        in_flight-append s.send_buffer_list (
            record {
              buffer_length = n + 40 + 32;
              sequence_number = s.next_sequence_number;
              payload_size = n % u32_mod;
            }
            ∷ []),
      );
    }

send_size-pos :
    (s : TcpSessionInfo) (bytes : List ℕ)
    → (is_empty bytes || s.available_window_size == 0) ≡ false
    → 0 < send_size s bytes
unfolding send_size
send_size-pos s [] h = absurd cc
send_size-pos s (b ∷ bytes) h = ground arith

count_sent-fits : (n : ℕ) (s : TcpSessionInfo) → (count_sent n s).available_window_size < u16_mod
unfolding count_sent
count_sent-fits n s = omega arith

send_loop-Sent :
    (d : Device) (info : Ipv4ConnectionInfo) (link : LinkType) (fuel i : ℕ) (s : TcpSessionInfo)
    (bytes : List ℕ)
    → s.available_window_size < u16_mod
    → Sent s bytes (send_loop d info link fuel i s bytes)
unfolding send_loop
send_loop-Sent d info link zero i s bytes fits = nothing-Sent s bytes _
send_loop-Sent d info link (suc fuel) i s bytes fits =
    let n = send_size s bytes in
    let ih =
      send_loop-Sent d info link fuel (suc i) (count_sent n s) (drop n bytes)
        (count_sent-fits n s) in
    elim (Bool-cases (is_empty bytes || s.available_window_size == 0)) [
      | inl over ↦ rw over (nothing-Sent s bytes _)
      | inr more ↦ rw more (elim (Option-cases (round_stops d info link i s bytes)) [
        | inl go ↦ rw go (round-Sent info s bytes _ fits (send_size-pos s bytes more) ih)
        | inr (r, stop) ↦ rw stop (nothing-Sent s bytes r)
      ])
    ]

-- Whatever the allocator and the device answer, the packets that went out carry the beginning of the
-- data, in order, in pieces of 1 to 1460 bytes with consecutive sequence numbers; what is left is the
-- rest of the data; and the window has shrunk, and the bytes that wait for an acknowledgement have
-- grown, by exactly what went out.
pub send_tcp_ipv4_data-Sent :
    (d : Device) (info : Ipv4ConnectionInfo) (link : LinkType) (s : TcpSessionInfo) (bytes : List ℕ)
    → s.available_window_size < u16_mod
    → Sent s bytes (send_tcp_ipv4_data d info link s bytes)
unfolding send_tcp_ipv4_data
send_tcp_ipv4_data-Sent d info link s bytes fits = elim (Bool-cases (not (can_send s.status))) [
  | inl shut ↦ rw shut (nothing-Sent s bytes _)
  | inr may ↦ rw may (send_loop-Sent d info link (length bytes) 0 s bytes fits)
]

-- A device that takes every packet, and an allocator that never fails.
abbrev pub Serves : Device → Type 0
Serves d =
    ((i size : ℕ) → d.kmalloc i size ≡ none) × ((i : ℕ) (p : Packet) → d.reply_data i p ≡ none)

round_stops-none :
    (d : Device) (info : Ipv4ConnectionInfo) (i : ℕ) (s : TcpSessionInfo) (bytes : List ℕ)
    → Serves d
    → round_stops d info ethernet i s bytes ≡ none
unfolding round_stops
round_stops-none d info i s bytes (k, r) =
    rw (round_stops, k i (send_size s bytes + 40 + 32), r i (data_packet info s bytes)) refl

-- The loop ends because nothing is left or because the window is full.
abbrev pub Done : SendOutcome → Type 0
Done o = (o.0 ≡ ok tt) × ((o.2 ≡ []) ⊎ (o.1.available_window_size ≡ 0))

send_loop-Done :
    (d : Device) (info : Ipv4ConnectionInfo) (fuel i : ℕ) (s : TcpSessionInfo) (bytes : List ℕ)
    → Serves d
    → length bytes ≤ fuel
    → Done (send_loop d info ethernet fuel i s bytes)
unfolding send_loop
send_loop-Done d info zero i s bytes serves enough = (refl, inl (empty bytes enough))
  where
    empty : (bytes : List ℕ) → length bytes ≤ 0 → bytes ≡ []
    empty [] h = refl
    empty (b ∷ bytes) h = absurd (omega arith)
send_loop-Done d info (suc fuel) i s bytes serves enough =
    let n = send_size s bytes in
    elim (Bool-cases (is_empty bytes || s.available_window_size == 0)) [
      | inl over ↦ rw over (refl, over_cases s bytes over)
      | inr more ↦
          rw (more, round_stops-none d info i s bytes serves)
            (send_loop-Done d info fuel (suc i) (count_sent n s) (drop n bytes) serves
              (omega (arith, length-drop n bytes, send_size-pos s bytes more)))
    ]
  where
    over_cases :
        (s : TcpSessionInfo) (bytes : List ℕ)
        → (is_empty bytes || s.available_window_size == 0) ≡ true
        → (bytes ≡ []) ⊎ (s.available_window_size ≡ 0)
    over_cases s [] h = inl refl
    over_cases s (b ∷ bytes) h = inr (ground arith)

-- Where memory is there and the device takes every packet, an open session sends until the data is
-- used up or the window of the other side is full, and reports success.
pub send_tcp_ipv4_data-Done :
    (d : Device) (info : Ipv4ConnectionInfo) (s : TcpSessionInfo) (bytes : List ℕ)
    → Serves d
    → can_send s.status ≡ true
    → Done (send_tcp_ipv4_data d info ethernet s bytes)
unfolding send_tcp_ipv4_data
send_tcp_ipv4_data-Done d info s bytes serves can =
    rw can (send_loop-Done d info (length bytes) 0 s bytes serves (omega arith))
