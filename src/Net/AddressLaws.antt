-- ===== src/Net/AddressLaws.antt =====
-- The conversions of addresses, there and back.
use thor_os.Prelude.{ℕ, ◌+◌, ◌-◌, ◌*◌, ◌/◌, ◌%◌, ◌^◌, ◌<◌, bit_and, bit_or, ◌≡◌, ap, ◌∙◌, arith}
use thor_os.Word.Shift.{
  bit_or_low, bit_or-shift, or-shift_right, bit_or-split, bit_or-zero_left, bit_or-zero_right,
  bit_and-ones, bit_and-field,
}
use thor_os.Net.Address.{
  switch_endian_16, switch_endian_32, byte_at, set_sub, make_address, ip32_to_ip, ip_to_ip32,
  or_halves, mac3_to_mac64, mac64_to_mac3, set_halves, ip2_to_ip, ip_to_ip2, or_bytes,
  mac6_to_mac64, mac64_to_mac6,
}

pub switch_endian_16-bytes :
    (n : ℕ) → n < 2 ^ 16 → switch_endian_16 n ≡ n % 2 ^ 8 * 2 ^ 8 + n / 2 ^ 8
unfolding switch_endian_16
switch_endian_16-bytes n h =
    let joined = or-shift_right 8 n (n / 2 ^ 8) (omega arith) in omega (arith, joined)

pub switch_endian_16-switch_endian_16 :
    (n : ℕ) → n < 2 ^ 16 → switch_endian_16 (switch_endian_16 n) ≡ n
switch_endian_16-switch_endian_16 n h =
    let once = switch_endian_16-bytes n h in
    omega (arith, once, switch_endian_16-bytes (switch_endian_16 n) (omega (arith, once)))

-- A byte in the middle of a number that has no bit there.
middle_byte :
    (b a c : ℕ)
    → a < 2 ^ 8
    → c < 2 ^ 8
    → bit_or (b * 2 ^ 16 + a) (c * 2 ^ 8) ≡ b * 2 ^ 16 + c * 2 ^ 8 + a
middle_byte b a c h l =
    ap (λ (n : ℕ). bit_or n (c * 2 ^ 8)) (omega arith)
    ∙ ap (λ (n : ℕ). bit_or (b * 2 ^ 8 * 2 ^ 8 + a) n) (omega arith)
    ∙ bit_or-split 8 (b * 2 ^ 8) c a 0 h (omega arith)
    ∙ omega (arith, bit_or-shift 8 b c l, bit_or-zero_right a)

pub switch_endian_32-bytes :
    (n : ℕ)
    → n < 2 ^ 32
    → switch_endian_32 n
      ≡ n % 2 ^ 8 * 2 ^ 24 + n / 2 ^ 8 % 2 ^ 8 * 2 ^ 16 + n / 2 ^ 16 % 2 ^ 8 * 2 ^ 8 + n / 2 ^ 24
unfolding switch_endian_32
switch_endian_32-bytes n h =
    let part_0 : bit_and (n / 2 ^ 24) (2 ^ 8 - 1) ≡ n / 2 ^ 24 =
      omega (arith, bit_and-ones 8 (n / 2 ^ 24)) in
    let part_1 : bit_and (n * 2 ^ 8 % 2 ^ 32) ((2 ^ 8 - 1) * 2 ^ 16) ≡ n / 2 ^ 8 % 2 ^ 8 * 2 ^ 16 =
      omega (
        arith,
        bit_and-field 16 (2 ^ 8 - 1) (n * 2 ^ 8 % 2 ^ 32),
        bit_and-ones 8 (n * 2 ^ 8 % 2 ^ 32 / 2 ^ 16),
      ) in
    let part_2 : bit_and (n / 2 ^ 8) ((2 ^ 8 - 1) * 2 ^ 8) ≡ n / 2 ^ 16 % 2 ^ 8 * 2 ^ 8 =
      omega (arith, bit_and-field 8 (2 ^ 8 - 1) (n / 2 ^ 8), bit_and-ones 8 (n / 2 ^ 8 / 2 ^ 8)) in
    let part_3 : bit_and (n * 2 ^ 24 % 2 ^ 32) ((2 ^ 8 - 1) * 2 ^ 24) ≡ n % 2 ^ 8 * 2 ^ 24 = omega (
      arith,
      bit_and-field 24 (2 ^ 8 - 1) (n * 2 ^ 24 % 2 ^ 32),
      bit_and-ones 8 (n * 2 ^ 24 % 2 ^ 32 / 2 ^ 24),
    ) in
    let b = n / 2 ^ 8 % 2 ^ 8 in
    let c = n / 2 ^ 16 % 2 ^ 8 in
    let a = n / 2 ^ 24 in
    rw (part_0, part_1, part_2, part_3)
      (ap (λ (p : ℕ). bit_or (bit_or p (c * 2 ^ 8)) (n % 2 ^ 8 * 2 ^ 24))
          (or-shift_right 16 b a (omega arith))
        ∙ ap (λ (p : ℕ). bit_or p (n % 2 ^ 8 * 2 ^ 24))
            (middle_byte b a c (omega arith) (omega arith))
        ∙ or-shift_right 24 (n % 2 ^ 8) (b * 2 ^ 16 + c * 2 ^ 8 + a) (omega arith)
        ∙ omega arith)

pub byte_at-bytes :
    (ip : ℕ)
    → ip < 2 ^ 32
    → (byte_at ip 0 ≡ ip / 2 ^ 24)
      × (byte_at ip 1 ≡ ip / 2 ^ 16 % 2 ^ 8)
      × (byte_at ip 2 ≡ ip / 2 ^ 8 % 2 ^ 8)
      × (byte_at ip 3 ≡ ip % 2 ^ 8)
unfolding byte_at
byte_at-bytes ip h = (
  omega (arith, bit_and-ones 8 (ip / 2 ^ 24)),
  omega (arith, bit_and-ones 8 (ip / 2 ^ 16)),
  omega (arith, bit_and-ones 8 (ip / 2 ^ 8)),
  omega (arith, bit_and-ones 8 (ip / 1)),
)

pub make_address-bytes :
    (a b c d : ℕ)
    → a < 2 ^ 8
    → b < 2 ^ 8
    → c < 2 ^ 8
    → d < 2 ^ 8
    → make_address a b c d ≡ a * 2 ^ 24 + b * 2 ^ 16 + c * 2 ^ 8 + d
unfolding make_address set_sub
make_address-bytes a b c d ha hb hc hd =
    let e1 : set_sub 0 0 a ≡ a * 2 ^ 24 = bit_or-zero_left (a * 2 ^ 24 % 2 ^ 32) ∙ omega arith in
    let x1 = set_sub 0 0 a in
    let e2 : set_sub x1 1 b ≡ a * 2 ^ 24 + b * 2 ^ 16 =
      bit_or_low 24 a x1 (b * 2 ^ 16 % 2 ^ 32) e1 (omega arith) ∙ omega (arith, e1) in
    let x2 = set_sub x1 1 b in
    let e3 : set_sub x2 2 c ≡ a * 2 ^ 24 + b * 2 ^ 16 + c * 2 ^ 8 =
      bit_or_low 16 (a * 2 ^ 8 + b) x2 (c * 2 ^ 8 % 2 ^ 32) (omega (arith, e2)) (omega arith)
      ∙ omega (arith, e2) in
    let x3 = set_sub x2 2 c in
    bit_or_low 8 (a * 2 ^ 16 + b * 2 ^ 8 + c) x3 (d * 1 % 2 ^ 32) (omega (arith, e3)) (omega arith)
    ∙ omega (arith, e3)

-- An IP address survives the conversion to two header fields of an ARP packet and to the field of
-- an IP packet, and back. It has 32 bits.
pub ip2_to_ip-ip_to_ip2 :
    (ip : ℕ) → ip < 2 ^ 32 → (ip2_to_ip (ip_to_ip2 ip) ≡ ip) × (ip32_to_ip (ip_to_ip32 ip) ≡ ip)
unfolding ip2_to_ip ip_to_ip2 set_halves ip32_to_ip ip_to_ip32 make_address
ip2_to_ip-ip_to_ip2 ip h =
    let (at0, at1, at2, at3) = byte_at-bytes ip h in
    let h0 = (byte_at ip 1 * 2 ^ 8 + byte_at ip 0) % 2 ^ 16 in
    let h1 = (byte_at ip 3 * 2 ^ 8 + byte_at ip 2) % 2 ^ 16 in
    let s0 : switch_endian_16 h0 ≡ byte_at ip 0 * 2 ^ 8 + byte_at ip 1 =
      omega (arith, switch_endian_16-bytes h0 (omega arith), at0, at1, h) in
    let s1 : switch_endian_16 h1 ≡ byte_at ip 2 * 2 ^ 8 + byte_at ip 3 =
      omega (arith, switch_endian_16-bytes h1 (omega arith), at2, at3) in
    let made =
      make_address-bytes (switch_endian_16 h0 / 2 ^ 8 % 2 ^ 8) (switch_endian_16 h0 % 2 ^ 8)
        (switch_endian_16 h1 / 2 ^ 8 % 2 ^ 8) (switch_endian_16 h1 % 2 ^ 8) (omega arith)
        (omega arith) (omega arith) (omega arith) in
    let once = switch_endian_32-bytes ip h in
    (
      made ∙ omega (arith, s0, s1, at0, at1, at2, at3),
      switch_endian_32-bytes (switch_endian_32 ip) (omega (arith, once)) ∙ omega (arith, once),
    )

join_halves :
    (a b c : ℕ)
    → a < 2 ^ 16
    → b < 2 ^ 16
    → c < 2 ^ 16
    → bit_or (bit_or (bit_or 0 (a * 2 ^ 32 % 2 ^ 64)) (b * 2 ^ 16 % 2 ^ 64)) (c * 1 % 2 ^ 64)
      ≡ a * 2 ^ 32 + b * 2 ^ 16 + c
join_halves a b c ha hb hc =
    let x1 = bit_or 0 (a * 2 ^ 32 % 2 ^ 64) in
    let e1 : x1 ≡ a * 2 ^ 32 = bit_or-zero_left (a * 2 ^ 32 % 2 ^ 64) ∙ omega arith in
    let x2 = bit_or x1 (b * 2 ^ 16 % 2 ^ 64) in
    let e2 : x2 ≡ a * 2 ^ 32 + b * 2 ^ 16 =
      bit_or_low 32 a x1 (b * 2 ^ 16 % 2 ^ 64) e1 (omega arith) ∙ omega (arith, e1) in
    bit_or_low 16 (a * 2 ^ 16 + b) x2 (c * 1 % 2 ^ 64) (omega (arith, e2)) (omega arith)
    ∙ omega (arith, e2)

-- What the loop over six bytes has read after each round.
join_bytes : (mac : ℕ) → mac < 2 ^ 48 → mac6_to_mac64 (mac64_to_mac6 mac) ≡ mac
unfolding mac6_to_mac64 mac64_to_mac6 or_bytes
join_bytes mac h =
    let x1 = bit_or 0 (mac / 2 ^ 40 % 2 ^ 8 * 2 ^ 40 % 2 ^ 64) in
    let e1 : x1 ≡ mac / 2 ^ 40 * 2 ^ 40 =
      bit_or-zero_left (mac / 2 ^ 40 % 2 ^ 8 * 2 ^ 40 % 2 ^ 64) ∙ omega (arith, h) in
    let x2 = bit_or x1 (mac / 2 ^ 32 % 2 ^ 8 * 2 ^ 32 % 2 ^ 64) in
    let e2 : x2 ≡ mac / 2 ^ 32 * 2 ^ 32 =
      bit_or_low 40 (mac / 2 ^ 40) x1 (mac / 2 ^ 32 % 2 ^ 8 * 2 ^ 32 % 2 ^ 64) e1 (omega arith)
      ∙ omega (arith, e1) in
    let x3 = bit_or x2 (mac / 2 ^ 24 % 2 ^ 8 * 2 ^ 24 % 2 ^ 64) in
    let e3 : x3 ≡ mac / 2 ^ 24 * 2 ^ 24 =
      bit_or_low 32 (mac / 2 ^ 32) x2 (mac / 2 ^ 24 % 2 ^ 8 * 2 ^ 24 % 2 ^ 64) e2 (omega arith)
      ∙ omega (arith, e2) in
    let x4 = bit_or x3 (mac / 2 ^ 16 % 2 ^ 8 * 2 ^ 16 % 2 ^ 64) in
    let e4 : x4 ≡ mac / 2 ^ 16 * 2 ^ 16 =
      bit_or_low 24 (mac / 2 ^ 24) x3 (mac / 2 ^ 16 % 2 ^ 8 * 2 ^ 16 % 2 ^ 64) e3 (omega arith)
      ∙ omega (arith, e3) in
    let x5 = bit_or x4 (mac / 2 ^ 8 % 2 ^ 8 * 2 ^ 8 % 2 ^ 64) in
    let e5 : x5 ≡ mac / 2 ^ 8 * 2 ^ 8 =
      bit_or_low 16 (mac / 2 ^ 16) x4 (mac / 2 ^ 8 % 2 ^ 8 * 2 ^ 8 % 2 ^ 64) e4 (omega arith)
      ∙ omega (arith, e4) in
    bit_or_low 8 (mac / 2 ^ 8) x5 (mac / 1 % 2 ^ 8 * 1 % 2 ^ 64) e5 (omega arith)
    ∙ omega (arith, e5)

-- A hardware address survives the conversion to three header fields of an ARP packet, and to the
-- six bytes of an Ethernet header, and back. It has 48 bits.
pub mac3_to_mac64-mac64_to_mac3 :
    (mac : ℕ)
    → mac < 2 ^ 48
    → (mac3_to_mac64 (mac64_to_mac3 mac) ≡ mac) × (mac6_to_mac64 (mac64_to_mac6 mac) ≡ mac)
unfolding mac3_to_mac64 mac64_to_mac3 or_halves
mac3_to_mac64-mac64_to_mac3 mac h =
    let back_2 = switch_endian_16-switch_endian_16 (mac / 2 ^ 32 % 2 ^ 16) (omega arith) in
    let back_1 = switch_endian_16-switch_endian_16 (mac / 2 ^ 16 % 2 ^ 16) (omega arith) in
    let back_0 = switch_endian_16-switch_endian_16 (mac / 1 % 2 ^ 16) (omega arith) in
    let joined =
      join_halves (mac / 2 ^ 32 % 2 ^ 16) (mac / 2 ^ 16 % 2 ^ 16) (mac / 1 % 2 ^ 16) (omega arith)
        (omega arith) (omega arith) in
    (rw (back_2, back_1, back_0) (joined ∙ omega arith), join_bytes mac h)
