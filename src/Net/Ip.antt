-- ===== src/Net/Ip.antt =====
-- kernel/src/net/ip_layer.cpp: the header of an IPv4 packet, its checksum, and the layer that a
-- packet is for. The sum of the checksum has 32 bits.
use thor_os.Prelude.{
  ℕ, zero, suc, ◌+◌, ◌-◌, ◌*◌, ◌/◌, ◌%◌, ◌^◌, ◌<◌, ◌≡◌, ◌≢◌, refl, sym, ap, ◌∙◌, arith, bit_and,
  true, Option, none, some, List, [], ◌∷◌, ◌==◌, if◌then◌else◌, if_true, if_false, Bool-cases, inl,
  inr, ◌>>=◌,
}
use thor_os.Checksum.{fold_carry}
use thor_os.Checksum.Fold.{folded}
use thor_os.Word.Shift.{bit_and-ones}
use thor_os.Net.Address.{switch_endian_16, ip32_to_ip, ip_to_ip32}
use thor_os.Net.AddressLaws.{
  switch_endian_16-switch_endian_16, switch_endian_32-bytes, ip2_to_ip-ip_to_ip2,
}

pub record IpHeader : Type 0 where
  pub version_ihl : ℕ
  pub dscp_ecn : ℕ
  pub total_len : ℕ
  pub identification : ℕ
  pub flags_offset : ℕ
  pub ttl : ℕ
  pub protocol : ℕ
  pub header_checksum : ℕ
  pub source_ip : ℕ
  pub target_ip : ℕ

-- The header as an array of 16-bit numbers.
abbrev pub words : IpHeader → List ℕ
words h =
    (h.version_ihl + h.dscp_ecn * 2 ^ 8)
    ∷ h.total_len
    ∷ h.identification
    ∷ h.flags_offset
    ∷ (h.ttl + h.protocol * 2 ^ 8)
    ∷ h.header_checksum
    ∷ (h.source_ip % 2 ^ 16)
    ∷ (h.source_ip / 2 ^ 16)
    ∷ (h.target_ip % 2 ^ 16)
    ∷ (h.target_ip / 2 ^ 16)
    ∷ []

-- `std::accumulate` from the given sum.
pub accumulate : List ℕ → ℕ → ℕ
accumulate [] sum = sum
accumulate (w ∷ ws) sum = accumulate ws ((sum + w) % 2 ^ 32)

-- The loop of `compute_checksum`, for at most `rounds` tests of its condition.
pub add_carry : ℕ → ℕ → ℕ → Option ℕ
add_carry zero value carry = none
add_carry (suc rounds) value carry =
    let rest = add_carry rounds ((value + carry) % 2 ^ 16) ((value + carry) / 2 ^ 16) in
    if carry == 0 then some value else rest

-- For a header of `5 * 2` words, as `prepare_packet` makes it; another length is left out, as the
-- result `none`. Three tests are enough for 32 bits.
pub compute_checksum : IpHeader → Option IpHeader
compute_checksum header =
    let ihl = bit_and header.version_ihl (2 ^ 4 - 1) in
    if ihl == 5
    then (do
      let cleared = record header { header_checksum = 0 }
      let sum = accumulate (words cleared) 0
      value ← add_carry 3 (sum % 2 ^ 16) (sum / 2 ^ 16)
      some (record header { header_checksum = 2 ^ 16 - 1 - value % 2 ^ 16 }))
    else none

-- The header that `prepare_packet` writes, before its checksum.
pub prepared : ℕ → ℕ → ℕ → ℕ → IpHeader
prepared own_ip size target_ip protocol = record {
  version_ihl = 4 * 2 ^ 4 + 20 / 4;
  dscp_ecn = 0;
  total_len = switch_endian_16 ((size % 2 ^ 16 + 20) % 2 ^ 16);
  identification = 0;
  flags_offset = switch_endian_16 (2 ^ 14);
  ttl = 255;
  protocol = protocol % 2 ^ 8;
  header_checksum = 0;
  source_ip = ip_to_ip32 own_ip;
  target_ip = ip_to_ip32 target_ip;
}

pub prepare_packet : ℕ → ℕ → ℕ → ℕ → Option IpHeader
prepare_packet own_ip size target_ip protocol =
    compute_checksum (prepared own_ip size target_ip protocol)

-- What `decode` does with a packet: the layer, and by how much the index moves.
pub data Decoded : Type 0 where
  to_icmp : ℕ → Decoded
  to_tcp : ℕ → Decoded
  to_udp : ℕ → Decoded
  dropped : Decoded

pub dispatch : ℕ → ℕ → Decoded
dispatch protocol header_length =
    if protocol == 1
    then to_icmp header_length
    else if protocol == 6
    then to_tcp header_length
    else if protocol == 17
    then to_udp header_length
    else dropped

pub decode : IpHeader → Decoded
decode h =
    let header_length = 4 * bit_and h.version_ihl (2 ^ 4 - 1) in
    if h.version_ihl / 2 ^ 4 == 4 then dispatch h.protocol header_length else dropped

-- The loop is the one of the shared checksum.
add_carry-fold_carry :
    (rounds sum : ℕ) → add_carry rounds (sum % 2 ^ 16) (sum / 2 ^ 16) ≡ fold_carry rounds sum
unfolding add_carry fold_carry
add_carry-fold_carry zero sum = refl
add_carry-fold_carry (suc rounds) sum = elim (Bool-cases (sum / 2 ^ 16 == 0)) [
  | inl e ↦ if_true _ _ e ∙ ap some (low sum e) ∙ sym (if_true _ _ e)
  | inr e ↦
      if_false _ _ e
      ∙ add_carry-fold_carry rounds (sum % 2 ^ 16 + sum / 2 ^ 16)
      ∙ sym (if_false _ _ e)
]
  where
    low : (n : ℕ) → (n / 2 ^ 16 == 0) ≡ true → n % 2 ^ 16 ≡ n
    low n h = ground arith

-- The fields have the sizes of the header, which has 20 bytes.
pub record IsHeader (h : IpHeader) : Type 0 where
  pub version_ihl : h.version_ihl < 2 ^ 8
  pub twenty_bytes : h.version_ihl % 2 ^ 4 ≡ 5
  pub dscp_ecn : h.dscp_ecn < 2 ^ 8
  pub total_len : h.total_len < 2 ^ 16
  pub identification : h.identification < 2 ^ 16
  pub flags_offset : h.flags_offset < 2 ^ 16
  pub ttl : h.ttl < 2 ^ 8
  pub protocol : h.protocol < 2 ^ 8
  pub source_ip : h.source_ip < 2 ^ 32
  pub target_ip : h.target_ip < 2 ^ 32

accumulate-checksum :
    (h : IpHeader) (r : ℕ)
    → IsHeader h
    → r < 2 ^ 16
    → (accumulate (words (record h { header_checksum = r })) 0
        ≡ accumulate (words (record h { header_checksum = 0 })) 0 + r)
      × (accumulate (words (record h { header_checksum = 0 })) 0 < 2 ^ 20)
      × (accumulate (words (record h { header_checksum = 0 })) 0 ≢ 0)
unfolding accumulate
accumulate-checksum h r v small = (
  omega (
    arith, v.version_ihl, v.dscp_ecn, v.total_len, v.identification, v.flags_offset, v.ttl,
    v.protocol, v.source_ip, v.target_ip,
  ),
  omega (
    arith, v.version_ihl, v.dscp_ecn, v.total_len, v.identification, v.flags_offset, v.ttl,
    v.protocol, v.source_ip, v.target_ip,
  ),
  λ e. absurd (
      omega (
        arith, e, v.twenty_bytes, v.version_ihl, v.dscp_ecn, v.total_len, v.identification,
        v.flags_offset, v.ttl, v.protocol, v.source_ip, v.target_ip,
      )),
)

all_ones :
    (sum s t : ℕ)
    → s % 65535 ≡ sum % 65535
    → s < 65536
    → t < 65536
    → t ≢ 0
    → t % 65535 ≡ (sum + (65535 - s)) % 65535
    → t ≡ 65535
all_ones sum s t e hs ht n f = omega arith

-- The checksum of a header verifies: `compute_checksum` answers a header whose numbers of 16 bits,
-- the checksum among them, add up to all ones when the carries are added back. The fields have
-- their sizes, and the header has 20 bytes.
pub compute_checksum-verifies :
    (h : IpHeader)
    → IsHeader h
    → (r : ℕ) × (compute_checksum h ≡ some (record h { header_checksum = r }))
      × (fold_carry 3 (accumulate (words (record h { header_checksum = r })) 0) ≡ some (2 ^ 16 - 1))
unfolding compute_checksum
compute_checksum-verifies h v =
    let cleared = record h { header_checksum = 0 } in
    let sum = accumulate (words cleared) 0 in
    let (same0, small, nonzero) = accumulate-checksum h 0 v (omega arith) in
    let (s, f) = folded sum (omega (arith, small)) in
    let r = 2 ^ 16 - 1 - s % 2 ^ 16 in
    let (total, small', nonzero') = accumulate-checksum h r v (omega arith) in
    let whole = accumulate (words (record h { header_checksum = r })) 0 in
    let (t, g) = folded whole (omega (arith, total, small)) in
    let ones : t ≡ 65535 =
      all_ones sum s t f.same f.small g.small (g.nonzero (λ e. nonzero (omega (arith, e, total))))
        (g.same ∙ ap (λ (n : ℕ). n % 65535) (omega (arith, total, f.small))) in
    (
      r,
      if_true _ _ (ap (λ (n : ℕ). n == 5) (bit_and-ones 4 h.version_ihl ∙ v.twenty_bytes))
          ∙ ap
              (λ (o : Option ℕ). do
                value ← o
                some (record h { header_checksum = 2 ^ 16 - 1 - value % 2 ^ 16 }))
              (add_carry-fold_carry 3 sum ∙ f.loop),
      g.loop ∙ ap some ones,
    )

prepared-IsHeader :
    (own_ip size target_ip protocol : ℕ)
    → own_ip < 2 ^ 32
    → target_ip < 2 ^ 32
    → IsHeader (prepared own_ip size target_ip protocol)
unfolding prepared ip_to_ip32 switch_endian_16
prepared-IsHeader own_ip size target_ip protocol ho ht = record {
  version_ihl = omega arith;
  twenty_bytes = refl;
  dscp_ecn = omega arith;
  total_len = omega arith;
  identification = omega arith;
  flags_offset = omega arith;
  ttl = omega arith;
  protocol = omega arith;
  source_ip = omega (arith, switch_endian_32-bytes own_ip ho);
  target_ip = omega (arith, switch_endian_32-bytes target_ip ht);
}

-- A packet that is prepared by one host is read by the other as it was meant: the checksum
-- verifies, the addresses are those of the sender and the target, the length is that of the data
-- and of a header of 20 bytes, and the packet goes to the layer of its protocol. The addresses have
-- 32 bits, the protocol 8 bits, and the length fits in 16 bits.
pub prepare_packet-decode :
    (own_ip size target_ip protocol : ℕ)
    → own_ip < 2 ^ 32
    → target_ip < 2 ^ 32
    → protocol < 2 ^ 8
    → size + 20 < 2 ^ 16
    → (h : IpHeader) × (prepare_packet own_ip size target_ip protocol ≡ some h)
      × (fold_carry 3 (accumulate (words h) 0) ≡ some (2 ^ 16 - 1))
      × (ip32_to_ip h.source_ip ≡ own_ip)
      × (ip32_to_ip h.target_ip ≡ target_ip)
      × (switch_endian_16 h.total_len ≡ size + 20)
      × (decode h ≡ dispatch protocol 20)
unfolding prepare_packet prepared decode
prepare_packet-decode own_ip size target_ip protocol ho ht hp hs =
    let h = prepared own_ip size target_ip protocol in
    let length_16 = (size % 2 ^ 16 + 20) % 2 ^ 16 in
    let (r, answer, verifies) =
      compute_checksum-verifies h (prepared-IsHeader own_ip size target_ip protocol ho ht) in
    (
      record h { header_checksum = r },
      answer,
      verifies,
      (ip2_to_ip-ip_to_ip2 own_ip ho).1,
      (ip2_to_ip-ip_to_ip2 target_ip ht).1,
      switch_endian_16-switch_endian_16 length_16 (omega arith) ∙ omega (arith, hs),
      ap (λ (p : ℕ). dispatch p 20) (omega (arith, hp)),
    )
