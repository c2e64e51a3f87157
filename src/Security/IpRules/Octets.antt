-- ===== src/Security/IpRules/Octets.antt =====
-- The public IPv4 addresses, told by their octets.
use universal_agent_protocol.Base.{
  ℕ, ◌+◌, ◌*◌, ◌/◌, ◌%◌, ◌^◌, ◌≡◌, refl, ◌≢◌, ◌≤◌, ◌<◌, ◌↔◌, ◌⊎◌, false, Option, none, some, Text,
  arith, codes, includes, text_eq, text_eq_sound, Bool-cases, inl, inr, ap, ◌∙◌, sym, split_on,
}
use universal_agent_protocol.Base.Decimal.{value_from}
use universal_agent_protocol.Security.IpRules.{
  public_address, in_cidr, is_private, is_reserved, classify_value, classify_ipv4, ipv4_to_int,
  dotted, metadata_addresses, Groups, classify_groups, embedded_ipv4,
}
use universal_agent_protocol.Security.IpRules.Dotted.{ipv4_to_int-dotted}

module _ (a b c d : ℕ) where
  -- The octets lie in none of the ranges that RFC 6890 and its kin take out of the public space.
  pub record IsGlobal : Type 0 where
    pub not_this_net : a ≢ 0
    pub not_private_10 : a ≢ 10
    pub not_shared : a ≡ 100 → (b < 64) ⊎ (128 ≤ b)
    pub not_loopback : a ≢ 127
    pub not_link_local : a ≡ 169 → b ≢ 254
    pub not_private_172 : a ≡ 172 → (b < 16) ⊎ (32 ≤ b)
    pub not_private_192 : a ≡ 192 → b ≢ 168
    pub not_protocol : a ≡ 192 → b ≡ 0 → (c ≢ 0) × (c ≢ 2)
    pub not_relay : a ≡ 192 → b ≡ 88 → c ≢ 99
    pub not_benchmark : a ≡ 198 → (b ≢ 18) × (b ≢ 19) × (b ≡ 51 → c ≢ 100)
    pub not_documentation : a ≡ 203 → b ≡ 0 → c ≢ 113
    pub not_multicast : a < 224

  abbrev value : ℕ
  value = ((a * 256 + b) * 256 + c) * 256 + d

  module _ (hb : b < 256) (hc : c < 256) (hd : d < 256) where
    by_8 : value / 2 ^ 24 ≡ a
    by_8 = omega arith

    by_16 : value / 2 ^ 16 ≡ a * 256 + b
    by_16 = omega arith

    by_24 : value / 2 ^ 8 ≡ (a * 256 + b) * 256 + c
    by_24 = omega arith

    by_12 : value / 2 ^ 20 ≡ (a * 256 + b) / 16
    by_12 = omega arith

    by_10 : value / 2 ^ 22 ≡ (a * 256 + b) / 64
    by_10 = omega arith

    by_15 : value / 2 ^ 17 ≡ (a * 256 + b) / 2
    by_15 = omega arith

    by_4 : value / 2 ^ 28 ≡ a / 16
    by_4 = omega arith

    -- The private ranges, at the octets.
    private_iff : (is_private value ≡ false) ↔ (
        (a ≢ 10) × ((a * 256 + b) / 16 ≢ 2753) × (a * 256 + b ≢ 49320) × ((a * 256 + b) / 64 ≢ 401))
    unfolding is_private in_cidr split_on value_from
    private_iff = (
      λ h. ground (arith, by_8, by_12, by_16, by_10),
      λ h. ground (arith, by_8, by_12, by_16, by_10),
    )

    -- The reserved ranges, at the octets.
    reserved_iff : (is_reserved value ≡ false) ↔ (
        (a ≢ 0)
        × ((a * 256 + b) * 256 + c ≢ 12582912)
        × ((a * 256 + b) * 256 + c ≢ 12582914)
        × ((a * 256 + b) * 256 + c ≢ 12605539)
        × ((a * 256 + b) / 2 ≢ 25353)
        × ((a * 256 + b) * 256 + c ≢ 12989284)
        × ((a * 256 + b) * 256 + c ≢ 13303921)
        × (a / 16 ≢ 14)
        × (a / 16 ≢ 15))
    unfolding is_reserved in_cidr split_on value_from
    reserved_iff = (
      λ h. ground (arith, by_8, by_24, by_15, by_4),
      λ h. ground (arith, by_8, by_24, by_15, by_4),
    )

    local_iff :
        ((in_cidr value (codes "127.0.0.0") 8 ≡ false)
          × (in_cidr value (codes "169.254.0.0") 16 ≡ false))
        ↔ ((a ≢ 127) × (a * 256 + b ≢ 43518))
    unfolding in_cidr split_on value_from
    local_iff = (λ h. ground (arith, by_8, by_16), λ h. ground (arith, by_8, by_16))

    value_iff : (classify_value value ≡ public_address) ↔ (
        (in_cidr value (codes "127.0.0.0") 8 ≡ false)
        × (in_cidr value (codes "169.254.0.0") 16 ≡ false)
        × (is_private value ≡ false)
        × (is_reserved value ≡ false))
    unfolding classify_value
    value_iff = (λ h. ground arith, λ h. ground arith)

    IsGlobal_iff : a < 256 → (classify_value value ≡ public_address) ↔ IsGlobal
    IsGlobal_iff ha = (
      λ h.
          let (l, m, p, r) = value_iff.0 h in
          let (l', m') = local_iff.0 (l, m) in
          let (p1, p2, p3, p4) = private_iff.0 p in
          let (r1, r2, r3, r4, r5, r6, r7, r8, r9) = reserved_iff.0 r in
          record {
            not_this_net = omega arith;
            not_private_10 = omega arith;
            not_shared = λ e. omega arith;
            not_loopback = omega arith;
            not_link_local = λ e. omega arith;
            not_private_172 = λ e. omega arith;
            not_private_192 = λ e. omega arith;
            not_protocol = λ e f. omega arith;
            not_relay = λ e f. omega arith;
            not_benchmark = λ e. omega arith;
            not_documentation = λ e f. omega arith;
            not_multicast = omega arith;
          },
      λ g.
          let (l, m) = local_iff.1 (g.not_loopback, λ e. absurd (omega arith)) in
          value_iff.1 (
            l,
            m,
            private_iff.1 (
              g.not_private_10,
              λ e. absurd (omega arith),
              λ e. absurd (omega arith),
              λ e. absurd (omega arith),
            ),
            reserved_iff.1 (
              g.not_this_net,
              λ e. absurd (omega arith),
              λ e. absurd (omega arith),
              λ e. absurd (omega arith),
              λ e. let benchmark = g.not_benchmark (omega arith) in absurd (omega arith),
              λ e. (g.not_benchmark (omega arith)).2 (omega arith) (omega arith),
              λ e. absurd (omega arith),
              λ e. absurd (omega arith),
              λ e. absurd (omega arith),
            ),
          ),
    )

  not_same :
      (t : Text) (n : Option ℕ)
      → ipv4_to_int (dotted a b c d) ≡ some value
      → ipv4_to_int t ≡ n
      → n ≢ some value
      → text_eq t (dotted a b c d) ≡ false
  not_same t n r e k = elim (Bool-cases (text_eq t (dotted a b c d))) [
    | inr differs ↦ differs
    | inl same ↦ absurd (k (sym e ∙ (ap ipv4_to_int (text_eq_sound t (dotted a b c d) same) ∙ r)))
  ]

  not_metadata :
      ipv4_to_int (dotted a b c d) ≡ some value
      → IsGlobal
      → b < 256
      → c < 256
      → d < 256
      → includes metadata_addresses (dotted a b c d) ≡ false
  unfolding ipv4_to_int split_on value_from
  not_metadata r g hb hc hd = ground (
    arith,
    not_same (codes "169.254.169.254") (some 2852039166) r refl (λ e. ground arith),
    not_same (codes "169.254.170.2") (some 2852039170) r refl (λ e. ground arith),
    not_same (codes "100.100.100.200") (some 1684301000) r refl (λ e. ground arith),
    not_same (codes "fd00:ec2::254") none r refl (λ e. cc),
  )

  -- An IPv4 address written as four octets is classified public exactly if it lies outside every
  -- range that is not globally reachable, told by its octets.
  pub classify_ipv4_iff :
      a < 256
      → b < 256
      → c < 256
      → d < 256
      → (classify_ipv4 (dotted a b c d) ≡ public_address) ↔ IsGlobal
  unfolding classify_ipv4
  classify_ipv4_iff ha hb hc hd =
      let r = ipv4_to_int-dotted a b c d ha hb hc hd in
      let same = IsGlobal_iff hb hc hd ha in
      (
        λ h. elim (Bool-cases (includes metadata_addresses (dotted a b c d))) [
          | inl metadata ↦ absurd (ground arith)
          | inr other ↦ same.0 (ground arith)
        ],
        λ g.
            let value_public = same.1 g in
            let other = not_metadata r g hb hc hd in rw (other, r, classify_ipv4) value_public,
      )

-- The forms of an IPv6 address that carry an IPv4 address: mapped, NAT64 and 6to4, and the
-- deprecated compatible form of an address other than 0.0.0.0 and 0.0.0.1.
pub data Carries (high low : ℕ) : Groups → Type 0 where
  mapped :
      Carries high low
        (record { g0 = 0; g1 = 0; g2 = 0; g3 = 0; g4 = 0; g5 = 0xffff; g6 = high; g7 = low })
  nat64 :
      Carries high low
        (record { g0 = 0x64; g1 = 0xff9b; g2 = 0; g3 = 0; g4 = 0; g5 = 0; g6 = high; g7 = low })
  six_to_four :
      (h3 h4 h5 h6 h7 : ℕ)
      → Carries high low
          (record { g0 = 0x2002; g1 = high; g2 = low; g3 = h3; g4 = h4; g5 = h5; g6 = h6; g7 = h7 })
  compatible :
      1 < high * 65536 + low
      → Carries high low
          (record { g0 = 0; g1 = 0; g2 = 0; g3 = 0; g4 = 0; g5 = 0; g6 = high; g7 = low })

carried :
    (high low : ℕ) (g : Groups)
    → Carries high low g
    → classify_groups g ≡ classify_ipv4 (embedded_ipv4 high low)
unfolding classify_groups
carried high low g mapped = refl
carried high low g nat64 = refl
carried high low g (six_to_four h3 h4 h5 h6 h7) = refl
carried high low g (compatible h) = ground arith

-- An IPv6 address that carries an IPv4 address is public exactly if the octets of that address are
-- globally reachable, in whichever of the four forms it is carried.
pub classify_groups-carried_iff :
    (high low : ℕ) (g : Groups)
    → high < 65536
    → low < 65536
    → Carries high low g
    → (classify_groups g ≡ public_address)
      ↔ IsGlobal (high / 256) (high % 256) (low / 256) (low % 256)
unfolding embedded_ipv4
classify_groups-carried_iff high low g hh hl k = rw (carried high low g k) (
    classify_ipv4_iff (high / 256) (high % 256) (low / 256) (low % 256) (omega arith) (omega arith)
      (omega arith) (omega arith))
