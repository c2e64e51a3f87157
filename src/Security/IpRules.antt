-- ===== src/Security/IpRules.antt =====
-- packages/security/src/ip-rules.ts: which addresses a request may not be sent to. An IPv6 address
-- is modelled from its eight groups on: the expansion of its text is left out.
pub mod Dotted
pub mod Octets
use universal_agent_protocol.Base.{
  ℕ, ◌+◌, ◌-◌, ◌*◌, ◌/◌, ◌%◌, ◌^◌, Bool, true, false, ◌&&◌, ◌||◌, List, [], ◌∷◌, ◌++◌, Option, none,
  some, Text, codes, includes, split_on, all, is_digit, length, leb, ltb, ◌==◌, decimal,
  if◌then◌else◌,
}
use universal_agent_protocol.Base.Decimal.{value_from}

pub data IpDisposition : Type 0 where
  public_address loopback private link_local cloud_metadata reserved : IpDisposition

abbrev pub metadata_addresses : List Text
metadata_addresses =
    codes "169.254.169.254"
    ∷ codes "169.254.170.2"
    ∷ codes "100.100.100.200"
    ∷ codes "fd00:ec2::254"
    ∷ []

-- `/^\d{1,3}$/u`, and at most 255
is_octet : Text → Bool
is_octet part =
    leb 1 (length part)
    && (leb (length part) 3 && (all is_digit part && leb (value_from 0 part) 255))

-- the loop over the parts
fold_octets : ℕ → List Text → Option ℕ
fold_octets value [] = some value
fold_octets value (part ∷ parts) =
    let rest = fold_octets (value * 256 + value_from 0 part) parts in
    if is_octet part then rest else none

unfoldable pub ipv4_to_int : Text → Option ℕ
unfolding is_octet fold_octets
ipv4_to_int address =
    let parts = split_on b'.' address in if length parts == 4 then fold_octets 0 parts else none

-- `(address & mask) === (base & mask)` of 32-bit values, for the mask of the leading `bits` bits
unfoldable pub in_cidr : ℕ → Text → ℕ → Bool
unfolding ipv4_to_int
in_cidr address prefix bits = elim (ipv4_to_int prefix) [
  | none ↦ false
  | some base ↦ address / 2 ^ (32 - bits) == base / 2 ^ (32 - bits)
]

unfoldable pub is_private : ℕ → Bool
is_private v =
    in_cidr v (codes "10.0.0.0") 8
    || (in_cidr v (codes "172.16.0.0") 12
        || (in_cidr v (codes "192.168.0.0") 16 || in_cidr v (codes "100.64.0.0") 10))

unfoldable pub is_reserved : ℕ → Bool
is_reserved v =
    in_cidr v (codes "0.0.0.0") 8
    || (in_cidr v (codes "192.0.0.0") 24
        || (in_cidr v (codes "192.0.2.0") 24
            || (in_cidr v (codes "192.88.99.0") 24
                || (in_cidr v (codes "198.18.0.0") 15
                    || (in_cidr v (codes "198.51.100.0") 24
                        || (in_cidr v (codes "203.0.113.0") 24
                            || (in_cidr v (codes "224.0.0.0") 4
                                || in_cidr v (codes "240.0.0.0") 4)))))))

unfoldable pub classify_value : ℕ → IpDisposition
classify_value v =
    if in_cidr v (codes "127.0.0.0") 8
    then loopback
    else if in_cidr v (codes "169.254.0.0") 16
    then link_local
    else if is_private v
    then private
    else if is_reserved v
    then reserved
    else public_address

unfoldable pub classify_ipv4 : Text → IpDisposition
classify_ipv4 address =
    if includes metadata_addresses address
    then cloud_metadata
    else elim (ipv4_to_int address) [ none ↦ reserved | some v ↦ classify_value v ]

-- the dotted form of four octets
unfoldable pub dotted : ℕ → ℕ → ℕ → ℕ → Text
dotted a b c d = decimal a ++ b'.' ∷ (decimal b ++ b'.' ∷ (decimal c ++ b'.' ∷ decimal d))

-- `embeddedIpv4` of the two groups
unfoldable pub embedded_ipv4 : ℕ → ℕ → Text
embedded_ipv4 high low = dotted (high / 256) (high % 256) (low / 256) (low % 256)

-- The eight groups of an expanded address.
pub record Groups : Type 0 where
  pub g0 : ℕ
  pub g1 : ℕ
  pub g2 : ℕ
  pub g3 : ℕ
  pub g4 : ℕ
  pub g5 : ℕ
  pub g6 : ℕ
  pub g7 : ℕ

-- the ranges of the last two blocks of `classifyIpv6`; a mask of leading bits is a division
unfoldable pub classify_range : Groups → IpDisposition
classify_range g =
    if g.g0 / 512 == 0x7e
    then private
    else if g.g0 / 64 == 0x3fa
    then link_local
    else if g.g0 / 64 == 0x3fb
    then private
    else if g.g0 / 256 == 0xff
    then reserved
    else if g.g0 == 0x0100 && (g.g1 == 0 && (g.g2 == 0 && g.g3 == 0))
        || (g.g0 == 0x2001 && g.g1 == 0
            || (g.g0 == 0x2001 && g.g1 / 16 == 1
                || (g.g0 == 0x2001 && g.g1 / 16 == 2
                    || (g.g0 == 0x2001 && g.g1 == 0x0db8
                        || (g.g0 / 16 == 0x3ff || g.g0 == 0x5f00)))))
    then reserved
    else public_address

zero_through_5 : Groups → Bool
zero_through_5 g = g.g0 == 0 && (g.g1 == 0 && (g.g2 == 0 && (g.g3 == 0 && g.g4 == 0)))

-- `classifyIpv6` of a text that is no metadata address and expands to these groups
unfoldable pub classify_groups : Groups → IpDisposition
unfolding zero_through_5
classify_groups g =
    if zero_through_5 g && g.g5 == 0xffff
    then classify_ipv4 (embedded_ipv4 g.g6 g.g7)
    else if g.g0 == 0x64
        && (g.g1 == 0xff9b && (g.g2 == 0 && (g.g3 == 0 && (g.g4 == 0 && g.g5 == 0))))
    then classify_ipv4 (embedded_ipv4 g.g6 g.g7)
    else if g.g0 == 0x2002
    then classify_ipv4 (embedded_ipv4 g.g1 g.g2)
    else if zero_through_5 g && g.g5 == 0
    then (if g.g6 == 0 && g.g7 == 1
        then loopback
        else if g.g6 == 0 && g.g7 == 0
        then reserved
        else classify_ipv4 (embedded_ipv4 g.g6 g.g7))
    else classify_range g
