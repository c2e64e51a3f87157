-- ===== src/Security/IpRules/Dotted.antt =====
-- The dotted form of four octets is read back as the number that they spell.
use universal_agent_protocol.Base.{
  ℕ, ◌+◌, ◌*◌, ◌≡◌, refl, ◌<◌, true, [], ◌∷◌, ◌++◌, some, Text, arith, all, is_digit, decimal, All,
  IsDigit, decimal-IsDigit, length-decimal, length-decimal-pos,
}
use universal_agent_protocol.Base.Decimal.{value-decimal}
use universal_agent_protocol.Base.Split.{split_on-append, split_on-last}
use universal_agent_protocol.Security.IpRules.{is_octet, fold_octets, ipv4_to_int, dotted}

all_digits : (s : Text) → All IsDigit s → all is_digit s ≡ true
all_digits [] h = refl
all_digits (c ∷ s) ((lo, hi), h) = ground (arith, all_digits s h)

decimal-is_octet : (n : ℕ) → n < 256 → is_octet (decimal n) ≡ true
unfolding is_octet
decimal-is_octet n h = ground (
  arith,
  length-decimal-pos n,
  length-decimal 2 n (omega arith),
  all_digits (decimal n) (decimal-IsDigit n),
  value-decimal n,
)

-- Four octets, written with dots, are read back.
pub ipv4_to_int-dotted :
    (a b c d : ℕ)
    → a < 256
    → b < 256
    → c < 256
    → d < 256
    → ipv4_to_int (dotted a b c d) ≡ some (((a * 256 + b) * 256 + c) * 256 + d)
unfolding ipv4_to_int dotted fold_octets
ipv4_to_int-dotted a b c d ha hb hc hd =
    let sd = split_on-last (decimal d) (decimal-IsDigit d) in
    let sc = split_on-append (decimal c) (decimal d) (decimal-IsDigit c) in
    let sb = split_on-append (decimal b) (decimal c ++ b'.' ∷ decimal d) (decimal-IsDigit b) in
    let sa =
      split_on-append (decimal a) (decimal b ++ b'.' ∷ (decimal c ++ b'.' ∷ decimal d))
        (decimal-IsDigit a) in
    rw (sa, sb, sc, sd)
      (ground (
        arith,
        decimal-is_octet a ha,
        decimal-is_octet b hb,
        decimal-is_octet c hc,
        decimal-is_octet d hd,
        value-decimal a,
        value-decimal b,
        value-decimal c,
        value-decimal d,
      ))
