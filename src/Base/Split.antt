-- ===== src/Base/Split.antt =====
-- Splitting at a dot, behind a run of digits.
use mathlib.Core.Path.{◌≡◌, sym, ap}
use mathlib.Core.List.{[], ◌∷◌, ◌++◌, append-nil, append_assoc}
use native.Mathlib.Omega.{arith}
use universal_agent_protocol.Base.Lists.{All}
use universal_agent_protocol.Base.Strings.{Text, split_from, split_on}
use universal_agent_protocol.Base.Decimal.{IsDigit}

split_from-append :
    (cur s t : Text)
    → All IsDigit s
    → split_from cur b'.' (s ++ b'.' ∷ t) ≡ (cur ++ s) ∷ split_from [] b'.' t
unfolding split_from
split_from-append cur [] t h = ap (λ x. x ∷ split_from [] b'.' t) (sym (append-nil cur))
split_from-append cur (c ∷ s) t ((lo, hi), h) =
    ground (arith, split_from-append (cur ++ c ∷ []) s t h, append_assoc cur (c ∷ []) s)

split_from-last : (cur s : Text) → All IsDigit s → split_from cur b'.' s ≡ (cur ++ s) ∷ []
unfolding split_from
split_from-last cur [] h = ap (λ x. x ∷ []) (sym (append-nil cur))
split_from-last cur (c ∷ s) ((lo, hi), h) =
    ground (arith, split_from-last (cur ++ c ∷ []) s h, append_assoc cur (c ∷ []) s)

pub split_on-append :
    (s t : Text) → All IsDigit s → split_on b'.' (s ++ b'.' ∷ t) ≡ s ∷ split_on b'.' t
unfolding split_on
split_on-append s t h = split_from-append [] s t h

pub split_on-last : (s : Text) → All IsDigit s → split_on b'.' s ≡ s ∷ []
unfolding split_on
split_on-last s h = split_from-last [] s h
