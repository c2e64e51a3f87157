-- ===== src/Base/Fresh.antt =====
-- Counted candidates: the number behind the last underscore of a name, and the pigeonhole that
-- ends a search for a name that is not taken.
use Prim.Native.Nat.{ℕ, zero, suc, ◌+◌, ◌≤◌, ◌<◌}
use mathlib.Core.Path.{◌≡◌, sym, ◌∙◌, ap, subst}
use mathlib.Core.Logic.{◌≢◌}
use mathlib.Core.Bool.{true}
use mathlib.Core.List.{List, [], ◌∷◌, ◌++◌, append-nil, append_assoc}
use native.Mathlib.Nat.{add-zero}
use native.Mathlib.Omega.{arith}
use universal_agent_protocol.Base.Tests.{if◌then◌else◌, ◌==◌}
use universal_agent_protocol.Base.Lists.{length, All}
use universal_agent_protocol.Base.Strings.{Text, text_eq, text_eq_iff, includes}
use universal_agent_protocol.Base.Decimal.{decimal, IsDigit, decimal-IsDigit, decimal-injective}

last_part : Text → Text → Text
last_part acc [] = acc
last_part acc (c ∷ s) = last_part (if c == b'_' then [] else acc ++ c ∷ []) s

last_part_digits : (acc s : Text) → All IsDigit s → last_part acc s ≡ acc ++ s
unfolding last_part
last_part_digits acc [] h = sym (append-nil acc)
last_part_digits acc (c ∷ s) ((lo, hi), h) =
    ground (arith, last_part_digits (acc ++ c ∷ []) s h, append_assoc acc (c ∷ []) s)

last_part-append : (acc s t : Text) → All IsDigit t → last_part acc (s ++ b'_' ∷ t) ≡ t
unfolding last_part
last_part-append acc [] t h = last_part_digits [] t h
last_part-append acc (c ∷ s) t h = last_part-append (if c == b'_' then [] else acc ++ c ∷ []) s t h

-- Names that end in an underscore and a number are told apart by the number.
pub numbered_injective :
    (s t : Text) (m n : ℕ) → s ++ b'_' ∷ decimal m ≡ t ++ b'_' ∷ decimal n → m ≡ n
numbered_injective s t m n e = decimal-injective m n (
    sym (last_part-append [] s (decimal m) (decimal-IsDigit m))
    ∙ (ap (last_part []) e ∙ last_part-append [] t (decimal n) (decimal-IsDigit n)))

remove_one : Text → List Text → List Text
remove_one x [] = []
remove_one x (y ∷ ys) = if text_eq y x then ys else y ∷ remove_one x ys

length-remove_one :
    (x : Text) (ys : List Text) → includes ys x ≡ true → length (remove_one x ys) + 1 ≡ length ys
unfolding remove_one
length-remove_one x [] h = cc
length-remove_one x (y ∷ ys) h = ground (arith, length-remove_one x ys)

includes-remove_one :
    (x z : Text) (ys : List Text)
    → x ≢ z
    → includes ys z ≡ true
    → includes (remove_one x ys) z ≡ true
unfolding remove_one
includes-remove_one x z [] n h = h
includes-remove_one x z (y ∷ ys) n h =
    ground (arith, text_eq_iff y x, text_eq_iff y z, includes-remove_one x z ys n)

-- A list cannot hold more distinct candidates than its length.
pub pigeonhole :
    (f : ℕ → Text) (k a : ℕ) (taken : List Text)
    → ((i j : ℕ) → f i ≡ f j → i ≡ j)
    → ((i : ℕ) → i < k → includes taken (f (a + i)) ≡ true)
    → k ≤ length taken
pigeonhole f zero a taken inj h = omega arith
pigeonhole f (suc k) a taken inj h =
    let here : includes taken (f a) ≡ true =
      subst (λ x. includes taken (f x) ≡ true) (add-zero a) (h 0 (omega arith)) in
    let there : (i : ℕ) → i < k → includes taken (f (suc a + i)) ≡ true = λ i hi.
      let e : a + suc i ≡ suc a + i = omega arith in
      subst (λ x. includes taken (f x) ≡ true) e (h (suc i) (omega arith)) in
    let ih = pigeonhole f k (suc a) (remove_one (f a) taken) inj (λ i hi.
      includes-remove_one (f a) (f (suc a + i)) taken
        (λ e. absurd (omega (arith, inj a (suc a + i) e))) (there i hi)) in
    omega (arith, ih, length-remove_one (f a) taken here)
