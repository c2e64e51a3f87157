-- ===== src/Base/Trim.antt =====
-- What the classes of code units at the ends of a trimmed text are.
use Prim.Native.Nat.{ℕ, zero, suc, ◌≤◌}
use mathlib.Core.Path.{◌≡◌, refl}
use mathlib.Core.Logic.{◌⊎◌, inl, inr}
use mathlib.Core.Bool.{Bool, true, false}
use mathlib.Core.List.{[], ◌∷◌, ◌++◌}
use mathlib.Core.Option.{some}
use native.Mathlib.Omega.{arith}
use universal_agent_protocol.Base.Tests.{Bool-cases}
use universal_agent_protocol.Base.Lists.{length, all, take}
use universal_agent_protocol.Base.Strings.{Text, last_code, trim_start, trim_end, keep_last}

pub last_code-append : (s : Text) (c : ℕ) (t : Text) → last_code (s ++ c ∷ t) ≡ last_code (c ∷ t)
unfolding last_code
last_code-append [] c t = refl
last_code-append (a ∷ []) c t = refl
last_code-append (a ∷ b ∷ s) c t = last_code-append (b ∷ s) c t

pub all-append :
    (q : ℕ → Bool) (s t : Text) → all q s ≡ true → all q t ≡ true → all q (s ++ t) ≡ true
all-append q [] t h k = k
all-append q (c ∷ s) t h k = ground (arith, all-append q s t)

pub all-take : (q : ℕ → Bool) (n : ℕ) (s : Text) → all q s ≡ true → all q (take n s) ≡ true
all-take q zero s h = refl
all-take q (suc n) [] h = refl
all-take q (suc n) (c ∷ s) h = ground (arith, all-take q n s)

pub all-weaken :
    (p q : ℕ → Bool) (s : Text)
    → ((c : ℕ) → p c ≡ true → q c ≡ true)
    → all p s ≡ true
    → all q s ≡ true
all-weaken p q [] w h = refl
all-weaken p q (c ∷ s) w h = ground (arith, w c, all-weaken p q s w)

module _ (p : ℕ → Bool) where
  pub all-trim_start : (q : ℕ → Bool) (s : Text) → all q s ≡ true → all q (trim_start p s) ≡ true
  unfolding trim_start
  all-trim_start q [] h = refl
  all-trim_start q (c ∷ s) h = ground (arith, all-trim_start q s)

  all-keep_last :
      (q : ℕ → Bool) (c : ℕ) (t : Text)
      → q c ≡ true
      → all q t ≡ true
      → all q (keep_last p c t) ≡ true
  unfolding keep_last
  all-keep_last q c [] h k = ground arith
  all-keep_last q c (d ∷ t) h k = ground arith

  pub all-trim_end : (q : ℕ → Bool) (s : Text) → all q s ≡ true → all q (trim_end p s) ≡ true
  unfolding trim_end
  all-trim_end q [] h = refl
  all-trim_end q (c ∷ s) h =
      all-keep_last q c (trim_end p s) (ground arith) (all-trim_end q s (ground arith))

  length-keep_last : (c : ℕ) (t : Text) → length (keep_last p c t) ≤ suc (length t)
  unfolding keep_last
  length-keep_last c [] = ground arith
  length-keep_last c (d ∷ t) = omega arith

  pub length-trim_end : (s : Text) → length (trim_end p s) ≤ length s
  unfolding trim_end
  length-trim_end [] = omega arith
  length-trim_end (c ∷ s) = omega (arith, length-keep_last c (trim_end p s), length-trim_end s)

  -- Empty, or begun by a unit outside the class.
  abbrev pub Begins : Text → Type 0
  Begins [] = Unit
  Begins (c ∷ s) = p c ≡ false

  pub trim_start-Begins : (s : Text) → Begins (trim_start p s)
  unfolding trim_start
  trim_start-Begins [] = tt
  trim_start-Begins (c ∷ s) = elim (Bool-cases (p c)) [
    | inl off ↦ rw off (trim_start-Begins s)
    | inr on ↦ rw on on
  ]

  pub take-Begins : (n : ℕ) (s : Text) → Begins s → Begins (take n s)
  take-Begins zero s h = tt
  take-Begins (suc n) [] h = tt
  take-Begins (suc n) (c ∷ s) h = h

  keep_last-Begins : (c : ℕ) (t : Text) → p c ≡ false → Begins (keep_last p c t)
  unfolding keep_last
  keep_last-Begins c [] h = rw h h
  keep_last-Begins c (d ∷ t) h = h

  pub trim_end-Begins : (s : Text) → Begins s → Begins (trim_end p s)
  unfolding trim_end
  trim_end-Begins [] h = tt
  trim_end-Begins (c ∷ s) h = keep_last-Begins c (trim_end p s) h

  -- Empty, or ended by a unit outside the class.
  abbrev pub Ends : Text → Type 0
  Ends s = (s ≡ []) ⊎ ((c : ℕ) × (last_code s ≡ some c) × (p c ≡ false))

  keep_last-Ends : (c : ℕ) (t : Text) → Ends t → Ends (keep_last p c t)
  unfolding keep_last last_code
  keep_last-Ends c [] h = elim (Bool-cases (p c)) [
    | inl off ↦ rw off (inl refl)
    | inr on ↦ rw on (inr (c, refl, on))
  ]
  keep_last-Ends c (d ∷ t) (inl e) = cc
  keep_last-Ends c (d ∷ t) (inr h) = inr h

  pub trim_end-Ends : (s : Text) → Ends (trim_end p s)
  unfolding trim_end
  trim_end-Ends [] = inl refl
  trim_end-Ends (c ∷ s) = keep_last-Ends c (trim_end p s) (trim_end-Ends s)
