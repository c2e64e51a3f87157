-- ===== src/Federation/Naming/Aliases.antt =====
-- Derived aliases are valid aliases, and are not taken.
use native.Mathlib.Nat.{add-zero}
use universal_agent_protocol.Base.{
  ℕ, zero, suc, ◌+◌, ◌-◌, ◌≡◌, refl, ◌≤◌, ◌<◌, ◌⊎◌, inl, inr, Bool, true, false, not, List, [], ◌∷◌,
  ◌++◌, Text, codes, arith, includes, length, length-append, length-take, all, take, last_code,
  trim_start, trim_end, to_lower, Bool-cases, All, IsDigit, decimal, decimal-IsDigit,
  length-decimal, length-decimal-pos, subst, ℕ-cases, max,
}
use universal_agent_protocol.Base.Trim
use universal_agent_protocol.Base.Fresh.{numbered_injective, pigeonhole}
use universal_agent_protocol.Federation.Naming.{
  max_alias, is_alias_edge, is_alias_code, edge_last, replace_runs, or_default, sanitize_alias,
  is_valid_alias, room_for, dedupe_from, dedupe_alias,
}

abbrev off_edge : ℕ → Bool
off_edge c = not (is_alias_edge c)

all-replace_runs :
    (inside : Bool) (s : Text) → all is_alias_code (replace_runs is_alias_code b'-' inside s) ≡ true
unfolding replace_runs
all-replace_runs inside [] = refl
all-replace_runs inside (c ∷ s) = ground (arith, all-replace_runs false s, all-replace_runs true s)

-- A text that begins and ends with an edge, holds alias units and fits is an alias, if not empty.
or_default-valid :
    (s : Text)
    → all is_alias_code s ≡ true
    → Trim.Begins off_edge s
    → Trim.Ends off_edge s
    → length s ≤ 40
    → is_valid_alias (or_default (codes "server") s) ≡ true
unfolding is_valid_alias or_default last_code
or_default-valid [] h b e l = refl
or_default-valid (c ∷ s) h b e l = ground arith

-- Whatever text an alias is derived from, the result matches the pattern of aliases: at most 40
-- units, lower case letters, digits, dashes and underscores, with a letter or digit at both ends.
pub sanitize_alias-IsValid : (value : Text) → is_valid_alias (sanitize_alias value) ≡ true
unfolding sanitize_alias
sanitize_alias-IsValid value =
    let cleaned = replace_runs is_alias_code b'-' false (to_lower value) in
    let started = trim_start off_edge cleaned in
    let cut = take max_alias started in
    or_default-valid (trim_end off_edge cut)
      (Trim.all-trim_end off_edge is_alias_code cut (
        Trim.all-take is_alias_code max_alias started (
          Trim.all-trim_start off_edge is_alias_code cleaned
            (all-replace_runs false (to_lower value)))))
      (Trim.trim_end-Begins off_edge cut
        (Trim.take-Begins off_edge max_alias started (Trim.trim_start-Begins off_edge cleaned)))
      (Trim.trim_end-Ends off_edge cut)
      (omega (arith, Trim.length-trim_end off_edge cut, length-take max_alias started))

-- The parts of a valid alias.
valid_all : (s : Text) → is_valid_alias s ≡ true → all is_alias_code s ≡ true
unfolding is_valid_alias
valid_all [] h = refl
valid_all (c ∷ s) h = ground arith

valid-Begins : (s : Text) → is_valid_alias s ≡ true → Trim.Begins off_edge s
unfolding is_valid_alias
valid-Begins [] h = tt
valid-Begins (c ∷ s) h = ground arith

length-or_default : (s : Text) → length (or_default (codes "server") s) ≤ max 6 (length s)
unfolding or_default
length-or_default [] = omega arith
length-or_default (c ∷ s) = omega arith

-- What `room_for` leaves: valid, and short enough for the suffix.
room_for-valid :
    (base suffix : Text)
    → is_valid_alias base ≡ true
    → (is_valid_alias (room_for base suffix) ≡ true)
      × (length suffix ≤ 34 → length (room_for base suffix) + length suffix ≤ 40)
unfolding room_for
room_for-valid base suffix h =
    let cut = take (max_alias - length suffix) base in
    (
      or_default-valid (trim_end off_edge cut)
          (Trim.all-trim_end off_edge is_alias_code cut
            (Trim.all-take is_alias_code (max_alias - length suffix) base (valid_all base h)))
          (Trim.trim_end-Begins off_edge cut
            (Trim.take-Begins off_edge (max_alias - length suffix) base (valid-Begins base h)))
          (Trim.trim_end-Ends off_edge cut)
          (omega (
            arith,
            Trim.length-trim_end off_edge cut,
            length-take (max_alias - length suffix) base,
          )),
      λ l. omega (
        arith,
        length-or_default (trim_end off_edge cut),
        Trim.length-trim_end off_edge cut,
        length-take (max_alias - length suffix) base,
      ),
    )

last_edge : (d : Text) → all is_alias_edge d ≡ true → 0 < length d → edge_last (last_code d) ≡ true
unfolding last_code
last_edge [] h p = absurd (omega arith)
last_edge (c ∷ []) h p = ground arith
last_edge (c ∷ e ∷ d) h p = last_edge (e ∷ d) (ground arith) (omega arith)

join_last :
    (s d : Text)
    → all is_alias_edge d ≡ true
    → 0 < length d
    → edge_last (last_code (s ++ b'_' ∷ d)) ≡ true
unfolding last_code
join_last s [] h p = absurd (omega arith)
join_last s (e ∷ d) h p =
    rw (Trim.last_code-append s b'_' (e ∷ d)) (last_edge (e ∷ d) h (omega arith))

-- A valid alias stays one with an underscore and edge units behind it, where they fit.
join-valid :
    (s d : Text)
    → is_valid_alias s ≡ true
    → all is_alias_edge d ≡ true
    → 0 < length d
    → length s + length (b'_' ∷ d) ≤ 40
    → is_valid_alias (s ++ b'_' ∷ d) ≡ true
unfolding is_valid_alias
join-valid [] d v h p l = cc
join-valid (c ∷ s) d v h p l =
    let tail : all is_alias_code d ≡ true =
      Trim.all-weaken is_alias_edge is_alias_code d (λ x k. ground arith) h in
    let whole : all is_alias_code (s ++ b'_' ∷ d) ≡ true =
      Trim.all-append is_alias_code s (b'_' ∷ d) (ground arith) (ground arith) in
    ground (arith, whole, join_last (c ∷ s) d h p, length-append s (b'_' ∷ d))

all_digits : (d : Text) → All IsDigit d → all is_alias_edge d ≡ true
all_digits [] h = refl
all_digits (c ∷ d) ((lo, hi), h) = ground (arith, all_digits d h)

abbrev candidate : Text → ℕ → Text
candidate base n = room_for base (b'_' ∷ decimal n) ++ b'_' ∷ decimal n

candidate_injective : (base : Text) (m n : ℕ) → candidate base m ≡ candidate base n → m ≡ n
candidate_injective base m n e =
    numbered_injective (room_for base (b'_' ∷ decimal m)) (room_for base (b'_' ∷ decimal n)) m n e

candidate-valid :
    (base : Text) (n : ℕ)
    → is_valid_alias base ≡ true
    → n < 1000
    → is_valid_alias (candidate base n) ≡ true
candidate-valid base n v h =
    let (kept, room) = room_for-valid base (b'_' ∷ decimal n) v in
    let short = length-decimal 2 n h in
    join-valid (room_for base (b'_' ∷ decimal n)) (decimal n) kept
      (all_digits (decimal n) (decimal-IsDigit n)) (length-decimal-pos n) (room (omega arith))

module _ (digest : Text → Text) (base : Text) (taken : List Text) where
  dedupe_from_fresh :
      (rounds a : ℕ)
      → (includes taken (dedupe_from digest base taken rounds a) ≡ false)
        ⊎ ((i : ℕ) → i < rounds → includes taken (candidate base (a + i)) ≡ true)
  unfolding dedupe_from
  dedupe_from_fresh zero a = inr (λ i h. absurd (omega arith))
  dedupe_from_fresh (suc rounds) a = elim (Bool-cases (includes taken (candidate base a))) [
    | inr free ↦ inl (rw free free)
    | inl used ↦ elim (dedupe_from_fresh rounds (a + 1)) [
      | inl later ↦ inl (rw used later)
      | inr all_used ↦ inr (λ i h. elim (ℕ-cases i) [
        | inl first ↦ rw (first, add-zero) used
        | inr (j, next) ↦
            let e : a + 1 + j ≡ a + i = omega arith in
            subst (λ x. includes taken (candidate base x) ≡ true) e (all_used j (omega arith))
      ])
    ]
  ]

  dedupe_from-valid :
      ((t : Text) → (all is_alias_edge (digest t) ≡ true) × (6 ≤ length (digest t)))
      → is_valid_alias base ≡ true
      → (rounds a : ℕ) → a + rounds ≤ 1000
      → is_valid_alias (dedupe_from digest base taken rounds a) ≡ true
  unfolding dedupe_from
  dedupe_from-valid hex v zero a h =
      let d = take 6 (digest base) in
      let (kept, room) = room_for-valid base (b'_' ∷ d) v in
      let long = length-take 6 (digest base) in
      let enough = (hex base).1 in
      join-valid (room_for base (b'_' ∷ d)) d kept
        (Trim.all-take is_alias_edge 6 (digest base) (hex base).0) (omega arith)
        (room (omega arith))
  dedupe_from-valid hex v (suc rounds) a h = elim (Bool-cases (includes taken (candidate base a))) [
    | inr free ↦ rw free (candidate-valid base a v (omega arith))
    | inl used ↦ rw used (dedupe_from-valid hex v rounds (a + 1) (omega arith))
  ]

  -- Where digests are at least six lower case letters or digits: from a valid base `dedupeAlias`
  -- makes a valid alias, and one that is not taken if fewer than 998 aliases are taken.
  pub dedupe_alias-IsValid :
      ((t : Text) → (all is_alias_edge (digest t) ≡ true) × (6 ≤ length (digest t)))
      → is_valid_alias base ≡ true
      → (is_valid_alias (dedupe_alias digest base taken) ≡ true)
        × (length taken < 998 → includes taken (dedupe_alias digest base taken) ≡ false)
  unfolding dedupe_alias
  dedupe_alias-IsValid hex v = elim (Bool-cases (includes taken base)) [
    | inr free ↦ rw free (v, λ _. free)
    | inl used ↦ rw used (
      dedupe_from-valid hex v 998 2 (omega arith),
      λ few. elim (dedupe_from_fresh 998 2) [
        | inl fresh ↦ fresh
        | inr all_used ↦ absurd (
            omega
              (arith, pigeonhole (candidate base) 998 2 taken (candidate_injective base) all_used))
      ],
    )
  ]
