-- ===== src/OAuth/WwwAuthenticate/Fuel.antt =====
-- The loop over the matches ends within as many rounds as the header has characters.
use universal_agent_protocol.Base.{
  ℕ, zero, suc, ◌≤◌, ◌<◌, ◌≡◌, refl, sym, subst, inl, inr, Bool, Option, none, some, [], ◌∷◌, Text,
  arith, Bool-cases, Option-cases, length, trim_start, ◌==◌, ap,
}
use universal_agent_protocol.OAuth.WwwAuthenticate.{
  is_space, is_token, is_bare, take_while, ends_line, in_front, quoted, unless_empty, bare,
  after_equals, with_value, is_space, value, assigned, Token, named, next_token, tokens,
}

length-trim_start : (p : ℕ → Bool) (s : Text) → length (trim_start p s) ≤ length s
unfolding trim_start
length-trim_start p [] = omega arith
length-trim_start p (c ∷ s) = ground (arith, length-trim_start p s)

-- What is left of a text is no longer than the text.
abbrev Shortens : Text → Option (Text × Text) → Type 0
Shortens s none = Unit
Shortens s (some (v, rest)) = length rest ≤ length s

in_front-Shortens :
    (pre : Text) (n : ℕ) (s : Text) (r : Option (Text × Text))
    → Shortens s r
    → (c : ℕ) → Shortens (c ∷ s) (in_front pre r)
unfolding in_front
in_front-Shortens pre n s none h c = tt
in_front-Shortens pre n s (some (v, rest)) h c = omega arith

weaken-Shortens :
    (s t : Text) (r : Option (Text × Text)) → length s ≤ length t → Shortens s r → Shortens t r
weaken-Shortens s t none l h = tt
weaken-Shortens s t (some (v, rest)) l h = omega arith

quoted-Shortens : (s : Text) → Shortens s (quoted s)
unfolding quoted
quoted-Shortens [] = tt
quoted-Shortens (c ∷ []) = elim (Bool-cases (c == b'"')) [
  | inl e ↦ rw e (omega arith)
  | inr e ↦ rw e tt
]
quoted-Shortens (c ∷ d ∷ s) = elim (Bool-cases (c == b'"')) [
  | inl e ↦ rw e (omega arith)
  | inr e ↦ elim (Bool-cases (c == b'\\')) [
    | inr f ↦
        rw (e, f)
          (in_front-Shortens (c ∷ []) 0 (d ∷ s) (quoted (d ∷ s)) (quoted-Shortens (d ∷ s)) c)
    | inl f ↦ elim (Bool-cases (ends_line d)) [
      | inl g ↦ rw (e, f, g) tt
      | inr g ↦
          rw (e, f, g)
            (weaken-Shortens (d ∷ s) (c ∷ d ∷ s) _ (omega arith)
              (in_front-Shortens (c ∷ d ∷ []) 0 s (quoted s) (quoted-Shortens s) d))
    ]
  ]
]

unless_empty-Shortens :
    (s v rest : Text) → length rest ≤ length s → Shortens s (unless_empty v rest)
unfolding unless_empty
unless_empty-Shortens s [] rest h = tt
unless_empty-Shortens s (c ∷ v) rest h = h

bare-Shortens : (s : Text) → Shortens s (bare s)
unfolding bare
bare-Shortens s = unless_empty-Shortens s _ _ (length-trim_start is_bare s)

value-Shortens : (s : Text) → Shortens s (value s)
unfolding value
value-Shortens [] = tt
value-Shortens (c ∷ s) = elim (Bool-cases (c == b'"')) [
  | inr e ↦ rw e (bare-Shortens (c ∷ s))
  | inl e ↦ elim (Option-cases (quoted s)) [
    | inl open_ended ↦ rw (e, open_ended) (bare-Shortens (c ∷ s))
    | inr ((q, r), closed) ↦
        let k = subst (Shortens s) closed (quoted-Shortens s) in rw (e, closed) (omega arith)
  ]
]

after_equals-Shortens : (s : Text) → Shortens s (after_equals s)
unfolding after_equals
after_equals-Shortens [] = tt
after_equals-Shortens (c ∷ s) = elim (Bool-cases (c == b'=')) [
  | inr e ↦ rw e tt
  | inl e ↦
      let t = trim_start is_space s in
      let k = length-trim_start is_space s in
      rw e (weaken-Shortens t (c ∷ s) (value t) (omega arith) (value-Shortens t))
]

assigned-Shortens : (s : Text) → Shortens s (assigned s)
unfolding assigned
assigned-Shortens s =
    let t = trim_start is_space s in
    weaken-Shortens t s (after_equals t) (length-trim_start is_space s) (after_equals-Shortens t)

with_value-rest :
    (name rest : Text) (r : Option (Text × Text))
    → Shortens rest r
    → length (with_value name rest r).1 ≤ length rest
unfolding with_value
with_value-rest name rest none h = omega arith
with_value-rest name rest (some (v, rest')) h = h

-- A match takes a character at least.
abbrev Consumes : Text → Option (Token × Text) → Type 0
Consumes s none = Unit
Consumes s (some (t, rest)) = length rest < length s

longer-Consumes : (s : Text) (c : ℕ) (r : Option (Token × Text)) → Consumes s r → Consumes (c ∷ s) r
longer-Consumes s c none h = tt
longer-Consumes s c (some (t, rest)) h = omega arith

next_token-Consumes : (s : Text) → Consumes s (next_token s)
unfolding next_token named
next_token-Consumes [] = tt
next_token-Consumes (c ∷ s) = elim (Bool-cases (is_token c)) [
  | inl e ↦
      let rest = trim_start is_token s in
      let k =
        with_value-rest (c ∷ take_while is_token s) rest (assigned rest) (assigned-Shortens rest) in
      let l = length-trim_start is_token s in rw e (omega arith)
  | inr e ↦ rw e (longer-Consumes s c (next_token s) (next_token-Consumes s))
]

no_tokens : (n : ℕ) → tokens n [] ≡ []
unfolding tokens next_token
no_tokens zero = refl
no_tokens (suc n) = refl

-- More rounds than the header has characters change nothing: the loop over the matches ends within
-- as many rounds as there are characters.
pub tokens_enough : (m n : ℕ) (s : Text) → length s ≤ m → length s ≤ n → tokens m s ≡ tokens n s
unfolding tokens
tokens_enough zero zero s h k = refl
tokens_enough zero (suc n) [] h k = sym (no_tokens (suc n))
tokens_enough zero (suc n) (c ∷ s) h k = absurd (omega arith)
tokens_enough (suc m) zero [] h k = no_tokens (suc m)
tokens_enough (suc m) zero (c ∷ s) h k = absurd (omega arith)
tokens_enough (suc m) (suc n) s h k = elim (Option-cases (next_token s)) [
  | inl stop ↦ rw (stop, tokens) refl
  | inr ((t, rest), more) ↦
      let l : length rest < length s = subst (Consumes s) more (next_token-Consumes s) in
      rw (more, tokens) (ap (◌∷◌ t) (tokens_enough m n rest (omega arith) (omega arith)))
]
