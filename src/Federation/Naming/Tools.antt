-- ===== src/Federation/Naming/Tools.antt =====
-- The search for a free tool name ends, and its result is free and short.
use native.Mathlib.Nat.{add-zero}
use universal_agent_protocol.Base.{
  ℕ, zero, suc, ◌+◌, ◌-◌, ◌^◌, ◌≡◌, sym, ◌∙◌, subst, ◌≤◌, ◌<◌, ◌⊎◌, inl, inr, true, false, List,
  ◌∷◌, ◌++◌, append_assoc, some, Text, arith, includes, length, length-append, length-take, take,
  decimal, length-decimal, Bool-cases, ℕ-cases,
}
use universal_agent_protocol.Base.Fresh.{numbered_injective, pigeonhole}
use universal_agent_protocol.Federation.Naming.{
  max_tool_name, tool_suffix, tool_candidate, tool_loop, tool_base, normalize_tool_segment,
  gateway_tool_name,
}

module _ (digest : Text → Text) (base name : Text) where
  suffix_short : (n : ℕ) → n < 10 ^ 21 → length (tool_suffix digest name n) ≤ 31
  unfolding tool_suffix
  suffix_short zero h = omega (arith, length-take 8 (digest name))
  suffix_short (suc n) h = omega (
    arith,
    length-take 8 (digest name),
    length-append (take 8 (digest name)) (b'_' ∷ decimal (suc n)),
    length-decimal 20 (suc n) h,
  )

  candidate_short : (n : ℕ) → n < 10 ^ 21 → length (tool_candidate digest base name n) ≤ 128
  unfolding tool_candidate
  candidate_short n h = omega (
    arith,
    suffix_short n h,
    length-take (max_tool_name - length (tool_suffix digest name n)) base,
    length-append (take (max_tool_name - length (tool_suffix digest name n)) base)
        (tool_suffix digest name n),
  )

  candidate_injective :
      (i j : ℕ)
      → tool_candidate digest base name (suc i) ≡ tool_candidate digest base name (suc j)
      → i ≡ j
  unfolding tool_candidate tool_suffix
  candidate_injective i j e =
      let d = b'_' ∷ take 8 (digest name) in
      let s = take (max_tool_name - length (tool_suffix digest name (suc i))) base in
      let t = take (max_tool_name - length (tool_suffix digest name (suc j))) base in
      let same =
        append_assoc s d (b'_' ∷ decimal (suc i))
        ∙ (e ∙ sym (append_assoc t d (b'_' ∷ decimal (suc j)))) in
      omega (arith, numbered_injective (s ++ d) (t ++ d) (suc i) (suc j) same)

  module _ (taken : List Text) where
    -- A free name of at most 128 units.
    abbrev IsFree : Text → Type 0
    IsFree r = (includes taken r ≡ false) × (length r ≤ 128)

    tool_loop_ends :
        (fuel a : ℕ)
        → a + fuel ≤ 10 ^ 21
        → ((r : Text) × (tool_loop digest base name taken fuel a ≡ some r) × IsFree r)
          ⊎ ((i : ℕ) → i < fuel → includes taken (tool_candidate digest base name (a + i)) ≡ true)
    unfolding tool_loop
    tool_loop_ends zero a h = inr (λ i p. absurd (omega arith))
    tool_loop_ends (suc fuel) a h =
        elim (Bool-cases (includes taken (tool_candidate digest base name a))) [
          | inr free ↦
              inl (
                tool_candidate digest base name a,
                rw free,
                (free, candidate_short a (omega arith)),
              )
          | inl used ↦ elim (tool_loop_ends fuel (a + 1) (omega arith)) [
            | inl (r, e, free) ↦ inl (r, rw used e, free)
            | inr all_used ↦ inr (λ i p. elim (ℕ-cases i) [
              | inl first ↦ rw (first, add-zero) used
              | inr (j, next) ↦
                  let e : a + 1 + j ≡ a + i = omega arith in
                  subst (λ x. includes taken (tool_candidate digest base name x) ≡ true) e
                    (all_used j (omega arith))
            ])
          ]
        ]

    -- The loop cannot find every candidate taken.
    tool_loop_found :
        (fuel : ℕ)
        → length taken + 2 ≤ fuel
        → fuel ≤ 10 ^ 21
        → (r : Text) × (tool_loop digest base name taken fuel 0 ≡ some r) × IsFree r
    tool_loop_found fuel h k = elim (tool_loop_ends fuel 0 (omega arith)) [
      | inl found ↦ found
      | inr all_used ↦ absurd (
          omega (
            arith,
            pigeonhole (λ i. tool_candidate digest base name (suc i)) (length taken + 1) 0 taken
                candidate_injective
                (λ i p.
                  let e : 0 + suc i ≡ suc (0 + i) = omega arith in
                  subst (λ x. includes taken (tool_candidate digest base name x) ≡ true) e
                    (all_used (suc i) (omega arith))),
          ))
    ]

-- The loop that looks for a free gateway name ends within two rounds more than there are names
-- taken, as long as those are fewer than 10 ^ 20, and the name that it finds is not taken and has
-- at most 128 code units.
pub gateway_tool_name_total :
    (digest : Text → Text) (alias name : Text) (taken : List Text)
    → length taken < 10 ^ 20
    → (r : Text) × (gateway_tool_name digest (length taken + 2) alias name taken ≡ some r)
      × (includes taken r ≡ false)
      × (length r ≤ 128)
unfolding gateway_tool_name tool_base
gateway_tool_name_total digest alias name taken h =
    elim (Bool-cases (includes taken (tool_base alias name))) [
      | inr free ↦ (
        tool_base alias name,
        rw free,
        free,
        omega (arith, length-take 128 (alias ++ b'.' ∷ normalize_tool_segment name)),
      )
      | inl used ↦
          let (r, e, free) =
            tool_loop_found digest (tool_base alias name) name taken (length taken + 2)
              (omega arith) (omega arith) in
          (r, rw used e, free.0, free.1)
    ]
