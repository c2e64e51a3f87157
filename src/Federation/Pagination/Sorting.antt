-- ===== src/Federation/Pagination/Sorting.antt =====
-- The order of the pages: items with different keys are sorted strictly.
use universal_agent_protocol.Base.{
  ◌≡◌, refl, ◌≢◌, true, false, List, [], ◌∷◌, Text, arith, Bool-cases, inl, inr, ap, All,
}
use universal_agent_protocol.Federation.Pagination.{text_lt, insert, sort}

pub text_lt_irrefl : (s : Text) → text_lt s s ≡ false
unfolding text_lt
text_lt_irrefl [] = refl
text_lt_irrefl (a ∷ s) = ground (arith, text_lt_irrefl s)

pub text_lt_trans : (s t u : Text) → text_lt s t ≡ true → text_lt t u ≡ true → text_lt s u ≡ true
unfolding text_lt
text_lt_trans [] [] u h k = cc
text_lt_trans [] (b ∷ t) [] h k = cc
text_lt_trans [] (b ∷ t) (c ∷ u) h k = refl
text_lt_trans (a ∷ s) [] u h k = cc
text_lt_trans (a ∷ s) (b ∷ t) [] h k = cc
text_lt_trans (a ∷ s) (b ∷ t) (c ∷ u) h k = ground (arith, text_lt_trans s t u)

pub text_lt_asym : (s t : Text) → text_lt s t ≡ true → text_lt t s ≡ false
unfolding text_lt
text_lt_asym [] [] h = refl
text_lt_asym [] (b ∷ t) h = refl
text_lt_asym (a ∷ s) [] h = cc
text_lt_asym (a ∷ s) (b ∷ t) h = ground (arith, text_lt_asym s t)

pub text_lt_total : (s t : Text) → text_lt s t ≡ false → t ≢ s → text_lt t s ≡ true
unfolding text_lt
text_lt_total [] [] h n = absurd (n refl)
text_lt_total [] (b ∷ t) h n = cc
text_lt_total (a ∷ s) [] h n = refl
text_lt_total (a ∷ s) (b ∷ t) h n = ground (arith, text_lt_total s t, λ (e : t ≡ s). ap (◌∷◌ b) e)

module _ {T : Type 0} (key_of : T → Text) where
  -- The keys rise strictly.
  abbrev pub Rises : List T → Type 0
  Rises [] = Unit
  Rises (x ∷ xs) = All (λ y. text_lt (key_of x) (key_of y) ≡ true) xs × Rises xs

  -- No key stands twice.
  abbrev pub HasDistinctKeys : List T → Type 0
  HasDistinctKeys [] = Unit
  HasDistinctKeys (x ∷ xs) = All (λ y. key_of x ≢ key_of y) xs × HasDistinctKeys xs

  All-insert : (P : T → Type 0) (x : T) (ys : List T) → P x → All P ys → All P (insert key_of x ys)
  unfolding insert
  All-insert P x [] p ps = (p, tt)
  All-insert P x (y ∷ ys) p (q, qs) = elim (Bool-cases (text_lt (key_of y) (key_of x))) [
    | inl below ↦ rw below (q, All-insert P x ys p qs)
    | inr above ↦ rw above (p, (q, qs))
  ]

  pub All-sort : (P : T → Type 0) (xs : List T) → All P xs → All P (sort key_of xs)
  unfolding sort
  All-sort P [] ps = tt
  All-sort P (x ∷ xs) (p, ps) = All-insert P x (sort key_of xs) p (All-sort P xs ps)

  All-weaken :
      (x y : T) (ys : List T)
      → text_lt (key_of x) (key_of y) ≡ true
      → All (λ z. text_lt (key_of y) (key_of z) ≡ true) ys
      → All (λ z. text_lt (key_of x) (key_of z) ≡ true) ys
  All-weaken x y [] h ps = tt
  All-weaken x y (z ∷ zs) h (p, ps) =
      (text_lt_trans (key_of x) (key_of y) (key_of z) h p, All-weaken x y zs h ps)

  insert-Rises :
      (x : T) (ys : List T)
      → All (λ y. key_of x ≢ key_of y) ys
      → Rises ys
      → Rises (insert key_of x ys)
  unfolding insert
  insert-Rises x [] n r = (tt, tt)
  insert-Rises x (y ∷ ys) (n, ns) (p, r) = elim (Bool-cases (text_lt (key_of y) (key_of x))) [
    | inl below ↦ rw below (
      All-insert (λ z. text_lt (key_of y) (key_of z) ≡ true) x ys below p,
      insert-Rises x ys ns r,
    )
    | inr above ↦
        let h = text_lt_total (key_of y) (key_of x) above n in
        rw above ((h, All-weaken x y ys h p), (p, r))
  ]

  pub sort-Rises : (xs : List T) → HasDistinctKeys xs → Rises (sort key_of xs)
  unfolding sort
  sort-Rises [] d = tt
  sort-Rises (x ∷ xs) (n, d) =
      insert-Rises x (sort key_of xs) (All-sort (λ y. key_of x ≢ key_of y) xs n) (sort-Rises xs d)
