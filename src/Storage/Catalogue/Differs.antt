-- ===== src/Storage/Catalogue/Differs.antt =====
-- What the comparison of resources and prompts before and after a synchronisation finds.
use mathlib.Core.List.{Perm}
use mathlib.Core.List.Perm
use mathlib.Core.List.{Permᴰ}
use mathlib.Core.Logic.{∥∥₁_elim}
use universal_agent_protocol.Base.{
  ◌+◌, ◌≡◌, refl, ◌↔◌, sym, ◌∙◌, false, List, [], ◌∷◌, Text, text_eq, text_eq_sound, text_eq_refl,
  text_eq_ne, arith, Bool-cases, inl, inr, ap, length, ◌==◌, subst, ==_iff,
}
use universal_agent_protocol.Federation.Pagination.{text_lt, insert, sort}
use universal_agent_protocol.Federation.Pagination.Sorting.{
  text_lt_trans, text_lt_asym, text_lt_total,
}
use universal_agent_protocol.Storage.Catalogue.{some_differ, differs}

abbrev key : Text → Text
key t = t

-- Texts neither of which is below the other are the same.
text_lt_antisym : (s t : Text) → text_lt s t ≡ false → text_lt t s ≡ false → s ≡ t
text_lt_antisym s t h k = elim (Bool-cases (text_eq s t)) [
  | inl e ↦ text_eq_sound s t e
  | inr n ↦ let above = text_lt_total s t h (λ (e : t ≡ s). text_eq_ne s t n (sym e)) in absurd (cc)
]

insert_comm :
    (x y : Text) (zs : List Text) → insert key x (insert key y zs) ≡ insert key y (insert key x zs)
unfolding insert
insert_comm x y [] = ground (arith, text_lt_asym x y, text_lt_asym y x, text_lt_antisym x y)
insert_comm x y (z ∷ zs) = ground (
  arith,
  text_lt_asym x y,
  text_lt_asym y x,
  text_lt_antisym x y,
  insert_comm x y zs,
  text_lt_trans x y z,
  text_lt_trans y x z,
  text_lt_trans z x y,
  text_lt_trans z y x,
  text_lt_antisym x z,
  text_lt_antisym y z,
  text_lt_trans x z y,
  text_lt_trans y z x,
)

-- Lists with the same entries are sorted the same.
sort-Permᴰ : {xs ys : List Text} → Permᴰ xs ys → sort key xs ≡ sort key ys
unfolding sort
sort-Permᴰ Permᴰ.nil = refl
sort-Permᴰ (Permᴰ.cons {a} {b} e d) = rw (e, sort-Permᴰ d) refl
sort-Permᴰ (Permᴰ.swap {a} {b} {a'} {b'} {l} e f) = rw (e, f) (insert_comm b' a' (sort key l))
sort-Permᴰ (Permᴰ.trans d d') = sort-Permᴰ d ∙ sort-Permᴰ d'

insert-Perm : (x : Text) (ys : List Text) → Perm (insert key x ys) (x ∷ ys)
unfolding insert
insert-Perm x [] = Perm.refl (x ∷ [])
insert-Perm x (y ∷ ys) = elim (Bool-cases (text_lt y x)) [
  | inl below ↦ rw below (Perm.trans (Perm.cons y (insert-Perm x ys)) (Perm.swap x y ys))
  | inr above ↦ rw above (Perm.refl (x ∷ y ∷ ys))
]

sort-Perm : (xs : List Text) → Perm (sort key xs) xs
unfolding sort
sort-Perm [] = Perm.refl []
sort-Perm (x ∷ xs) = Perm.trans (insert-Perm x (sort key xs)) (Perm.cons x (sort-Perm xs))

some_differ_sound :
    (xs ys : List Text) → length xs ≡ length ys → some_differ xs ys ≡ false → xs ≡ ys
unfolding some_differ
some_differ_sound [] [] l h = refl
some_differ_sound [] (y ∷ ys) l h = absurd (omega arith)
some_differ_sound (x ∷ xs) [] l h = cc
some_differ_sound (x ∷ xs) (y ∷ ys) l h = ground (arith, text_eq_sound x y, some_differ_sound xs ys)

some_differ_refl : (xs : List Text) → some_differ xs xs ≡ false
unfolding some_differ
some_differ_refl [] = refl
some_differ_refl (x ∷ xs) = ground (arith, text_eq_refl x, some_differ_refl xs)

length-insert : (x : Text) (ys : List Text) → length (insert key x ys) ≡ length ys + 1
unfolding insert
length-insert x [] = omega arith
length-insert x (y ∷ ys) = ground (arith, length-insert x ys)

length-sort : (xs : List Text) → length (sort key xs) ≡ length xs
unfolding sort
length-sort [] = refl
length-sort (x ∷ xs) = omega (arith, length-insert x (sort key xs), length-sort xs)

TextList-set : IsSet (List Text)
TextList-set = hlevel

sort-same : {xs ys : List Text} → Perm xs ys → sort key xs ≡ sort key ys
sort-same {xs} {ys} p = ∥∥₁_elim p (TextList-set (sort key xs) (sort key ys)) (λ d. sort-Permᴰ d)

differs-Perm : (before after : List Text) → differs before after ≡ false → Perm before after
unfolding differs
differs-Perm before after h = elim (Bool-cases (length before == length after)) [
  | inr other ↦ absurd (ground arith)
  | inl same ↦
      let lengths : length before ≡ length after = ground arith in
      let e =
        some_differ_sound (sort key before) (sort key after)
          (length-sort before ∙ (lengths ∙ sym (length-sort after))) (ground arith) in
      Perm.trans (Perm.symm (sort-Perm before))
        (subst (λ z. Perm z after) (sym e) (sort-Perm after))
]

Perm-differs : (before after : List Text) → Perm before after → differs before after ≡ false
unfolding differs
Perm-differs before after p =
    let e = sort-same p in
    let lengths : length before ≡ length after =
      sym (length-sort before) ∙ (ap length e ∙ length-sort after) in
    let counted = (==_iff (length before) (length after)).1 lengths in
    rw (counted, e) (some_differ_refl (sort key after))

-- The comparison of two lists of texts before and after a synchronisation finds no difference exactly
-- if the one is the other in some order, repetitions counted.
pub differs_iff : (before after : List Text) → (differs before after ≡ false) ↔ Perm before after
differs_iff before after = (differs-Perm before after, Perm-differs before after)
