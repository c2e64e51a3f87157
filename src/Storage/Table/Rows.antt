-- ===== src/Storage/Table/Rows.antt =====
-- What the statements on a table do to what a lookup finds.
use universal_agent_protocol.Base.{
  ◌+◌, ◌≡◌, refl, Bool, true, false, All, List, [], ◌∷◌, map, arith, Bool-cases, if◌then◌else◌, ap,
  length, inl, inr,
}
use mathlib.Core.Option
use universal_agent_protocol.Storage.Table.{find_one, update_raw, delete}

module _ {Row : Type 0} where
  -- Where the update keeps the answer of the lookup's test, the lookup finds the updated row.
  pub find_one-update_raw :
      (q p : Row → Bool) (f : Row → Row) (rows : List Row)
      → ((r : Row) → q (f r) ≡ q r)
      → find_one q (update_raw p f rows).0
        ≡ Option.map (λ r. if p r then f r else r) (find_one q rows)
  unfolding find_one update_raw
  find_one-update_raw q p f [] k = refl
  find_one-update_raw q p f (r ∷ rows) k = ground (arith, k r, find_one-update_raw q p f rows k)

  -- An update that no updated row fits again changes nothing the second time, and counts nothing.
  pub update_raw_twice :
      (p q : Row → Bool) (f g : Row → Row) (rows : List Row)
      → ((r : Row) → q r ≡ p r)
      → ((r : Row) → p (f r) ≡ false)
      → update_raw q g (update_raw p f rows).0 ≡ ((update_raw p f rows).0, 0)
  unfolding update_raw
  update_raw_twice p q f g [] same spent = refl
  update_raw_twice p q f g (r ∷ rows) same spent =
      ground (arith, same r, same (f r), spent r, update_raw_twice p q f g rows same spent)

  -- An update that keeps a view of each row keeps the view of the table.
  pub map-update_raw :
      {V : Type 0} (view : Row → V) (p : Row → Bool) (f : Row → Row) (rows : List Row)
      → ((r : Row) → view (f r) ≡ view r)
      → map view (update_raw p f rows).0 ≡ map view rows
  unfolding update_raw
  map-update_raw view p f [] k = refl
  map-update_raw view p f (r ∷ rows) k = elim (Bool-cases (p r)) [
    | inl hit ↦ rw (hit, k r) (ap (◌∷◌ (view r)) (map-update_raw view p f rows k))
    | inr miss ↦ rw miss (ap (◌∷◌ (view r)) (map-update_raw view p f rows k))
  ]

  pub delete_count :
      (p : Row → Bool) (rows : List Row)
      → length (delete p rows).0 + (delete p rows).1 ≡ length rows
  unfolding delete
  delete_count p [] = omega arith
  delete_count p (r ∷ rows) = ground (arith, delete_count p rows)

  -- What holds of the rows that an update rewrites and of those that it leaves holds of the table.
  pub All-update_raw :
      (Q : Row → Type 0) (p : Row → Bool) (f : Row → Row) (rows : List Row)
      → ((r : Row) → p r ≡ true → Q (f r))
      → ((r : Row) → p r ≡ false → Q r)
      → All Q (update_raw p f rows).0
  unfolding update_raw
  All-update_raw Q p f [] hit miss = tt
  All-update_raw Q p f (r ∷ rows) hit miss = elim (Bool-cases (p r)) [
    | inl e ↦ rw e (hit r e, All-update_raw Q p f rows hit miss)
    | inr e ↦ rw e (miss r e, All-update_raw Q p f rows hit miss)
  ]
