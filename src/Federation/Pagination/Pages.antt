-- ===== src/Federation/Pagination/Pages.antt =====
-- A client that follows the cursors sees every item once, in order.
use universal_agent_protocol.Base.{
  ℕ, zero, suc, ◌+◌, ◌≡◌, refl, ◌≢◌, ◌<◌, ◌≤◌, true, List, [], ◌∷◌, ◌++◌, Option, none, some, Text,
  text_eq_refl, arith, Bool-cases, Option-cases, inl, inr, leb, ap, All, length, take, drop, ◌∙◌,
  sym, subst, take-append-drop, length-drop,
}
use universal_agent_protocol.Core.Errors.{ok, raise}
use universal_agent_protocol.Federation.Pagination.{
  text_lt, last, insert, sort, behind, start_from, Cursor, absent, text, decode_cursor, next_of,
  cut, paginate,
}
use universal_agent_protocol.Federation.Pagination.Sorting.{
  text_lt_irrefl, text_lt_asym, Rises, HasDistinctKeys, All-sort, sort-Rises,
}

module _ {T : Type 0} where
  take_all : (n : ℕ) (xs : List T) → length xs ≤ n → take n xs ≡ xs
  take_all zero [] h = refl
  take_all (suc n) [] h = refl
  take_all zero (x ∷ xs) h = absurd (omega arith)
  take_all (suc n) (x ∷ xs) h = ap (◌∷◌ x) (take_all n xs (omega arith))

  drop-nil : (k : ℕ) → drop {A = T} k [] ≡ []
  drop-nil zero = refl
  drop-nil (suc k) = refl

  drop-drop : (m k : ℕ) (xs : List T) → drop k (drop m xs) ≡ drop (m + k) xs
  drop-drop zero k xs = ap (λ j. drop j xs) (omega arith)
  drop-drop (suc m) k [] = drop-nil k ∙ sym (drop-nil (suc m + k))
  drop-drop (suc m) k (x ∷ xs) =
      let e : suc (m + k) ≡ suc m + k = omega arith in
      drop-drop m k xs ∙ ap (λ j. drop j (x ∷ xs)) e

  All-drop : (P : T → Type 0) (n : ℕ) (xs : List T) → All P xs → All P (drop n xs)
  All-drop P zero xs ps = ps
  All-drop P (suc n) [] ps = ps
  All-drop P (suc n) (x ∷ xs) (p, ps) = All-drop P n xs ps

  All-last-take :
      (P : T → Type 0) (n : ℕ) (xs : List T) (z : T) → All P xs → last (take n xs) ≡ some z → P z
  unfolding last
  All-last-take P zero xs z ps e = cc
  All-last-take P (suc n) [] z ps e = cc
  All-last-take P (suc zero) (x ∷ xs) z (p, ps) e = let same : x ≡ z = cc e in subst P same p
  All-last-take P (suc (suc n)) (x ∷ []) z (p, ps) e = let same : x ≡ z = cc e in subst P same p
  All-last-take P (suc (suc n)) (x ∷ y ∷ ys) z (p, ps) e = All-last-take P (suc n) (y ∷ ys) z ps e

  last-take-none : (n : ℕ) (xs : List T) → last (take (suc n) xs) ≡ none → xs ≡ []
  unfolding last
  last-take-none n [] e = refl
  last-take-none zero (x ∷ xs) e = cc
  last-take-none (suc n) (x ∷ []) e = cc
  last-take-none (suc n) (x ∷ y ∷ ys) e = let bad = last-take-none n (y ∷ ys) e in cc bad

module _ {T : Type 0} (key_of : T → Text) where
  behind_first :
      (n : ℕ) (xs : List T) (z : T)
      → Rises key_of xs
      → last (take (suc n) xs) ≡ some z
      → behind key_of (key_of z) xs ≡ drop (suc n) xs
  unfolding behind last
  behind_first n [] z r e = refl
  behind_first zero (x ∷ []) z r e =
      let same : x ≡ z = cc e in
      subst (λ w. behind key_of (key_of w) (x ∷ []) ≡ []) same (rw (text_lt_irrefl (key_of x)) refl)
  behind_first zero (x ∷ y ∷ ys) z ((h, hs), r) e =
      let same : x ≡ z = cc e in
      subst (λ w. behind key_of (key_of w) (x ∷ y ∷ ys) ≡ y ∷ ys) same
        (rw (text_lt_irrefl (key_of x), h) refl)
  behind_first (suc n) (x ∷ []) z r e =
      let same : x ≡ z = cc e in
      subst (λ w. behind key_of (key_of w) (x ∷ []) ≡ []) same (rw (text_lt_irrefl (key_of x)) refl)
  behind_first (suc n) (x ∷ y ∷ ys) z (hs, r) e =
      let above =
        All-last-take (λ w. text_lt (key_of x) (key_of w) ≡ true) (suc n) (y ∷ ys) z hs e in
      rw (text_lt_asym (key_of x) (key_of z) above) (behind_first n (y ∷ ys) z r e)

  -- The items behind the last one of a page are those that the page left over.
  behind_page :
      (m n : ℕ) (xs : List T) (z : T)
      → Rises key_of xs
      → last (take (suc n) (drop m xs)) ≡ some z
      → behind key_of (key_of z) xs ≡ drop (suc n) (drop m xs)
  unfolding behind
  behind_page zero n xs z r e = behind_first n xs z r e
  behind_page (suc m) n [] z r e = refl
  behind_page (suc m) n (x ∷ xs) z (hs, r) e =
      let above =
        All-last-take (λ w. text_lt (key_of x) (key_of w) ≡ true) (suc n) (drop m xs) z
          (All-drop (λ w. text_lt (key_of x) (key_of w) ≡ true) m xs hs) e in
      rw (text_lt_asym (key_of x) (key_of z) above) (behind_page m n xs z r e)

module _ {T : Type 0} (encode decode : Text → Text) (items : List T) (key_of : T → Text)
    (n : ℕ) where
  -- What a client gets that follows the cursors from one on, in pages of n + 1, or none if it is
  -- refused or still not done after so many pages.
  unfoldable pub collect : ℕ → Cursor → Option (List T)
  collect zero c = none
  collect (suc fuel) c = elim (paginate encode decode items key_of c (suc n)) [
    | raise e ↦ none
    | ok page ↦ elim page.next_cursor [
      | none ↦ some page.items
      | some t ↦ elim (collect fuel (text t)) [
        | none ↦ none
        | some rest ↦ some (page.items ++ rest)
      ]
    ]
  ]

  -- The key survives its way through the cursor.
  abbrev pub IsCarried : T → Type 0
  IsCarried x = (decode (encode (key_of x)) ≡ key_of x) × (encode (key_of x) ≢ [])

  cursor_of :
      (t key : Text)
      → t ≢ []
      → decode t ≡ key
      → encode (decode t) ≡ t
      → decode_cursor encode decode (text t) ≡ ok (some key)
  unfolding decode_cursor
  cursor_of [] key there back again = absurd (there refl)
  cursor_of (c ∷ s) key there back again = rw (again, text_eq_refl (c ∷ s), back) refl

  cursor_decodes :
      (x : T)
      → IsCarried x
      → decode_cursor encode decode (text (encode (key_of x))) ≡ ok (some (key_of x))
  unfolding decode_cursor
  cursor_decodes x (back, there) =
      cursor_of (encode (key_of x)) (key_of x) there back (rw back refl)

  page_at :
      (c : Cursor) (after : Option Text) (rest : List T)
      → decode_cursor encode decode c ≡ ok after
      → start_from key_of after (sort key_of items) ≡ rest
      → paginate encode decode items key_of c (suc n) ≡ ok (cut encode decode key_of (suc n) rest)
  unfolding paginate
  page_at c after rest d at =
      rw (d, paginate) (ap (λ x. ok (cut encode decode key_of (suc n) x)) at)

  collect_rest :
      (fuel m : ℕ) (c : Cursor) (after : Option Text)
      → Rises key_of (sort key_of items)
      → All IsCarried (sort key_of items)
      → decode_cursor encode decode c ≡ ok after
      → start_from key_of after (sort key_of items) ≡ drop m (sort key_of items)
      → length (drop m (sort key_of items)) < fuel
      → collect fuel c ≡ some (drop m (sort key_of items))
  unfolding collect cut next_of start_from
  collect_rest zero m c after r k d at h = absurd (omega arith)
  collect_rest (suc fuel) m c after r k d at h =
      let rest = drop m (sort key_of items) in
      let page = page_at c after rest d at in
      elim (Option-cases (last (take (suc n) rest))) [
        | inl nothing ↦
            let empty = last-take-none n rest nothing in
            rw (page, nothing, collect) (ap some (take_all (suc n) rest (rw empty (omega arith))))
        | inr (z, found) ↦ elim (Bool-cases (leb (length rest) (suc n))) [
          | inl done ↦
              rw (page, found, done, collect) (ap some (take_all (suc n) rest (ground arith)))
          | inr more ↦
              let long : suc n < length rest = ground arith in
              let carried =
                All-last-take IsCarried (suc n) rest z (All-drop IsCarried m _ k) found in
              let next =
                collect_rest fuel (m + suc n) (text (encode (key_of z))) (some (key_of z)) r k
                  (cursor_decodes z carried)
                  (behind_page key_of m n _ z r found ∙ drop-drop m (suc n) _)
                  (rw (sym (drop-drop m (suc n) (sort key_of items)))
                    (omega (arith, length-drop (suc n) rest))) in
              rw (page, found, more, collect, next)
                (ap some (
                  rw (sym (drop-drop m (suc n) (sort key_of items)))
                    (take-append-drop (suc n) rest)))
        ]
      ]

  length-insert : (x : T) (ys : List T) → length (insert key_of x ys) ≡ suc (length ys)
  unfolding insert
  length-insert x [] = refl
  length-insert x (y ∷ ys) = ground (arith, length-insert x ys)

  length-sort : (xs : List T) → length (sort key_of xs) ≡ length xs
  unfolding sort
  length-sort [] = refl
  length-sort (x ∷ xs) = omega (arith, length-insert x (sort key_of xs), length-sort xs)

  -- In pages of any positive size, a client that follows the cursors from the start is done after at
  -- most one page more than there are items, is never refused, and has every item once, in the order
  -- of the keys, if no two keys are equal and each survives its encoding as a cursor that is not
  -- empty.
  pub collect-sort :
      HasDistinctKeys key_of items
      → All IsCarried items
      → collect (length items + 1) absent ≡ some (sort key_of items)
  unfolding decode_cursor start_from
  collect-sort d k =
      collect_rest (length items + 1) 0 absent none (sort-Rises key_of items d)
        (All-sort key_of IsCarried items k) refl refl (omega (arith, length-sort items))
