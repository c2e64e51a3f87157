-- ===== src/Storage/Catalogue/ByName.antt =====
-- The tools of a connection by their upstream names.
use universal_agent_protocol.Base.{
  ◌≡◌, ◌≢◌, refl, sym, ◌∙◌, ap, subst, not, Option, none, List, [], ◌∷◌, ◌++◌, map, append-nil,
  append_assoc, Text, text_eq, text_eq_iff, text_eq_ne, ne-text_eq, arith, Bool-cases, inl, inr,
  All, select,
}
use universal_agent_protocol.Storage.Table.{find_one}
use universal_agent_protocol.Federation.Pagination.Sorting.{HasDistinctKeys}
use universal_agent_protocol.Storage.Catalogue.{DiscoveredTool, Tools, get, set, set_all, remove}

abbrev pub Names : Type 0
Names = List (Text × DiscoveredTool)

-- the entries under other names
abbrev pub others : Text → Names → Names
others name m = select (λ (e : Text × DiscoveredTool). not (text_eq name e.0)) m

abbrev pub AreDistinct : Names → Type 0
AreDistinct m = HasDistinctKeys (λ (e : Text × DiscoveredTool). e.0) m

others-absent :
    (name : Text) (m : Names)
    → All (λ (e : Text × DiscoveredTool). name ≢ e.0) m
    → others name m ≡ m
others-absent name [] n = refl
others-absent name ((k, t) ∷ m) (n, ns) =
    rw (ne-text_eq name k n) (ap (λ r. (k, t) ∷ r) (others-absent name m ns))

pub others-none : (name : Text) (m : Names) → get name m ≡ none → others name m ≡ m
unfolding get
others-none name [] h = refl
others-none name ((k, t) ∷ m) h =
    ground (arith, text_eq_iff k name, text_eq_iff name k, others-none name m)

pub remove-others : (name : Text) (m : Names) → AreDistinct m → remove name m ≡ others name m
unfolding remove
remove-others name [] d = refl
remove-others name ((k, t) ∷ m) (n, d) = elim (Bool-cases (text_eq k name)) [
  | inl same ↦
      let e : k ≡ name = (text_eq_iff k name).0 same in
      let back = (text_eq_iff name k).1 (sym e) in
      rw (same, back)
        (sym
          (others-absent name m (subst (λ x. All (λ (y : Text × DiscoveredTool). x ≢ y.0) m) e n)))
  | inr apart ↦
      rw (apart, ne-text_eq name k (λ (e : name ≡ k). text_eq_ne k name apart (sym e)))
        (ap (λ r. (k, t) ∷ r) (remove-others name m d))
]

pub get-others :
    (name other : Text) (m : Names) → other ≢ name → get other (others name m) ≡ get other m
unfolding get
get-others name other [] d = refl
get-others name other ((k, t) ∷ m) d =
    ground (arith, text_eq_iff name k, text_eq_iff k other, get-others name other m)

All-others :
    (P : Text × DiscoveredTool → Type 0) (name : Text) (m : Names) → All P m → All P (others name m)
All-others P name [] ps = tt
All-others P name ((k, t) ∷ m) (p, ps) = elim (Bool-cases (text_eq name k)) [
  | inl same ↦ rw same (All-others P name m ps)
  | inr apart ↦ rw apart (p, All-others P name m ps)
]

pub others-AreDistinct : (name : Text) (m : Names) → AreDistinct m → AreDistinct (others name m)
others-AreDistinct name [] d = tt
others-AreDistinct name ((k, t) ∷ m) (n, d) = elim (Bool-cases (text_eq name k)) [
  | inl same ↦ rw same (others-AreDistinct name m d)
  | inr apart ↦ rw apart (All-others (λ e. k ≢ e.0) name m n, others-AreDistinct name m d)
]

unfoldable pub keyed : Tools → Names
keyed before = map (λ (t : DiscoveredTool). (t.upstream_name, t)) before

set-new :
    (name : Text) (t : DiscoveredTool) (m : Names)
    → All (λ (e : Text × DiscoveredTool). name ≢ e.0) m
    → set name t m ≡ m ++ (name, t) ∷ []
unfolding set
set-new name t [] n = refl
set-new name t ((k, u) ∷ m) (n, ns) =
    rw (ne-text_eq k name (λ (e : k ≡ name). n (sym e)))
      (ap (λ r. (k, u) ∷ r) (set-new name t m ns))

All-snoc :
    (P : Text × DiscoveredTool → Type 0) (m : Names) (e : Text × DiscoveredTool)
    → All P m
    → P e
    → All P (m ++ e ∷ [])
All-snoc P [] e ps p = (p, tt)
All-snoc P (x ∷ m) e (q, qs) p = (q, All-snoc P m e qs p)

abbrev pub AllNew : Tools → Names → Type 0
AllNew ts m =
    All (λ (t : DiscoveredTool). All (λ (e : Text × DiscoveredTool). t.upstream_name ≢ e.0) m) ts

AllNew-snoc :
    (t : DiscoveredTool) (ts : Tools) (m : Names)
    → All (λ (u : DiscoveredTool). t.upstream_name ≢ u.upstream_name) ts
    → AllNew ts m
    → AllNew ts (m ++ (t.upstream_name, t) ∷ [])
AllNew-snoc t [] m d n = tt
AllNew-snoc t (u ∷ ts) m (d, ds) (n, ns) = (
  All-snoc (λ e. u.upstream_name ≢ e.0) m (t.upstream_name, t) n (λ e. d (sym e)),
  AllNew-snoc t ts m ds ns,
)

pub set_all-keyed :
    (ts : Tools) (m : Names)
    → HasDistinctKeys (λ (t : DiscoveredTool). t.upstream_name) ts
    → AllNew ts m
    → set_all ts m ≡ m ++ keyed ts
unfolding set_all keyed
set_all-keyed [] m d n = sym (append-nil m)
set_all-keyed (t ∷ ts) m (d, ds) (n, ns) =
    let m' = m ++ (t.upstream_name, t) ∷ [] in
    ap (set_all ts) (set-new t.upstream_name t m n)
    ∙ (set_all-keyed ts m' ds (AllNew-snoc t ts m d ns)
        ∙ append_assoc m ((t.upstream_name, t) ∷ []) (keyed ts))

pub AllNew-nil : (ts : Tools) → AllNew ts []
AllNew-nil [] = tt
AllNew-nil (t ∷ ts) = (tt, AllNew-nil ts)

abbrev pub stored : Tools → Text → Option DiscoveredTool
stored before name = find_one (λ (p : DiscoveredTool). text_eq p.upstream_name name) before

pub get-keyed : (before : Tools) (name : Text) → get name (keyed before) ≡ stored before name
unfolding get keyed find_one
get-keyed [] name = refl
get-keyed (t ∷ ts) name = ground (arith, get-keyed ts name)

keyed-apart :
    (name : Text) (ts : Tools)
    → All (λ (t : DiscoveredTool). name ≢ t.upstream_name) ts
    → All (λ (e : Text × DiscoveredTool). name ≢ e.0) (keyed ts)
unfolding keyed
keyed-apart name [] n = tt
keyed-apart name (t ∷ ts) (n, ns) = (n, keyed-apart name ts ns)

pub keyed-AreDistinct :
    (ts : Tools)
    → HasDistinctKeys (λ (t : DiscoveredTool). t.upstream_name) ts
    → AreDistinct (keyed ts)
unfolding keyed
keyed-AreDistinct [] d = tt
keyed-AreDistinct (t ∷ ts) (n, d) = (keyed-apart t.upstream_name ts n, keyed-AreDistinct ts d)
