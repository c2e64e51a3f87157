-- ===== src/Storage/Catalogue/Accounts.antt =====
-- The result of a synchronisation accounts for every tool.
use universal_agent_protocol.Base.{
  ◌≡◌, ◌≢◌, refl, sym, ◌∙◌, ap, subst, Bool, true, false, not, ◌&&◌, Option, none, some, List, [],
  ◌∷◌, ◌++◌, map, append-nil, append_assoc, Text, text_eq, arith, Bool-cases, Option-cases, inl,
  inr, All, select, includes, if◌then◌else◌, ℕ,
}
use universal_agent_protocol.Storage.Table.{find_many}
use universal_agent_protocol.Federation.Pagination.Sorting.{HasDistinctKeys}
use universal_agent_protocol.Storage.Catalogue.{
  DiscoveredTool, Tools, Sync, get, set_all, by_upstream_name, sync_tool, sync_each, add_tool,
  change_tool, see_tool, sync_tools, stale_names,
}
use universal_agent_protocol.Storage.Catalogue.ByName.{
  Names, others, AreDistinct, others-none, remove-others, get-others, others-AreDistinct, keyed,
  AllNew-nil, set_all-keyed, get-keyed, keyed-AreDistinct, stored,
}

-- What becomes of a tool: it is new; or it was stored under its upstream name, and its schemas, its
-- description and its gateway name are the same, or one of them has moved.
pub data Fate : Type 0 where
  is_new is_same is_moved : Fate

abbrev pub fate : Option DiscoveredTool → DiscoveredTool → Fate
fate none t = is_new
fate (some p) t =
    if text_eq p.schema_hash t.schema_hash && text_eq p.gateway_name t.gateway_name
    then is_same
    else is_moved

abbrev pub is_fate : Fate → Fate → Bool
is_fate is_new is_new = true
is_fate is_same is_same = true
is_fate is_moved is_moved = true
is_fate _ _ = false

abbrev pub gateway_names : Tools → List Text
gateway_names ts = map (λ (t : DiscoveredTool). t.gateway_name) ts

abbrev pub upstream_names : Tools → List Text
upstream_names ts = map (λ (t : DiscoveredTool). t.upstream_name) ts

-- the tools of one fate, in their order
abbrev pub of_fate : Fate → (Text → Option DiscoveredTool) → Tools → List Text
of_fate f look ts = gateway_names (select (λ t. is_fate f (fate (look t.upstream_name) t)) ts)

module _ (look : Text → Option DiscoveredTool) where
  -- One tool goes to the names of its fate, and leaves the tools that are still to be seen.
  abbrev Grows : DiscoveredTool → Sync → Sync → Type 0
  Grows t s s' =
      (s'.result.added ≡ s.result.added ++ of_fate is_new look (t ∷ []))
      × (s'.result.changed ≡ s.result.changed ++ of_fate is_moved look (t ∷ []))
      × (s'.result.unchanged ≡ s.result.unchanged ++ of_fate is_same look (t ∷ []))
      × (s'.left ≡ others t.upstream_name s.left)

  add_tool-Grows :
      (at : ℕ) (t : DiscoveredTool) (s : Sync)
      → get t.upstream_name s.left ≡ none
      → look t.upstream_name ≡ none
      → Grows t s (add_tool at t s)
  unfolding add_tool
  add_tool-Grows at t s absent new = rw new (
    refl,
    sym (append-nil s.result.changed),
    sym (append-nil s.result.unchanged),
    sym (others-none t.upstream_name s.left absent),
  )

  see_tool-Grows :
      (at : ℕ) (t p : DiscoveredTool) (s : Sync)
      → AreDistinct s.left
      → look t.upstream_name ≡ some p
      → (text_eq p.schema_hash t.schema_hash && text_eq p.gateway_name t.gateway_name) ≡ true
      → Grows t s (see_tool at t p s)
  unfolding see_tool
  see_tool-Grows at t p s d old same =
      rw (old, same)
        (
          sym (append-nil s.result.added),
          sym (append-nil s.result.changed),
          refl,
          remove-others t.upstream_name s.left d,
        )

  change_tool-Grows :
      (at : ℕ) (t p : DiscoveredTool) (s : Sync)
      → AreDistinct s.left
      → look t.upstream_name ≡ some p
      → (text_eq p.schema_hash t.schema_hash && text_eq p.gateway_name t.gateway_name) ≡ false
      → Grows t s (change_tool at t p s)
  unfolding change_tool
  change_tool-Grows at t p s d old moved =
      rw (old, moved)
        (
          sym (append-nil s.result.added),
          refl,
          sym (append-nil s.result.unchanged),
          remove-others t.upstream_name s.left d,
        )

  sync_tool-Grows :
      (at : ℕ) (t : DiscoveredTool) (s : Sync)
      → AreDistinct s.left
      → get t.upstream_name s.left ≡ look t.upstream_name
      → Grows t s (sync_tool at t s)
  unfolding sync_tool
  sync_tool-Grows at t s d e = elim (Option-cases (look t.upstream_name)) [
    | inl new ↦
        let absent : get t.upstream_name s.left ≡ none = e ∙ new in
        let runs : sync_tool at t s ≡ add_tool at t s = ground arith in
        subst (Grows t s) (sym runs) (add_tool-Grows at t s absent new)
    | inr (p, old) ↦
        let there : get t.upstream_name s.left ≡ some p = e ∙ old in
        elim (Bool-cases
          (text_eq p.schema_hash t.schema_hash && text_eq p.gateway_name t.gateway_name)) [
            | inl same ↦
                let runs : sync_tool at t s ≡ see_tool at t p s = ground arith in
                subst (Grows t s) (sym runs) (see_tool-Grows at t p s d old same)
            | inr moved ↦
                let runs : sync_tool at t s ≡ change_tool at t p s = ground arith in
                subst (Grows t s) (sym runs) (change_tool-Grows at t p s d old moved)
          ]
  ]

  of_fate-cons :
      (f : Fate) (t : DiscoveredTool) (ts : Tools)
      → of_fate f look (t ∷ ts) ≡ of_fate f look (t ∷ []) ++ of_fate f look ts
  of_fate-cons f t ts = elim (Bool-cases (is_fate f (fate (look t.upstream_name) t))) [
    | inl hit ↦ rw hit refl
    | inr miss ↦ rw miss refl
  ]

  joins :
      (f : Fate) (t : DiscoveredTool) (ts : Tools) (xs ys zs : List Text)
      → ys ≡ xs ++ of_fate f look (t ∷ [])
      → zs ≡ ys ++ of_fate f look ts
      → zs ≡ xs ++ of_fate f look (t ∷ ts)
  joins f t ts xs ys zs e h =
      h
      ∙ (ap (λ r. r ++ of_fate f look ts) e
          ∙ (append_assoc xs (of_fate f look (t ∷ [])) (of_fate f look ts)
              ∙ ap (λ r. xs ++ r) (sym (of_fate-cons f t ts))))

  -- the entries under none of the names
  abbrev unseen : List Text → Names → Names
  unseen names m = select (λ (e : Text × DiscoveredTool). not (includes names e.0)) m

  unseen-others :
      (name : Text) (names : List Text) (m : Names)
      → unseen names (others name m) ≡ unseen (name ∷ names) m
  unseen-others name names [] = refl
  unseen-others name names ((k, t) ∷ m) = elim (Bool-cases (text_eq name k)) [
    | inl same ↦ rw same (unseen-others name names m)
    | inr apart ↦ rw apart (elim (Bool-cases (includes names k)) [
      | inl seen ↦ rw seen (unseen-others name names m)
      | inr new ↦ rw new (ap (λ r. (k, t) ∷ r) (unseen-others name names m))
    ])
  ]

  unseen-none : (m : Names) → unseen [] m ≡ m
  unseen-none [] = refl
  unseen-none ((k, t) ∷ m) = ap (λ r. (k, t) ∷ r) (unseen-none m)

  abbrev Agrees : Names → Tools → Type 0
  Agrees m ts = All (λ (t : DiscoveredTool). get t.upstream_name m ≡ look t.upstream_name) ts

  Agrees-others :
      (name : Text) (m : Names) (ts : Tools)
      → All (λ (u : DiscoveredTool). name ≢ u.upstream_name) ts
      → Agrees m ts
      → Agrees (others name m) ts
  Agrees-others name m [] n a = tt
  Agrees-others name m (u ∷ ts) (n, ns) (a, as_) =
      (get-others name u.upstream_name m (λ e. n (sym e)) ∙ a, Agrees-others name m ts ns as_)

  sync_each-names :
      (at : ℕ) (ts : Tools) (s : Sync)
      → HasDistinctKeys (λ (t : DiscoveredTool). t.upstream_name) ts
      → AreDistinct s.left
      → Agrees s.left ts
      → let s' = sync_each at ts s in
        (s'.result.added ≡ s.result.added ++ of_fate is_new look ts)
        × (s'.result.changed ≡ s.result.changed ++ of_fate is_moved look ts)
        × (s'.result.unchanged ≡ s.result.unchanged ++ of_fate is_same look ts)
        × (s'.left ≡ unseen (upstream_names ts) s.left)
  unfolding sync_each
  sync_each-names at [] s n d a = (
    sym (append-nil s.result.added),
    sym (append-nil s.result.changed),
    sym (append-nil s.result.unchanged),
    sym (unseen-none s.left),
  )
  sync_each-names at (t ∷ ts) s (n, ns) d (a, as_) =
      let s1 = sync_tool at t s in
      let (added, changed, unchanged, left) = sync_tool-Grows at t s d a in
      let d1 = subst AreDistinct (sym left) (others-AreDistinct t.upstream_name s.left d) in
      let a1 =
        subst (λ m. Agrees m ts) (sym left) (Agrees-others t.upstream_name s.left ts n as_) in
      let (added', changed', unchanged', left') = sync_each-names at ts s1 ns d1 a1 in
      (
        joins is_new t ts s.result.added s1.result.added _ added added',
        joins is_moved t ts s.result.changed s1.result.changed _ changed changed',
        joins is_same t ts s.result.unchanged s1.result.unchanged _ unchanged unchanged',
        left'
            ∙ (ap (unseen (upstream_names ts)) left
                ∙ unseen-others t.upstream_name (upstream_names ts) s.left),
      )

keyed-Agrees : (before ts : Tools) → Agrees (stored before) (keyed before) ts
keyed-Agrees before [] = tt
keyed-Agrees before (t ∷ ts) = (get-keyed before t.upstream_name, keyed-Agrees before ts)

stale-unseen :
    (look : Text → Option DiscoveredTool) (names : List Text) (before : Tools)
    → stale_names (unseen look names (keyed before))
      ≡ gateway_names (select (λ (p : DiscoveredTool). not (includes names p.upstream_name)) before)
unfolding stale_names keyed
stale-unseen look names [] = refl
stale-unseen look names (t ∷ ts) = elim (Bool-cases (includes names t.upstream_name)) [
  | inl seen ↦ rw seen (stale-unseen look names ts)
  | inr gone ↦ rw gone (ap (λ r. t.gateway_name ∷ r) (stale-unseen look names ts))
]

-- A synchronisation accounts for every tool by name, where no upstream name stands twice among the
-- tools discovered or among those stored for the connection: added are those discovered that were not
-- stored, unchanged those stored with the same hash and gateway name, changed those stored with
-- another hash or gateway name, each in the order of discovery; and removed are those stored that
-- were not discovered, in the order of the rows. Every tool is reported under its gateway name.
pub sync_tools-accounts :
    (connection_id : Text) (tools : Tools) (seen_at : ℕ) (rows : Tools)
    → HasDistinctKeys (λ (t : DiscoveredTool). t.upstream_name) tools
    → HasDistinctKeys
        (λ (t : DiscoveredTool). t.upstream_name)
        (find_many (λ (t : DiscoveredTool). text_eq t.connection_id connection_id) rows)
    → let before = find_many (λ (t : DiscoveredTool). text_eq t.connection_id connection_id) rows in
      let result = (sync_tools connection_id tools seen_at rows).1 in
      (result.added ≡ of_fate is_new (stored before) tools)
      × (result.changed ≡ of_fate is_moved (stored before) tools)
      × (result.unchanged ≡ of_fate is_same (stored before) tools)
      × (result.removed
          ≡ gateway_names (
              select
                (λ (p : DiscoveredTool). not (includes (upstream_names tools) p.upstream_name))
                before))
unfolding sync_tools by_upstream_name
sync_tools-accounts connection_id tools seen_at rows n d =
    let before = find_many (λ (t : DiscoveredTool). text_eq t.connection_id connection_id) rows in
    let start : Sync = record {
      rows = rows;
      left = set_all before [];
      result = record { added = []; removed = []; changed = []; unchanged = [] };
    } in
    let all = set_all-keyed before [] d (AllNew-nil before) in
    let (added, changed, unchanged, left) =
      sync_each-names (stored before) seen_at tools start n
        (subst AreDistinct (sym all) (keyed-AreDistinct before d))
        (subst (λ m. Agrees (stored before) m tools) (sym all) (keyed-Agrees before tools)) in
    (
      added,
      changed,
      unchanged,
      ap stale_names (left ∙ ap (unseen (stored before) (upstream_names tools)) all)
          ∙ stale-unseen (stored before) (upstream_names tools) before,
    )
