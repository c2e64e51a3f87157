-- ===== src/Federation/Handler/Served.antt =====
-- The connections that a caller is served from.
use mathlib.Core.List.{Mem, mem-cons_self, mem-cons_of_mem}
use universal_agent_protocol.Base.{
  ◌≡◌, ◌≢◌, refl, subst, ◌⊎◌, inl, inr, Bool, true, some, [], ◌∷◌, Text, text_eq, text_eq_sound,
  arith, Bool-cases, select, All,
}
use universal_agent_protocol.Core.Domain.{ConnectionOwnerType, ConnectionStatus, workspace, user}
use universal_agent_protocol.Storage.Table.{find_one, find_many}
use universal_agent_protocol.Storage.Connections.{
  UpstreamConnection, Connections, is_visible_to, list_visible, list_by_tenant,
}
use universal_agent_protocol.Federation.Handler.{Caller, Gateway, is_enabled, visible_connections}

-- The caller is served from a connection: it is stored, of the caller's tenant, shared in the
-- workspace or the caller's own, and not disabled.
pub record IsServed (caller : Caller) (rows : Connections) (c : UpstreamConnection) : Type 0 where
  pub stored : Mem c rows
  pub in_tenant : c.tenant_id ≡ caller.tenant_id
  pub shared_or_own : (c.owner_type ≡ workspace) ⊎ (c.owner_id ≡ caller.user_id)
  pub enabled : c.status ≢ ConnectionStatus.disabled

-- A lookup finds what holds of all rows.
find_one-All :
    (P : UpstreamConnection → Type 0) (p : UpstreamConnection → Bool) (rows : Connections)
    (c : UpstreamConnection)
    → All P rows
    → find_one p rows ≡ some c
    → P c × (p c ≡ true)
unfolding find_one
find_one-All P p [] c h e = absurd (cc)
find_one-All P p (r ∷ rows) c (q, h) e = elim (Bool-cases (p r)) [
  | inl hit ↦ let same : r ≡ c = ground arith in (subst P same q, subst (λ x. p x ≡ true) same hit)
  | inr miss ↦ find_one-All P p rows c h (ground arith)
]

All-stored : (rows : Connections) → All (λ c. Mem c rows) rows
All-stored [] = tt
All-stored (r ∷ rows) = (mem-cons_self, All-map rows (All-stored rows))
  where
    All-map : (xs : Connections) → All (λ c. Mem c rows) xs → All (λ c. Mem c (r ∷ rows)) xs
    All-map [] h = tt
    All-map (x ∷ xs) (m, h) = (mem-cons_of_mem r m, All-map xs h)

module _ (P : UpstreamConnection → Type 0) (p : UpstreamConnection → Bool) where
  All-select : (rows : Connections) → All P rows → All (λ c. P c × (p c ≡ true)) (select p rows)
  All-select [] h = tt
  All-select (r ∷ rows) (q, h) = elim (Bool-cases (p r)) [
    | inl hit ↦ rw hit ((q, hit), All-select rows h)
    | inr miss ↦ rw miss (All-select rows h)
  ]

  All-find_many :
      (rows : Connections) → All P rows → All (λ c. P c × (p c ≡ true)) (find_many p rows)
  unfolding find_many
  All-find_many [] h = tt
  All-find_many (r ∷ rows) (q, h) = elim (Bool-cases (p r)) [
    | inl hit ↦ rw hit ((q, hit), All-find_many rows h)
    | inr miss ↦ rw miss (All-find_many rows h)
  ]

owner-cases : (o : ConnectionOwnerType) → (o ≡ workspace) ⊎ (o ≡ user)
owner-cases workspace = inl refl
owner-cases user = inr refl

shared_or_own_of :
    (u : Text) (c : UpstreamConnection)
    → is_visible_to u c ≡ true
    → (c.owner_type ≡ workspace) ⊎ (c.owner_id ≡ u)
unfolding is_visible_to
shared_or_own_of u c h = elim (owner-cases c.owner_type) [
  | inl shared ↦ inl shared
  | inr own ↦ inr (text_eq_sound c.owner_id u (ground arith))
]

pub visible-IsServed :
    (caller : Caller) (g : Gateway) (id : Text) (c : UpstreamConnection)
    → find_one (λ r. text_eq r.id id) (visible_connections caller g) ≡ some c
    → IsServed caller g.manager.connections c × (c.id ≡ id)
unfolding visible_connections list_visible list_by_tenant is_enabled
visible-IsServed caller g id c found =
    let rows = g.manager.connections in
    let tenant = λ (r : UpstreamConnection). text_eq r.tenant_id caller.tenant_id in
    let P0 = λ (r : UpstreamConnection). Mem r rows in
    let P1 = λ (r : UpstreamConnection). P0 r × (tenant r ≡ true) in
    let P2 = λ (r : UpstreamConnection). P1 r × (is_visible_to caller.user_id r ≡ true) in
    let P3 = λ (r : UpstreamConnection). P2 r × (is_enabled r ≡ true) in
    let h1 = All-find_many P0 tenant rows (All-stored rows) in
    let h2 = All-select P1 (is_visible_to caller.user_id) (find_many tenant rows) h1 in
    let h3 =
      All-select P2 is_enabled (select (is_visible_to caller.user_id) (find_many tenant rows)) h2 in
    let (p, same) =
      find_one-All P3 (λ r. text_eq r.id id)
        (select is_enabled (select (is_visible_to caller.user_id) (find_many tenant rows))) c h3
        found in
    (
      record {
        stored = p.0.0.0;
        in_tenant = text_eq_sound c.tenant_id caller.tenant_id p.0.0.1;
        shared_or_own = shared_or_own_of caller.user_id c p.0.1;
        enabled = λ off. let on = p.1 in ground arith;
      },
      text_eq_sound c.id id same,
    )
