-- ===== src/Transport/Registered.antt =====
-- The registrations of `Setup` with the transport and with the conflation manager, together.
use mathlib.Core.List.{Memᴰ}
use mathlib.Core.Option.{some-injective}
use hub_of_hubs_status_trans.Base.{
  ◌≡◌, refl, ap, sym, ◌∙◌, String, Bool, true, false, [], Option, none, some, ◌⊎◌, inl, inr,
  Bool-cases, lookup, lookup-assign, str_eq, if◌then◌else◌, ◌↔◌,
}
use hub_of_hubs_status_trans.Bundle.{
  Bundle, get_bundle_type, new_managed_clusters_status_bundle, new_clusters_per_policy_bundle,
  new_compliance_status_bundle, new_minimal_compliance_status_bundle, managed_clusters,
  clusters_per_policy_list, compliance_status, minimal_compliance_status,
}
use hub_of_hubs_status_trans.Conflator.Registration.{
  ConflationRegistration, new_conflation_registration, with_dependency,
}
use hub_of_hubs_status_trans.Conflator.Manager.{new_conflation_manager, register, ConflationManager}
use hub_of_hubs_status_trans.DbSyncer.Registration.{setup}
use hub_of_hubs_status_trans.Transport.{
  MsgKeys, Levels, Config, BundleRegistration, Registrations, register_create_managed_clusters,
  register_create_policies, setup_transport, full_status_predicate, minimal_status_predicate,
}
use hub_of_hubs_status_trans.Transport

-- Where a registration that is found comes from.
lookup-register :
    {L : Type 0} (rs : Registrations L) (r0 r : BundleRegistration L) (m : String)
    → lookup m (Transport.register rs r0) ≡ some r
    → (r0 ≡ r) ⊎ (lookup m rs ≡ some r)
unfolding Transport.register
lookup-register rs r0 r m h =
    let at = sym (lookup-assign r0.msg_id m r0 rs) ∙ h in
    elim (Bool-cases (str_eq r0.msg_id m)) [
      | inl own ↦ inl (some-injective r0 r (rw own at at))
      | inr other ↦ inr (rw other at at)
    ]

-- The four registrations that `Setup` makes with the transport.
data IsRegistered {L : Type 0} (levels : Levels L) (r : BundleRegistration L) : Type 0 where
  of_managed_clusters :
      new_managed_clusters_status_bundle ≡ r.create_bundle_func
      → (λ config. true) ≡ r.predicate
      → IsRegistered levels r
  of_clusters_per_policy :
      new_clusters_per_policy_bundle ≡ r.create_bundle_func
      → full_status_predicate levels ≡ r.predicate
      → IsRegistered levels r
  of_compliance :
      new_compliance_status_bundle ≡ r.create_bundle_func
      → full_status_predicate levels ≡ r.predicate
      → IsRegistered levels r
  of_minimal_compliance :
      new_minimal_compliance_status_bundle ≡ r.create_bundle_func
      → minimal_status_predicate levels ≡ r.predicate
      → IsRegistered levels r

setup_transport-IsRegistered :
    {L : Type 0} (keys : MsgKeys) (levels : Levels L) (m : String) (r : BundleRegistration L)
    → lookup m (setup_transport keys levels []) ≡ some r
    → IsRegistered levels r
unfolding setup_transport register_create_managed_clusters register_create_policies lookup
setup_transport-IsRegistered keys levels m r h = elim (lookup-register _ _ r m h) [
  | inl e ↦ of_minimal_compliance (ap (λ x. x.create_bundle_func) e) (ap (λ x. x.predicate) e)
  | inr h1 ↦ elim (lookup-register _ _ r m h1) [
    | inl e ↦ of_compliance (ap (λ x. x.create_bundle_func) e) (ap (λ x. x.predicate) e)
    | inr h2 ↦ elim (lookup-register _ _ r m h2) [
      | inl e ↦ of_clusters_per_policy (ap (λ x. x.create_bundle_func) e) (ap (λ x. x.predicate) e)
      | inr h3 ↦ elim (lookup-register _ _ r m h3) [
        | inl e ↦ of_managed_clusters (ap (λ x. x.create_bundle_func) e) (ap (λ x. x.predicate) e)
        | inr h4 ↦ cc
      ]
    ]
  ]
]

module _ {L H : Type 0} (keys : MsgKeys) (levels : Levels L)
    (managed clusters_per_policy compliance minimal : H) where
  abbrev pub handlers : ConflationManager H
  handlers = setup managed clusters_per_policy compliance minimal (new_conflation_manager [])

  -- Each bundle that the transport creates has a handler of its own type: for every registration
  -- that `Setup` leaves in the transport, whatever the message keys, the conflation manager has a
  -- registration with the type of the bundle that its function creates.
  pub setup_transport-handled :
      (m : String) (r : BundleRegistration L)
      → lookup m (setup_transport keys levels []) ≡ some r
      → (c : ConflationRegistration H) × Memᴰ c handlers.registrations
        × (c.bundle_type ≡ get_bundle_type r.create_bundle_func)
  unfolding setup register new_conflation_manager new_conflation_registration with_dependency
  setup_transport-handled m r h = elim (setup_transport-IsRegistered keys levels m r h) [
    | of_managed_clusters e _ ↦ (_, Memᴰ.head refl, ap get_bundle_type e)
    | of_clusters_per_policy e _ ↦ (_, Memᴰ.tail (Memᴰ.head refl), ap get_bundle_type e)
    | of_compliance e _ ↦ (_, Memᴰ.tail (Memᴰ.tail (Memᴰ.head refl)), ap get_bundle_type e)
    | of_minimal_compliance e _ ↦
        (_, Memᴰ.tail (Memᴰ.tail (Memᴰ.tail (Memᴰ.head refl))), ap get_bundle_type e)
  ]

-- Go's comparison of the levels, which are two different constants.
pub record IsLevels {L : Type 0} (levels : Levels L) : Type 0 where
  pub same_iff : (a b : L) → (levels.same_level a b ≡ true) ↔ (a ≡ b)
  pub different : levels.same_level levels.full levels.minimal ≡ false

-- The aggregation that a bundle belongs to: full, or else minimal; none for managed clusters.
abbrev pub is_full : Bundle → Option Bool
is_full (managed_clusters b) = none
is_full (clusters_per_policy_list b) = some true
is_full (compliance_status b) = some true
is_full (minimal_compliance_status b) = some false

module _ {L : Type 0} (levels : Levels L) (laws : IsLevels levels) (keys : MsgKeys)
    (config : Config L) where
  -- The predicate of a registration for a policy bundle, in that configuration.
  predicate_level :
      (m : String) (r : BundleRegistration L) (full : Bool)
      → lookup m (setup_transport keys levels []) ≡ some r
      → is_full r.create_bundle_func ≡ some full
      → r.predicate config
        ≡ levels.same_level config.aggregation_level (if full then levels.full else levels.minimal)
  unfolding full_status_predicate minimal_status_predicate new_managed_clusters_status_bundle
      new_clusters_per_policy_bundle new_compliance_status_bundle
      new_minimal_compliance_status_bundle
  predicate_level m r full h belongs =
      let same : Bool → Bool = λ f.
        levels.same_level config.aggregation_level (if f then levels.full else levels.minimal) in
      elim (setup_transport-IsRegistered keys levels m r h) [
        | of_managed_clusters e p ↦ absurd (cc (ap is_full e, belongs))
        | of_clusters_per_policy e p ↦
            sym (ap (λ q. q config) p) ∙ ap same (some-injective true full (ap is_full e ∙ belongs))
        | of_compliance e p ↦
            sym (ap (λ q. q config) p) ∙ ap same (some-injective true full (ap is_full e ∙ belongs))
        | of_minimal_compliance e p ↦
            sym (ap (λ q. q config) p)
            ∙ ap same (some-injective false full (ap is_full e ∙ belongs))
      ]

  pub level_iff :
      (m : String) (r : BundleRegistration L) (full : Bool)
      → lookup m (setup_transport keys levels []) ≡ some r
      → is_full r.create_bundle_func ≡ some full
      → (r.predicate config ≡ true)
        ↔ (config.aggregation_level ≡ (if full then levels.full else levels.minimal))
  level_iff m r full h belongs =
      let e = predicate_level m r full h belongs in
      let (there, back) =
        laws.same_iff config.aggregation_level (if full then levels.full else levels.minimal) in
      (λ enabled. there (sym e ∙ enabled), λ level. e ∙ back level)

  not_both :
      {A : Type 0}
      → config.aggregation_level ≡ levels.full
      → config.aggregation_level ≡ levels.minimal
      → A
  not_both e e' =
      absurd (cc (laws.different, (laws.same_iff levels.full levels.minimal).1 (sym e ∙ e')))

  same_aggregation :
      (full full' : Bool)
      → config.aggregation_level ≡ (if full then levels.full else levels.minimal)
      → config.aggregation_level ≡ (if full' then levels.full else levels.minimal)
      → full ≡ full'
  same_aggregation true true e e' = refl
  same_aggregation true false e e' = not_both e e'
  same_aggregation false true e e' = not_both e' e
  same_aggregation false false e e' = refl

  -- In no configuration are two policy bundles of different aggregations let through: if the
  -- predicates of two registrations that `Setup` leaves in the transport both hold, and both create
  -- policy bundles, these are both of the full aggregation or both of the minimal one; given that
  -- the two levels differ.
  pub setup_transport-exclusive :
      (m m' : String) (r r' : BundleRegistration L) (full full' : Bool)
      → lookup m (setup_transport keys levels []) ≡ some r
      → lookup m' (setup_transport keys levels []) ≡ some r'
      → r.predicate config ≡ true
      → r'.predicate config ≡ true
      → is_full r.create_bundle_func ≡ some full
      → is_full r'.create_bundle_func ≡ some full'
      → full ≡ full'
  setup_transport-exclusive m m' r r' full full' h h' e e' b b' =
      let at = (level_iff m r full h b).0 e in
      let at' = (level_iff m' r' full' h' b').0 e' in same_aggregation full full' at at'
