-- ===== src/DbSyncer/Policies/Compliance.antt =====
-- What handleComplianceBundle asks of the compliance table.
use hub_of_hubs_status_trans.Base.{
  ◌≡◌, refl, ap, String, Bool, true, false, not, ◌&&◌, ◌||◌, List, [], ◌∷◌, ◌++◌, map, Option, none,
  some, if◌then◌else◌, str_eq, eq_iff, arith, elem, inl, inr, ◌∙◌, ◌⊎◌,
}
use hub_of_hubs_status_trans.Bundle.{PolicyComplianceStatus}
use hub_of_hubs_status_trans.Db.Sets.{Sets, IsSets}
use hub_of_hubs_status_trans.Db.Policies.{
  compliant, non_compliant, unknown, PoliciesCall, update_cluster_compliance, Rows, replaced,
  perform, perform_all, perform_all-append,
}
use hub_of_hubs_status_trans.DbSyncer.Policies.{update_clusters, handle_policy_compliance_status}

-- Whether a row has that compliance.
abbrev pub has_state : String → Option String → Bool
has_state v none = false
has_state v (some w) = str_eq w v

-- A row of the table has one of the three compliance states.
abbrev pub IsState : Option String → Type 0
IsState none = Unit {0}
IsState (some v) = (v ≡ compliant) ⊎ (v ≡ non_compliant) ⊎ (v ≡ unknown)

-- What a bundle's entry says of a cluster: those that it does not list are compliant.
abbrev pub reported : PolicyComplianceStatus → String → String
reported status n =
    if elem n status.non_compliant_clusters
    then non_compliant
    else (if elem n status.unknown_compliance_clusters then unknown else compliant)

-- A row after the two loops and the last one: `b` and `c` tell whether its cluster is listed non
-- compliant and unknown.
abbrev first_pass : Bool → Option String → Option String
first_pass b row =
    if b && not (has_state non_compliant row) then replaced non_compliant row else row

abbrev second_pass : Bool → Bool → Option String → Option String
second_pass b c row =
    if c && not (has_state unknown row)
    then replaced unknown (first_pass b row)
    else first_pass b row

abbrev is_left : Bool → Bool → Option String → Bool
is_left b c row =
    if c
    then false
    else (if b then false else (has_state non_compliant row || has_state unknown row))

settled :
    (row : Option String) (b c : Bool)
    → IsState row
    → b && c ≡ false
    → (if is_left b c row then replaced compliant (second_pass b c row) else second_pass b c row)
      ≡ replaced (if b then non_compliant else (if c then unknown else compliant)) row
settled none b c state disjoint = ground arith
settled (some v) true true state disjoint = cc
settled (some v) b c (inl e) disjoint =
    ground (arith, e, eq_iff v compliant, eq_iff v non_compliant, eq_iff v unknown)
settled (some v) b c (inr (inl e)) disjoint =
    ground (arith, e, eq_iff v compliant, eq_iff v non_compliant, eq_iff v unknown)
settled (some v) b c (inr (inr e)) disjoint =
    ground (arith, e, eq_iff v compliant, eq_iff v non_compliant, eq_iff v unknown)

module _ {S : Type 0} (sets : Sets S) (laws : IsSets sets) (p : String) where
  update_clusters-rows :
      (v : String) (in_db : S) (cs : List String) (s : S) (t : Rows) (n : String)
      → perform_all (update_clusters sets p v in_db cs s).0 t p n
        ≡ (if elem n cs && not (sets.contains n in_db) then replaced v (t p n) else t p n)
  unfolding update_clusters
  update_clusters-rows v in_db [] s t n = refl
  update_clusters-rows v in_db (c ∷ cs) s t n =
      let calls : List PoliciesCall =
        (if sets.contains c in_db then [] else update_cluster_compliance p c v ∷ []) in
      let rest = update_clusters sets p v in_db cs (sets.remove c s) in
      ap (λ f. f p n) (perform_all-append calls rest.0 t)
      ∙ update_clusters-rows v in_db cs (sets.remove c s) (perform_all calls t) n
      ∙ ground (arith, eq_iff p p, eq_iff c n)

  update_clusters-left :
      (v : String) (in_db : S) (cs : List String) (s : S) (n : String)
      → sets.contains n (update_clusters sets p v in_db cs s).1
        ≡ (if elem n cs then false else sets.contains n s)
  unfolding update_clusters
  update_clusters-left v in_db [] s n = refl
  update_clusters-left v in_db (c ∷ cs) s n =
      ground
        (arith, update_clusters-left v in_db cs (sets.remove c s) n, laws.contains-remove n c s)

  set_compliant :
      (cs : List String) (t : Rows) (n : String)
      → perform_all (map (λ c. update_cluster_compliance p c compliant) cs) t p n
        ≡ (if elem n cs then replaced compliant (t p n) else t p n)
  set_compliant [] t n = refl
  set_compliant (c ∷ cs) t n =
      ground (
        arith,
        eq_iff p p,
        set_compliant cs (perform (update_cluster_compliance p c compliant) t) n,
      )

  update_clusters-elsewhere :
      (v : String) (in_db : S) (cs : List String) (s : S) (t : Rows) (q n : String)
      → str_eq p q ≡ false
      → perform_all (update_clusters sets p v in_db cs s).0 t q n ≡ t q n
  unfolding update_clusters
  update_clusters-elsewhere v in_db [] s t q n ne = refl
  update_clusters-elsewhere v in_db (c ∷ cs) s t q n ne =
      let calls : List PoliciesCall =
        (if sets.contains c in_db then [] else update_cluster_compliance p c v ∷ []) in
      let rest = update_clusters sets p v in_db cs (sets.remove c s) in
      ap (λ f. f q n) (perform_all-append calls rest.0 t)
      ∙ update_clusters-elsewhere v in_db cs (sets.remove c s) (perform_all calls t) q n ne
      ∙ ground arith

  set_compliant-elsewhere :
      (cs : List String) (t : Rows) (q n : String)
      → str_eq p q ≡ false
      → perform_all (map (λ c. update_cluster_compliance p c compliant) cs) t q n ≡ t q n
  set_compliant-elsewhere [] t q n ne = refl
  set_compliant-elsewhere (c ∷ cs) t q n ne =
      ground (
        arith,
        set_compliant-elsewhere cs (perform (update_cluster_compliance p c compliant) t) q n,
      )

-- After the calls for one entry of a compliance bundle, each row of its policy has the compliance
-- that the entry reports for its cluster, compliant if it lists the cluster nowhere, and no row is
-- added; given that the two sets are those of the rows found non compliant and unknown, that each row
-- has one of the three states, and that no cluster is listed both non compliant and unknown.
pub handle_policy_compliance_status-reported :
    {S : Type 0} (sets : Sets S) (laws : IsSets sets) (status : PolicyComplianceStatus)
    (non_compliant_from_db unknown_from_db : S) (t : Rows)
    → ((n : String)
        → sets.contains n non_compliant_from_db ≡ has_state non_compliant (t status.policy_id n))
    → ((n : String) → sets.contains n unknown_from_db ≡ has_state unknown (t status.policy_id n))
    → ((n : String) → IsState (t status.policy_id n))
    → ((n : String)
        → elem n status.non_compliant_clusters && elem n status.unknown_compliance_clusters ≡ false)
    → (n : String)
    → perform_all
        (handle_policy_compliance_status sets status non_compliant_from_db unknown_from_db)
        t
        status.policy_id
        n
      ≡ replaced (reported status n) (t status.policy_id n)
unfolding handle_policy_compliance_status
handle_policy_compliance_status-reported sets laws status nc unk t nc_agrees unk_agrees state
      disjoint n =
    let p = status.policy_id in
    let both = sets.union nc unk in
    let first = update_clusters sets p non_compliant nc status.non_compliant_clusters both in
    let second = update_clusters sets p unknown unk status.unknown_compliance_clusters first.1 in
    let last = map (λ c. update_cluster_compliance p c compliant) (sets.elements second.1) in
    ap (λ f. f p n) (perform_all-append (first.0 ++ second.0) last t)
    ∙ set_compliant sets laws p (sets.elements second.1) (perform_all (first.0 ++ second.0) t) n
    ∙ ground (
      arith,
      settled (t p n) (elem n status.non_compliant_clusters)
          (elem n status.unknown_compliance_clusters) (state n) (disjoint n),
      ap (λ f. f p n) (perform_all-append first.0 second.0 t),
      update_clusters-rows sets laws p non_compliant nc status.non_compliant_clusters both t n,
      update_clusters-rows sets laws p unknown unk status.unknown_compliance_clusters first.1
          (perform_all first.0 t) n,
      update_clusters-left sets laws p non_compliant nc status.non_compliant_clusters both n,
      update_clusters-left sets laws p unknown unk status.unknown_compliance_clusters first.1 n,
      laws.contains-union n nc unk,
      laws.elem-elements n second.1,
      nc_agrees n,
      unk_agrees n,
    )

pub handle_policy_compliance_status-elsewhere :
    {S : Type 0} (sets : Sets S) (laws : IsSets sets) (status : PolicyComplianceStatus) (nc unk : S)
    (t : Rows) (q n : String)
    → str_eq status.policy_id q ≡ false
    → perform_all (handle_policy_compliance_status sets status nc unk) t q n ≡ t q n
unfolding handle_policy_compliance_status
handle_policy_compliance_status-elsewhere sets laws status nc unk t q n ne =
    let p = status.policy_id in
    let first =
      update_clusters sets p non_compliant nc status.non_compliant_clusters (sets.union nc unk) in
    let second = update_clusters sets p unknown unk status.unknown_compliance_clusters first.1 in
    let last = map (λ c. update_cluster_compliance p c compliant) (sets.elements second.1) in
    ap (λ f. f q n) (perform_all-append (first.0 ++ second.0) last t)
    ∙ set_compliant-elsewhere sets laws p (sets.elements second.1)
        (perform_all (first.0 ++ second.0) t) q n ne
    ∙ ap (λ f. f q n) (perform_all-append first.0 second.0 t)
    ∙ update_clusters-elsewhere sets laws p unknown unk status.unknown_compliance_clusters first.1
        (perform_all first.0 t) q n ne
    ∙ update_clusters-elsewhere sets laws p non_compliant nc status.non_compliant_clusters
        (sets.union nc unk) t q n ne
