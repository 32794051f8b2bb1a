-- ===== src/Postgresql/Queries.antt =====
-- What the loops over query rows of postgresql.go make of the rows.
use hub_of_hubs_status_trans.Base.{
  ◌≡◌, refl, ◌∙◌, String, Bool, false, ◌&&◌, ◌||◌, List, [], ◌∷◌, Option, none, some, or_else,
  if◌then◌else◌, str_eq, eq_iff, arith, lookup, assign, lookup-assign, inl, inr, elem, subst, sym,
  Bool-cases,
}
use hub_of_hubs_status_trans.Db.{Fetched, rows, failed}
use hub_of_hubs_status_trans.Db.Sets.{Sets, IsSets}
use hub_of_hubs_status_trans.Db.Policies.{
  non_compliant, unknown, NonCompliantClusterSets, new_non_compliant_cluster_sets,
  add_non_compliant_cluster, add_unknown_cluster,
}
use hub_of_hubs_status_trans.Postgresql.{
  Scanned, scanned, unreadable, read_managed_clusters, read_compliance, add_row, read_non_compliant,
  read_policy_ids,
}

-- The rows, if all of them can be read.
abbrev pub readable {ℓ} : {A : Type ℓ} → List (Scanned A) → Option (List A)
readable [] = some []
readable (unreadable message ∷ rs) = none
readable (scanned a ∷ rs) = elim (readable rs) [ none ↦ none | some xs ↦ some (a ∷ xs) ]

-- The outcome of a loop over rows: a result that suits the rows, or, if one of them cannot be read,
-- an error.
pub data Reads {A B : Type 0} (rs : List (Scanned A)) (f : Fetched B) (Suits : List A → B → Type 0)
    : Type 0 where
  complete :
      (xs : List A) (b : B) → readable rs ≡ some xs → f ≡ rows b → Suits xs b → Reads rs f Suits
  broken : (message : String) → readable rs ≡ none → f ≡ failed message → Reads rs f Suits

-- One more row in front.
Reads-cons :
    {A B : Type 0} (a : A) (rs : List (Scanned A)) (f : Fetched B)
    (Suits Suits' : List A → B → Type 0)
    → ((xs : List A) (b : B) → Suits xs b → Suits' (a ∷ xs) b)
    → Reads rs f Suits
    → Reads (scanned a ∷ rs) f Suits'
Reads-cons a rs f Suits Suits' step (complete xs b all e good) =
    complete (a ∷ xs) b (rw all) e (step xs b good)
Reads-cons a rs f Suits Suits' step (broken message all e) = broken message (rw all) e

pub Reads-suits :
    {A B : Type 0} {rs : List (Scanned A)} {f : Fetched B} {Suits Suits' : List A → B → Type 0}
    → ((xs : List A) (b : B) → Suits xs b → Suits' xs b)
    → Reads rs f Suits
    → Reads rs f Suits'
Reads-suits step (complete xs b all e good) = complete xs b all e (step xs b good)
Reads-suits step (broken message all e) = broken message all e

-- The version of a cluster in the last row that has its name.
abbrev pub last_version : String → List (String × String) → Option String
last_version n [] = none
last_version n ((c, v) ∷ xs) = elim (last_version n xs) [
  | some w ↦ some w
  | none ↦ if str_eq c n then some v else none
]

abbrev later : Option String → Option String → Option String
later none old = old
later (some new) old = some new

pub read_managed_clusters-Reads :
    (schema table_name : String) (rs : List (Scanned (String × String)))
    (result : List (String × String))
    → Reads rs
        (read_managed_clusters schema table_name rs result)
        (λ xs b. (n : String) → lookup n b ≡ later (last_version n xs) (lookup n result))
unfolding read_managed_clusters
read_managed_clusters-Reads schema table_name [] result = complete [] result refl refl (λ n. refl)
read_managed_clusters-Reads schema table_name (unreadable message ∷ rs) result = broken _ refl refl
read_managed_clusters-Reads schema table_name (scanned (c, v) ∷ rs) result =
    Reads-cons (c, v) rs _ _ _ (λ xs b good n. good n ∙ ground (arith, lookup-assign c n v result))
      (read_managed_clusters-Reads schema table_name rs (assign c v result))

-- Whether the rows have that policy and that cluster.
abbrev pub listed : String → String → List (String × String) → Bool
listed p n [] = false
listed p n ((q, c) ∷ xs) = (str_eq q p && str_eq c n) || listed p n xs

-- Whether the rows have that policy, that cluster and that compliance.
abbrev pub has_row : String → String → String → List (String × (String × String)) → Bool
has_row p n v [] = false
has_row p n v ((q, (c, w)) ∷ xs) = (str_eq q p && (str_eq c n && str_eq w v)) || has_row p n v xs

module _ {S : Type 0} (sets : Sets S) (laws : IsSets sets) where
  pub read_compliance-Reads :
      (rs : List (Scanned (String × String))) (result : List (String × S))
      → Reads rs (read_compliance sets rs result) (λ xs b.
        (p n : String)
        → sets.contains n (or_else (lookup p b) sets.new_set)
          ≡ (listed p n xs || sets.contains n (or_else (lookup p result) sets.new_set)))
  unfolding read_compliance
  read_compliance-Reads [] result = complete [] result refl refl (λ p n. refl)
  read_compliance-Reads (unreadable message ∷ rs) result = broken _ refl refl
  read_compliance-Reads (scanned (q, c) ∷ rs) result =
      let old = or_else (lookup q result) sets.new_set in
      Reads-cons (q, c) rs _ _ _
        (λ xs b good p n.
          good p n
          ∙ ground (
            arith,
            lookup-assign q p (sets.add c old) result,
            laws.contains-add n c old,
            eq_iff q p,
          ))
        (read_compliance-Reads rs (assign q (sets.add c old) result))

  abbrev pub found_in :
      String → List (String × NonCompliantClusterSets S) → NonCompliantClusterSets S
  found_in p result = or_else (lookup p result) (new_non_compliant_cluster_sets sets)

  add_row-contains :
      (c w n : String) (s : NonCompliantClusterSets S)
      → (sets.contains n (add_row sets c w s).non_compliant_clusters
          ≡ ((str_eq c n && str_eq w non_compliant) || sets.contains n s.non_compliant_clusters))
        × (sets.contains n (add_row sets c w s).unknown_clusters
            ≡ ((str_eq c n && str_eq w unknown) || sets.contains n s.unknown_clusters))
  unfolding add_row add_non_compliant_cluster add_unknown_cluster
  add_row-contains c w n s = elim (Bool-cases (str_eq w non_compliant)) [
    | inl e ↦
        subst
          (λ v.
            (sets.contains n (add_row sets c v s).non_compliant_clusters ≡ (
              (str_eq c n && str_eq v non_compliant) || sets.contains n s.non_compliant_clusters))
            × (sets.contains n (add_row sets c v s).unknown_clusters
                ≡ ((str_eq c n && str_eq v unknown) || sets.contains n s.unknown_clusters)))
          (sym ((eq_iff w non_compliant).0 e))
          (ground (arith, laws.contains-add n c s.non_compliant_clusters))
    | inr e ↦ ground (arith, laws.contains-add n c s.unknown_clusters)
  ]

  pub read_non_compliant-Reads :
      (rs : List (Scanned (String × (String × String))))
      (result : List (String × NonCompliantClusterSets S))
      → Reads rs (read_non_compliant sets rs result) (λ xs b.
        (p n : String)
        → (sets.contains n (found_in p b).non_compliant_clusters ≡ (
            has_row p n non_compliant xs
            || sets.contains n (found_in p result).non_compliant_clusters))
          × (sets.contains n (found_in p b).unknown_clusters
              ≡ (has_row p n unknown xs || sets.contains n (found_in p result).unknown_clusters)))
  unfolding read_non_compliant
  read_non_compliant-Reads [] result = complete [] result refl refl (λ p n. (refl, refl))
  read_non_compliant-Reads (unreadable message ∷ rs) result = broken _ refl refl
  read_non_compliant-Reads (scanned (q, (c, w)) ∷ rs) result =
      let new = add_row sets c w (found_in q result) in
      Reads-cons (q, (c, w)) rs _ _ _
        (λ xs b good p n.
          let (x, y) = good p n in
          let (u, v) = add_row-contains c w n (found_in q result) in
          let at = lookup-assign q p new result in
          (x ∙ ground (arith, at, u, eq_iff q p), y ∙ ground (arith, at, v, eq_iff q p)))
        (read_non_compliant-Reads rs (assign q new result))

  pub read_policy_ids-Reads :
      (table_name : String) (rs : List (Scanned String)) (result : S)
      → Reads rs
          (read_policy_ids sets table_name rs result)
          (λ xs b. (p : String) → sets.contains p b ≡ (elem p xs || sets.contains p result))
  unfolding read_policy_ids
  read_policy_ids-Reads table_name [] result = complete [] result refl refl (λ p. refl)
  read_policy_ids-Reads table_name (unreadable message ∷ rs) result = broken _ refl refl
  read_policy_ids-Reads table_name (scanned q ∷ rs) result =
      Reads-cons q rs _ _ _ (λ xs b good p. good p ∙ ground (arith, laws.contains-add p q result))
        (read_policy_ids-Reads table_name rs (sets.add q result))
