-- ===== src/DbSyncer/Policies/Relevance.antt =====
-- What handleClustersPerPolicyBundle asks of the compliance table.
use hub_of_hubs_status_trans.Base.{
  ◌≡◌, refl, ap, String, true, false, List, [], ◌∷◌, map, none, some, if◌then◌else◌, str_eq, eq_iff,
  arith, elem, IsDistinct, Bool-cases, inl, inr, ◌∙◌, subst, sym, is_some, or_else,
}
use hub_of_hubs_status_trans.Bundle.{ClustersPerPolicy}
use hub_of_hubs_status_trans.Db.Sets.{Sets, IsSets}
use hub_of_hubs_status_trans.Db.Policies.{
  unknown, delete_cluster_status, Rows, perform, perform_all, perform_all-append,
}
use hub_of_hubs_status_trans.DbSyncer.Policies.{
  insert_cluster, insert_clusters, handle_cluster_per_policy,
}

module _ {S : Type 0} (sets : Sets S) (laws : IsSets sets) (p : String) where
  insert_cluster-own :
      (c : String) (s : S) (t : Rows)
      → sets.contains c s ≡ is_some (t p c)
      → (perform_all (insert_cluster sets p c s).0 t p c ≡ some (or_else (t p c) unknown))
        × (sets.contains c (insert_cluster sets p c s).1 ≡ false)
  unfolding insert_cluster
  insert_cluster-own c s t agree =
      ground (arith, eq_iff p p, eq_iff c c, laws.contains-remove c c s)

  insert_cluster-other :
      (c n : String) (s : S) (t : Rows)
      → str_eq c n ≡ false
      → (perform_all (insert_cluster sets p c s).0 t p n ≡ t p n)
        × (sets.contains n (insert_cluster sets p c s).1 ≡ sets.contains n s)
  unfolding insert_cluster
  insert_cluster-other c n s t ne = ground (arith, laws.contains-remove n c s)

  perform_all-insert_clusters :
      (c : String) (cs : List String) (s : S) (t : Rows) (n : String)
      → perform_all (insert_clusters sets p (c ∷ cs) s).0 t p n
        ≡ perform_all
            (insert_clusters sets p cs (insert_cluster sets p c s).1).0
            (perform_all (insert_cluster sets p c s).0 t)
            p
            n
  unfolding insert_clusters
  perform_all-insert_clusters c cs s t n =
      ap (λ f. f p n)
        (perform_all-append (insert_cluster sets p c s).0
          (insert_clusters sets p cs (insert_cluster sets p c s).1).0 t)

  -- A cluster that the bundle does not list for the policy.
  insert_clusters-absent :
      (cs : List String) (s : S) (t : Rows) (n : String)
      → elem n cs ≡ false
      → (perform_all (insert_clusters sets p cs s).0 t p n ≡ t p n)
        × (sets.contains n (insert_clusters sets p cs s).1 ≡ sets.contains n s)
  unfolding insert_clusters
  insert_clusters-absent [] s t n h = (refl, refl)
  insert_clusters-absent (c ∷ cs) s t n h =
      let (calls, left) = insert_cluster-other c n s t (ground arith) in
      let (more, rest) =
        insert_clusters-absent cs (insert_cluster sets p c s).1
          (perform_all (insert_cluster sets p c s).0 t) n (ground arith) in
      (perform_all-insert_clusters c cs s t n ∙ more ∙ calls, rest ∙ left)

  insert_clusters-present :
      (cs : List String) (s : S) (t : Rows) (n : String)
      → IsDistinct cs
      → elem n cs ≡ true
      → sets.contains n s ≡ is_some (t p n)
      → (perform_all (insert_clusters sets p cs s).0 t p n ≡ some (or_else (t p n) unknown))
        × (sets.contains n (insert_clusters sets p cs s).1 ≡ false)
  unfolding insert_clusters
  insert_clusters-present [] s t n distinct h agree = cc
  insert_clusters-present (c ∷ cs) s t n distinct h agree = elim (Bool-cases (str_eq c n)) [
    | inl own ↦
        let eq : c ≡ n = (eq_iff c n).0 own in
        let (calls, left) =
          subst
            (λ m.
              (perform_all (insert_cluster sets p c s).0 t p m ≡ some (or_else (t p m) unknown))
              × (sets.contains m (insert_cluster sets p c s).1 ≡ false))
            eq
            (insert_cluster-own c s t
              (subst (λ m. sets.contains m s ≡ is_some (t p m)) (sym eq) agree)) in
        let (more, rest) =
          insert_clusters-absent cs (insert_cluster sets p c s).1
            (perform_all (insert_cluster sets p c s).0 t) n
            (subst (λ m. elem m cs ≡ false) eq distinct.0) in
        (perform_all-insert_clusters c cs s t n ∙ more ∙ calls, rest ∙ left)
    | inr other ↦
        let (calls, left) = insert_cluster-other c n s t other in
        let (more, rest) =
          insert_clusters-present cs (insert_cluster sets p c s).1
            (perform_all (insert_cluster sets p c s).0 t) n distinct.1 (ground arith)
            (left ∙ agree ∙ ap is_some (sym calls)) in
        (
          perform_all-insert_clusters c cs s t n ∙ more ∙ ap (λ x. some (or_else x unknown)) calls,
          rest,
        )
  ]

  perform_all-delete :
      (cs : List String) (t : Rows) (n : String)
      → perform_all (map (delete_cluster_status p) cs) t p n ≡ (if elem n cs then none else t p n)
  perform_all-delete [] t n = refl
  perform_all-delete (c ∷ cs) t n =
      ground (arith, eq_iff p p, perform_all-delete cs (perform (delete_cluster_status p c) t) n)

  insert_clusters-elsewhere :
      (cs : List String) (s : S) (t : Rows) (q n : String)
      → str_eq p q ≡ false
      → perform_all (insert_clusters sets p cs s).0 t q n ≡ t q n
  unfolding insert_clusters insert_cluster
  insert_clusters-elsewhere [] s t q n ne = refl
  insert_clusters-elsewhere (c ∷ cs) s t q n ne =
      ap (λ f. f q n)
        (perform_all-append (insert_cluster sets p c s).0
          (insert_clusters sets p cs (insert_cluster sets p c s).1).0 t)
      ∙ insert_clusters-elsewhere cs (insert_cluster sets p c s).1
          (perform_all (insert_cluster sets p c s).0 t) q n ne
      ∙ ground arith

  deletes-elsewhere :
      (cs : List String) (t : Rows) (q n : String)
      → str_eq p q ≡ false
      → perform_all (map (delete_cluster_status p) cs) t q n ≡ t q n
  deletes-elsewhere [] t q n ne = refl
  deletes-elsewhere (c ∷ cs) t q n ne =
      ground (arith, deletes-elsewhere cs (perform (delete_cluster_status p c) t) q n)

-- After the calls for one policy of a clusters-per-policy bundle, its rows are those of the clusters
-- that the bundle lists: a row that was there keeps its compliance, a new one is unknown, and all
-- others are gone; given that the bundle lists no cluster twice and that the set from the database
-- has the clusters with a row.
pub handle_cluster_per_policy-relevant :
    {S : Type 0} (sets : Sets S) (laws : IsSets sets) (policy : ClustersPerPolicy) (s : S)
    (t : Rows)
    → IsDistinct policy.clusters
    → ((n : String) → sets.contains n s ≡ is_some (t policy.policy_id n))
    → (n : String)
    → perform_all (handle_cluster_per_policy sets policy s) t policy.policy_id n
      ≡ (if elem n policy.clusters then some (or_else (t policy.policy_id n) unknown) else none)
unfolding handle_cluster_per_policy
handle_cluster_per_policy-relevant sets laws policy s t distinct agree n =
    let p = policy.policy_id in
    let (calls, left) = insert_clusters sets p policy.clusters s in
    ap (λ f. f p n)
      (perform_all-append calls (map (delete_cluster_status p) (sets.elements left)) t)
    ∙ perform_all-delete sets laws p (sets.elements left) (perform_all calls t) n
    ∙ elim (Bool-cases (elem n policy.clusters)) [
      | inl listed ↦
          let (a, b) =
            insert_clusters-present sets laws p policy.clusters s t n distinct listed (agree n) in
          ground (arith, a, b, laws.elem-elements n left)
      | inr missing ↦
          let (a, b) = insert_clusters-absent sets laws p policy.clusters s t n missing in
          ground (arith, a, b, agree n, laws.elem-elements n left)
    ]

pub handle_cluster_per_policy-elsewhere :
    {S : Type 0} (sets : Sets S) (laws : IsSets sets) (policy : ClustersPerPolicy) (s : S)
    (t : Rows) (q n : String)
    → str_eq policy.policy_id q ≡ false
    → perform_all (handle_cluster_per_policy sets policy s) t q n ≡ t q n
unfolding handle_cluster_per_policy
handle_cluster_per_policy-elsewhere sets laws policy s t q n ne =
    let p = policy.policy_id in
    let (calls, left) = insert_clusters sets p policy.clusters s in
    ap (λ f. f q n)
      (perform_all-append calls (map (delete_cluster_status p) (sets.elements left)) t)
    ∙ deletes-elsewhere sets laws p (sets.elements left) (perform_all calls t) q n ne
    ∙ insert_clusters-elsewhere sets laws p policy.clusters s t q n ne
