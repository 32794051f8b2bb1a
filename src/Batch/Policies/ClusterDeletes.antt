-- ===== src/Batch/Policies/ClusterDeletes.antt =====
-- The deletes of clusters of a policies batch: DeleteClusterStatus of policies_batch_builder.go.
use mathlib.Core.Option.{some-injective}
use mathlib.Core.List.{append-nil, append_assoc}
use hub_of_hubs_status_trans.Base.{
  ℕ, ◌-◌, ◌≡◌, refl, ap, sym, subst, ◌∙◌, true, String, List, [], ◌∷◌, ◌++◌, Option, none, some,
  or_else, arith, length, lookup, lookup-assign, keys, elem, elem-keys, if◌then◌else◌, str_eq,
  eq_iff, Bool-cases, Option-cases, inl, inr, suc,
}
use hub_of_hubs_status_trans.Db.Policies.{
  PoliciesCall, insert_row, update_policy_compliance, update_cluster_compliance, delete_policy,
  delete_cluster_status,
}
use hub_of_hubs_status_trans.Batch.{Statement, new_base_batch_builder}
use hub_of_hubs_status_trans.Batch
use hub_of_hubs_status_trans.Batch.Placeholders.{placeholders, numbers}
use hub_of_hubs_status_trans.Batch.Gathered.{ids-numbered}
use hub_of_hubs_status_trans.Batch.Policies.{
  PoliciesBatchBuilder, new_policies_batch_builder, update_cluster, delete_cluster, call, call_all,
  delete_args_of, generate_delete_cluster_compliance_statement, build_cluster_deletes, builder_of,
}

-- The clusters that the calls delete for a policy, in the order of the calls.
abbrev pub deleted : String → List PoliciesCall → List String
deleted p [] = []
deleted p (delete_cluster_status q c ∷ calls) =
    if str_eq q p then c ∷ deleted p calls else deleted p calls
deleted p (insert_row q c e v ∷ calls) = deleted p calls
deleted p (update_policy_compliance q v ∷ calls) = deleted p calls
deleted p (update_cluster_compliance q c v ∷ calls) = deleted p calls
deleted p (delete_policy q ∷ calls) = deleted p calls

-- What is gathered for a policy, once clusters are added to it.
abbrev pub gathered : String → String → Option (List String) → List String → Option (List String)
gathered hub p old [] = old
gathered hub p none (c ∷ cs) = some (hub ∷ p ∷ c ∷ cs)
gathered hub p (some args) (c ∷ cs) = some (args ++ (c ∷ cs))

gathered-cons :
    (hub p c : String) (old : Option (List String)) (cs : List String)
    → gathered hub p (some (or_else old (hub ∷ p ∷ []) ++ (c ∷ []))) cs
      ≡ gathered hub p old (c ∷ cs)
gathered-cons hub p c none [] = refl
gathered-cons hub p c none (d ∷ cs) = refl
gathered-cons hub p c (some args) [] = refl
gathered-cons hub p c (some args) (d ∷ cs) = ap some (append_assoc args (c ∷ []) (d ∷ cs))

gathered-append :
    (hub p : String) (old : Option (List String)) (xs ys : List String)
    → gathered hub p (gathered hub p old xs) ys ≡ gathered hub p old (xs ++ ys)
gathered-append hub p old [] ys = refl
gathered-append hub p none (x ∷ xs) [] = ap (λ r. some (hub ∷ p ∷ x ∷ r)) (sym (append-nil xs))
gathered-append hub p none (x ∷ xs) (y ∷ ys) = refl
gathered-append hub p (some args) (x ∷ xs) [] =
    ap (λ r. some (args ++ (x ∷ r))) (sym (append-nil xs))
gathered-append hub p (some args) (x ∷ xs) (y ∷ ys) = ap some (append_assoc args (x ∷ xs) (y ∷ ys))

deleted-cons :
    (p : String) (c : PoliciesCall) (calls : List PoliciesCall)
    → deleted p (c ∷ calls) ≡ deleted p (c ∷ []) ++ deleted p calls
deleted-cons p (insert_row q c e v) calls = refl
deleted-cons p (update_policy_compliance q v) calls = refl
deleted-cons p (update_cluster_compliance q c v) calls = refl
deleted-cons p (delete_policy q) calls = refl
deleted-cons p (delete_cluster_status q c) calls = ground arith

call-hub :
    (c : PoliciesCall) (b : PoliciesBatchBuilder)
    → (call c b).base.leaf_hub_name ≡ b.base.leaf_hub_name
unfolding call update_cluster delete_cluster Batch.insert Batch.update Batch.delete
call-hub (insert_row p c e v) b = ground arith
call-hub (update_policy_compliance p v) b = ground arith
call-hub (update_cluster_compliance p c v) b = ground arith
call-hub (delete_policy p) b = ground arith
call-hub (delete_cluster_status p c) b = refl

-- One call, as far as the deletes of clusters go.
call-gathered :
    (p : String) (c : PoliciesCall) (b : PoliciesBatchBuilder)
    → lookup p (call c b).delete_cluster_compliance_args
      ≡ gathered b.base.leaf_hub_name p
          (lookup p b.delete_cluster_compliance_args)
          (deleted p (c ∷ []))
unfolding call update_cluster delete_cluster
call-gathered p (insert_row q c e v) b = refl
call-gathered p (update_policy_compliance q v) b = refl
call-gathered p (update_cluster_compliance q c v) b = ground arith
call-gathered p (delete_policy q) b = refl
call-gathered p (delete_cluster_status q c) b =
    let m = b.delete_cluster_compliance_args in
    let hub = b.base.leaf_hub_name in
    let new = or_else (lookup q m) (hub ∷ q ∷ []) ++ (c ∷ []) in
    lookup-assign q p new m ∙ elim (Bool-cases (str_eq q p)) [
      | inl own ↦ rw own (
          subst (λ r. some new ≡ gathered hub r (lookup r m) (c ∷ [])) ((eq_iff q p).0 own)
            (gathered-cons hub q c (lookup q m) []))
      | inr other ↦ rw other refl
    ]

call_all-gathered :
    (p : String) (calls : List PoliciesCall) (b : PoliciesBatchBuilder)
    → lookup p (call_all calls b).delete_cluster_compliance_args
      ≡ gathered b.base.leaf_hub_name p
          (lookup p b.delete_cluster_compliance_args)
          (deleted p calls)
unfolding call_all
call_all-gathered p [] b = refl
call_all-gathered p (c ∷ calls) b =
    call_all-gathered p calls (call c b)
    ∙ ap (λ h. gathered h p (lookup p (call c b).delete_cluster_compliance_args) (deleted p calls))
        (call-hub c b)
    ∙ ap (λ o. gathered b.base.leaf_hub_name p o (deleted p calls)) (call-gathered p c b)
    ∙ gathered-append b.base.leaf_hub_name p (lookup p b.delete_cluster_compliance_args)
        (deleted p (c ∷ [])) (deleted p calls)
    ∙ ap (gathered b.base.leaf_hub_name p (lookup p b.delete_cluster_compliance_args))
        (sym (deleted-cons p c calls))

-- The arguments of one statement of deletes: none, or the leaf hub, the policy and the clusters.
abbrev pub delete_args : String → String → List String → List String
delete_args hub p [] = []
delete_args hub p (c ∷ cs) = hub ∷ p ∷ c ∷ cs

delete_args_lem :
    (hub p : String) (cs : List String) → or_else (gathered hub p none cs) [] ≡ delete_args hub p cs
delete_args_lem hub p [] = refl
delete_args_lem hub p (c ∷ cs) = refl

builder_of-gathered :
    (schema table_name leaf_hub_name : String) (calls : List PoliciesCall) (p : String)
    → lookup p (builder_of schema table_name leaf_hub_name calls).delete_cluster_compliance_args
      ≡ gathered leaf_hub_name p none (deleted p calls)
unfolding builder_of new_policies_batch_builder new_base_batch_builder lookup
builder_of-gathered schema table_name leaf_hub_name calls p =
    call_all-gathered p calls (new_policies_batch_builder schema table_name leaf_hub_name)

-- After any calls to a policies batch builder, what it has gathered for a policy is the leaf hub's
-- name, the policy's id and all clusters of the policy's DeleteClusterStatus calls in their order,
-- for one statement whatever their number; and nothing if there was no such call.
pub delete_args_of-builder_of :
    (schema table_name leaf_hub_name : String) (calls : List PoliciesCall) (p : String)
    → delete_args_of (builder_of schema table_name leaf_hub_name calls) p
      ≡ delete_args leaf_hub_name p (deleted p calls)
delete_args_of-builder_of schema table_name leaf_hub_name calls p =
    ap (λ o. or_else o []) (builder_of-gathered schema table_name leaf_hub_name calls p)
    ∙ delete_args_lem leaf_hub_name p (deleted p calls)

-- One placeholder for each argument.
abbrev pub AllNumbered : List (Statement String) → Type 0
AllNumbered [] = Unit {0}
AllNumbered (s ∷ ss) = (placeholders s.sql ≡ numbers 1 (length s.args)) × AllNumbered ss

-- A policy that is gathered for has the two arguments in front.
gathered_two :
    (hub p : String) (cs args : List String)
    → gathered hub p none cs ≡ some args
    → (n : ℕ) × (length args ≡ suc (suc n))
gathered_two hub p [] args h = cc
gathered_two hub p (c ∷ cs) args h = (suc (length cs), ap length (sym (some-injective _ _ h)))

cluster_delete-numbered :
    (b : PoliciesBatchBuilder) (p : String) (n : ℕ)
    → length (delete_args_of b p) ≡ suc (suc n)
    → placeholders (generate_delete_cluster_compliance_statement b p)
      ≡ numbers 1 (length (delete_args_of b p))
unfolding generate_delete_cluster_compliance_statement
cluster_delete-numbered b p n two =
    ap (λ r. 1 ∷ 2 ∷ r) (ids-numbered (length (delete_args_of b p) - 2) 3)
    ∙ ap (λ k. 1 ∷ 2 ∷ numbers 3 k) {x = length (delete_args_of b p) - 2} {y = n}
        (omega (arith, two))
    ∙ ap (numbers 1) (sym two)

build_cluster_deletes-AllNumbered :
    (b : PoliciesBatchBuilder) (ps : List String)
    → ((p : String) → elem p ps ≡ true → (n : ℕ) × (length (delete_args_of b p) ≡ suc (suc n)))
    → AllNumbered (build_cluster_deletes b ps)
unfolding build_cluster_deletes
build_cluster_deletes-AllNumbered b [] two = tt
build_cluster_deletes-AllNumbered b (p ∷ ps) two =
    let (n, e) = two p (ground (arith, eq_iff p p)) in
    (
      cluster_delete-numbered b p n e,
      build_cluster_deletes-AllNumbered b ps (λ q h. two q (ground arith)),
    )

-- Whatever calls are made to a policies batch builder, each of its statements that delete clusters
-- has the placeholders 1, 2 and so on in this order, one for each argument.
pub cluster_deletes-AllNumbered :
    (schema table_name leaf_hub_name : String) (calls : List PoliciesCall)
    → let b = builder_of schema table_name leaf_hub_name calls in
      AllNumbered (build_cluster_deletes b (keys b.delete_cluster_compliance_args))
cluster_deletes-AllNumbered schema table_name leaf_hub_name calls =
    let b = builder_of schema table_name leaf_hub_name calls in
    let m = b.delete_cluster_compliance_args in
    build_cluster_deletes-AllNumbered b (keys m) (λ p listed. elim (Option-cases (lookup p m)) [
      | inl missing ↦ absurd (ground (arith, elem-keys p m))
      | inr (args, found) ↦
          let (n, two) =
            gathered_two leaf_hub_name p (deleted p calls) args
              (sym (builder_of-gathered schema table_name leaf_hub_name calls p) ∙ found) in
          (n, ap (λ o. length (or_else o [])) found ∙ two)
    ])
