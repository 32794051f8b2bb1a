-- ===== src/Db/Touched.antt =====
-- Which rows of the policy table a call of a PoliciesBatchBuilder touches.
use mathlib.Core.List.{Permᴰ}
use hub_of_hubs_status_trans.Base.{
  ◌≤◌, ◌≡◌, refl, ap, sym, ◌∙◌, String, Bool, false, ◌&&◌, List, [], ◌∷◌, map, Option,
  if◌then◌else◌, str_eq, eq_iff, arith, elem, IsDistinct,
}
use hub_of_hubs_status_trans.Base.Rearranged.{touching, run, run-Perm}
use hub_of_hubs_status_trans.Db.Policies.{
  PoliciesCall, insert_row, update_policy_compliance, update_cluster_compliance, delete_policy,
  delete_cluster_status, Rows, perform, perform_all,
}

-- The row of the cluster `n` for the policy `p`.
abbrev pub touches : String → String → PoliciesCall → Bool
touches p n (insert_row q c message v) = str_eq q p && str_eq c n
touches p n (update_policy_compliance q v) = str_eq q p
touches p n (update_cluster_compliance q c v) = str_eq q p && str_eq c n
touches p n (delete_policy q) = str_eq q p
touches p n (delete_cluster_status q c) = str_eq q p && str_eq c n

-- What a call makes of that row.
abbrev act : String → String → PoliciesCall → Option String → Option String
act p n call row = perform call (λ q m. row) p n

act-untouched :
    (p n : String) (c : PoliciesCall) (row : Option String)
    → touches p n c ≡ false
    → act p n c row ≡ row
act-untouched p n (insert_row q c message v) row h = ground arith
act-untouched p n (update_policy_compliance q v) row h = ground arith
act-untouched p n (update_cluster_compliance q c v) row h = ground arith
act-untouched p n (delete_policy q) row h = ground arith
act-untouched p n (delete_cluster_status q c) row h = ground arith

perform-act : (p n : String) (c : PoliciesCall) (t : Rows) → perform c t p n ≡ act p n c (t p n)
perform-act p n (insert_row q c message v) t = refl
perform-act p n (update_policy_compliance q v) t = refl
perform-act p n (update_cluster_compliance q c v) t = refl
perform-act p n (delete_policy q) t = refl
perform-act p n (delete_cluster_status q c) t = refl

perform_all-run :
    (p n : String) (calls : List PoliciesCall) (t : Rows)
    → perform_all calls t p n ≡ run (touches p n) (act p n) (act-untouched p n) calls (t p n)
perform_all-run p n [] t = refl
perform_all-run p n (c ∷ calls) t =
    perform_all-run p n calls (perform c t)
    ∙ ap (run (touches p n) (act p n) (act-untouched p n) calls) (perform-act p n c t)

-- Calls of which at most one touches a row can be rearranged, as far as that row goes.
pub perform_all-Perm :
    (p n : String) (calls calls' : List PoliciesCall) (t : Rows)
    → Permᴰ calls calls'
    → touching (touches p n) calls ≤ 1
    → perform_all calls' t p n ≡ perform_all calls t p n
perform_all-Perm p n calls calls' t order once =
    perform_all-run p n calls' t
    ∙ sym (run-Perm (touches p n) (act p n) (act-untouched p n) (t p n) order once)
    ∙ sym (perform_all-run p n calls t)

-- One call for each of some clusters of a policy.
module _ (call : String → String → PoliciesCall)
    (at_row : (q c p n : String) → touches p n (call q c) ≡ str_eq q p && str_eq c n) where
  pub touching-clusters :
      (q : String) (cs : List String) (p n : String)
      → IsDistinct cs
      → touching (touches p n) (map (call q) cs) ≡ (if str_eq q p && elem n cs then 1 else 0)
  touching-clusters q [] p n distinct = ground arith
  touching-clusters q (c ∷ cs) p n distinct =
      ground (arith, at_row q c p n, touching-clusters q cs p n distinct.1, distinct.0, eq_iff c n)

-- One call for each of some policies.
module _ (call : String → PoliciesCall)
    (at_policy : (q p n : String) → touches p n (call q) ≡ str_eq q p) where
  pub touching-policies :
      (ps : List String) (p n : String)
      → IsDistinct ps
      → touching (touches p n) (map call ps) ≡ (if elem p ps then 1 else 0)
  touching-policies [] p n distinct = refl
  touching-policies (q ∷ ps) p n distinct =
      ground (arith, at_policy q p n, touching-policies ps p n distinct.1, distinct.0, eq_iff q p)
