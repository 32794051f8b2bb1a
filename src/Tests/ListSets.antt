-- ===== src/Tests/ListSets.antt =====
-- Sets of texts kept as lists: an instance of the interface of the imported sets.
use hub_of_hubs_status_trans.Base.{
  ◌≡◌, refl, String, false, ◌||◌, List, [], ◌∷◌, ◌++◌, if◌then◌else◌, str_eq, eq_iff, arith, elem,
  IsDistinct, Bool-cases, inl, inr,
}
use hub_of_hubs_status_trans.Db.Sets.{Sets, IsSets}

unfoldable pub without : String → List String → List String
without x [] = []
without x (y ∷ ys) = if str_eq x y then without x ys else y ∷ without x ys

-- Each element once.
abbrev once : List String → List String
once [] = []
once (x ∷ xs) = if elem x (once xs) then once xs else x ∷ once xs

elem-once : (x : String) (s : List String) → elem x (once s) ≡ elem x s
elem-once x [] = refl
elem-once x (y ∷ s) = ground (arith, elem-once x s, elem-once y s, eq_iff y x)

once-IsDistinct : (s : List String) → IsDistinct (once s)
once-IsDistinct [] = tt
once-IsDistinct (x ∷ xs) = elim (Bool-cases (elem x (once xs))) [
  | inl listed ↦ rw listed (once-IsDistinct xs)
  | inr new ↦ rw new (new, once-IsDistinct xs)
]

abbrev pub lists : Sets (List String)
lists = record {
  new_set = [];
  contains = elem;
  add = ◌∷◌;
  remove = without;
  union = ◌++◌;
  elements = once;
}

elem-without :
    (x y : String) (s : List String)
    → elem x (without y s) ≡ (if str_eq y x then false else elem x s)
unfolding without
elem-without x y [] = ground arith
elem-without x y (z ∷ s) =
    ground (arith, elem-without x y s, eq_iff x y, eq_iff y x, eq_iff y z, eq_iff z x)

elem-append : (x : String) (s r : List String) → elem x (s ++ r) ≡ (elem x s || elem x r)
elem-append x [] r = refl
elem-append x (y ∷ s) r = ground (arith, elem-append x s r)

pub lists-IsSets : IsSets lists
lists-IsSets = record {
  contains-new_set = λ x. refl;
  contains-add = λ x y s. ground arith;
  contains-remove = elem-without;
  contains-union = elem-append;
  elem-elements = elem-once;
  elements-IsDistinct = once-IsDistinct;
}
