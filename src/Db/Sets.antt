-- ===== src/Db/Sets.antt =====
-- The sets of github.com/deckarep/golang-set, as far as pkg/db and pkg/dbsyncer use them on texts:
-- an interface, since that package is not part of the repository.
use hub_of_hubs_status_trans.Base.{
  ◌≡◌, Bool, false, ◌||◌, String, List, if◌then◌else◌, str_eq, elem, IsDistinct,
}

-- `elements` is the order in which `Each` and `ToSlice` give the elements.
pub record Sets (S : Type 0) : Type 0 where
  pub new_set : S
  pub contains : String → S → Bool
  pub add : String → S → S
  pub remove : String → S → S
  pub union : S → S → S
  pub elements : S → List String

-- What the methods of the package are documented to do.
pub record IsSets {S : Type 0} (sets : Sets S) : Type 0 where
  pub contains-new_set : (x : String) → sets.contains x sets.new_set ≡ false
  pub contains-add :
      (x y : String) (s : S) → sets.contains x (sets.add y s) ≡ (str_eq y x || sets.contains x s)
  pub contains-remove :
      (x y : String) (s : S)
      → sets.contains x (sets.remove y s) ≡ (if str_eq y x then false else sets.contains x s)
  pub contains-union :
      (x : String) (s r : S)
      → sets.contains x (sets.union s r) ≡ (sets.contains x s || sets.contains x r)
  pub elem-elements : (x : String) (s : S) → elem x (sets.elements s) ≡ sets.contains x s
  pub elements-IsDistinct : (s : S) → IsDistinct (sets.elements s)
