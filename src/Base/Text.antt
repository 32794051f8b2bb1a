-- ===== src/Base/Text.antt =====
-- `strings.Split` at a dot, and association lists keyed by texts, which stand for Go's maps.
use mathlib.Core.Logic.{inl, inr}
use Prim.Native.Char.{Char, code}
use Prim.Native.String.{String, ◌++◌ as str_append}
use Prim.Native.String.append
use mathlib.Core.Path.{◌≡◌, refl, ap, ◌∙◌}
use mathlib.Core.Bool.{Bool, true, false}
use mathlib.Core.List.{List, [], ◌∷◌}
use mathlib.Core.Option.{Option, none, some}
use native.Mathlib.Omega.{arith}
use text.Mathlib.Text.{◌==◌ as str_eq}
use text.Mathlib.TextEquality.{eq_iff}
use hub_of_hubs_status_trans.Base.Tests.{◌==◌, if◌then◌else◌, is_some, Bool-cases}

-- The pieces of a split: the first, which is always there, and the others.
abbrev pub Pieces : Type 0
Pieces = String × List String

add_char : Char → Pieces → Pieces
add_char c (w, ws) = (String.◌∷◌ c w, ws)

unfoldable pub split_dots : String → Pieces
unfolding add_char
split_dots String.[] = ("", [])
split_dots (String.◌∷◌ c s) =
    let (w, ws) = split_dots s in if code c == b'.' then ("", w ∷ ws) else add_char c (w, ws)

abbrev pub last_piece : String → List String → String
last_piece w [] = w
last_piece w (v ∷ vs) = last_piece v vs

module _ {ℓ} {V : Type ℓ} where
  unfoldable pub lookup : String → List (String × V) → Option V
  lookup k [] = none
  lookup k ((j, v) ∷ m) = if str_eq j k then some v else lookup k m

  unfoldable pub assign : String → V → List (String × V) → List (String × V)
  assign k v [] = (k, v) ∷ []
  assign k v ((j, w) ∷ m) = if str_eq j k then (k, v) ∷ m else (j, w) ∷ assign k v m

  pub lookup-assign :
      (k j : String) (v : V) (m : List (String × V))
      → lookup j (assign k v m) ≡ (if str_eq k j then some v else lookup j m)
  unfolding lookup assign
  lookup-assign k j v [] = refl
  lookup-assign k j v ((i, w) ∷ m) =
      ground (arith, eq_iff k j, eq_iff i k, eq_iff i j, lookup-assign k j v m)

  -- Go's `delete` on a map.
  unfoldable pub remove : String → List (String × V) → List (String × V)
  remove k [] = []
  remove k ((j, v) ∷ m) = if str_eq j k then remove k m else (j, v) ∷ remove k m

  pub lookup-remove :
      (k j : String) (m : List (String × V))
      → lookup j (remove k m) ≡ (if str_eq k j then none else lookup j m)
  unfolding lookup remove
  lookup-remove k j [] = ground arith
  lookup-remove k j ((i, v) ∷ m) =
      ground (arith, eq_iff k j, eq_iff i k, eq_iff i j, lookup-remove k j m)

  unfoldable pub keys : List (String × V) → List String
  keys [] = []
  keys ((j, v) ∷ m) = j ∷ keys m

abbrev pub elem : String → List String → Bool
elem x [] = false
elem x (y ∷ ys) = if str_eq y x then true else elem x ys

-- No text is in the list twice.
abbrev pub IsDistinct : List String → Type 0
IsDistinct [] = Unit {0}
IsDistinct (x ∷ xs) = (elem x xs ≡ false) × IsDistinct xs

-- An error wrapped by `fmt.Errorf`: the message after a prefix.
abbrev pub wrap : String → Option String → Option String
wrap message none = none
wrap message (some error) = some (str_append message error)

pub elem-keys {ℓ} :
    {V : Type ℓ} (k : String) (m : List (String × V)) → elem k (keys m) ≡ is_some (lookup k m)
unfolding lookup keys
elem-keys k [] = refl
elem-keys k ((j, v) ∷ m) = ground (arith, elem-keys k m)

abbrev is_empty : String → Bool
is_empty String.[] = true
is_empty (String.◌∷◌ c s) = false

str_eq-empty : (s : String) → is_empty s ≡ false → str_eq s "" ≡ false
str_eq-empty s h = elim (Bool-cases (str_eq s "")) [
  | inl e ↦ absurd (cc (h, ap is_empty ((eq_iff s "").0 e)))
  | inr e ↦ e
]

-- A text with a character in front is not empty.
pub str_append-nonempty :
    (c : Char) (s t : String) → str_eq (str_append (String.◌∷◌ c s) t) "" ≡ false
str_append-nonempty c s t = str_eq-empty _ (ap is_empty (append.cons c s t))

module _ {ℓ} {V : Type ℓ} where
  elem-keys-remove :
      (k j : String) (m : List (String × V))
      → elem j (keys m) ≡ false
      → elem j (keys (remove k m)) ≡ false
  elem-keys-remove k j m h =
      elem-keys j (remove k m) ∙ ap is_some (lookup-remove k j m) ∙ ground (arith, elem-keys j m)

  -- Without a key, the keys of a map are still listed once each.
  pub remove-IsDistinct :
      (k : String) (m : List (String × V)) → IsDistinct (keys m) → IsDistinct (keys (remove k m))
  unfolding keys remove
  remove-IsDistinct k [] distinct = tt
  remove-IsDistinct k ((j, v) ∷ m) distinct = elim (Bool-cases (str_eq j k)) [
    | inl own ↦ rw own (remove-IsDistinct k m distinct.1)
    | inr other ↦ rw other (elem-keys-remove k j m distinct.0, remove-IsDistinct k m distinct.1)
  ]
