-- ===== src/Conflator/Unit/Slots.antt =====
-- The priority queue of a conflation unit as an array of pointers.
use hub_of_hubs_status_trans.Base.{
  ◌∙◌, ℕ, zero, suc, ◌≡◌, ◌<◌, refl, false, List, [], ◌∷◌, Option, some, arith, length, ◌==◌,
  if◌then◌else◌, modify,
}
use hub_of_hubs_status_trans.Conflator.Unit.{slot, put}

module _ {ℓ} {A : Type ℓ} where
  pub slot-lt : (pq : List (Option A)) (i : ℕ) {e : A} → slot pq i ≡ some e → i < length pq
  unfolding slot
  slot-lt [] i h = cc
  slot-lt (s ∷ rest) zero h = omega arith
  slot-lt (s ∷ rest) (suc i) h = omega (arith, slot-lt rest i h)

  pub length-put : (pq : List (Option A)) (i : ℕ) (e : A) → length (put pq i e) ≡ length pq
  unfolding put modify
  length-put [] i e = refl
  length-put (s ∷ rest) zero e = refl
  length-put (s ∷ rest) (suc i) e = omega (arith, length-put rest i e)

  pub slot-put :
      (pq : List (Option A)) (i j : ℕ) (e : A)
      → i < length pq
      → slot (put pq i e) j ≡ (if i == j then some e else slot pq j)
  unfolding slot put modify
  slot-put [] i j e h = elim h [ ]
  slot-put (s ∷ rest) zero zero e h = refl
  slot-put (s ∷ rest) zero (suc j) e h = ground arith
  slot-put (s ∷ rest) (suc i) zero e h = ground arith
  slot-put (s ∷ rest) (suc i) (suc j) e h = slot-put rest i j e (omega arith) ∙ ground arith

  pub slot-put_self :
      (pq : List (Option A)) (i : ℕ) (e : A) → i < length pq → slot (put pq i e) i ≡ some e
  slot-put_self pq i e h = ground (arith, slot-put pq i i e h)

  pub slot-put_ne :
      (pq : List (Option A)) (i j : ℕ) (e : A)
      → i < length pq
      → (i == j) ≡ false
      → slot (put pq i e) j ≡ slot pq j
  slot-put_ne pq i j e h n = ground (arith, slot-put pq i j e h)
