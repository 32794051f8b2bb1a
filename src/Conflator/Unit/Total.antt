-- ===== src/Conflator/Unit/Total.antt =====
-- The search for a ready bundle, getNextReadyBundlePriority of pkg/conflator/conflation_unit.go, on
-- units of a proper shape.
use hub_of_hubs_status_trans.Base.{
  ℕ, zero, suc, ◌+◌, ◌≡◌, ◌<◌, refl, ap, ◌∙◌, Bool, true, false, String, [], ◌∷◌, Option, none,
  some, arith, length, if◌then◌else◌, leb, Bool-cases, Option-cases, inl, inr,
}
use hub_of_hubs_status_trans.Bundle.{Bundle, get_dependency_generation}
use hub_of_hubs_status_trans.Conflator.Registration.{Dependency}
use hub_of_hubs_status_trans.Conflator.Unit.{
  ConflationElement, ConflationUnit, Slots, slot, priority_of,
  is_current_or_any_dependency_in_process, check_dependency, is_ready, next_ready_from,
  get_next_ready_bundle_priority, is_in_process,
}
use hub_of_hubs_status_trans.Conflator.Unit.Slots.{slot-lt}

module _ {H : Type 0} where
  -- Every slot has its element, every type leads to a slot, and a dependency to an earlier one.
  pub record IsShaped (cu : ConflationUnit H) : Type 0 where
    pub filled :
        (i : ℕ)
        → i < length cu.priority_queue
        → (e : ConflationElement H) × (slot cu.priority_queue i ≡ some e)
    pub in_range :
        (t : String) → priority_of cu.bundle_type_to_priority t < length cu.priority_queue
    pub dependency_below :
        (i : ℕ) (e : ConflationElement H) (d : Dependency)
        → slot cu.priority_queue i ≡ some e
        → e.dependency ≡ some d
        → priority_of cu.bundle_type_to_priority d.bundle_type < i

  -- No bundle of the unit is being processed.
  abbrev pub IsIdle : Slots H → Type 0
  IsIdle pq = (i : ℕ) (e : ConflationElement H) → slot pq i ≡ some e → e.is_in_process ≡ false

  module _ (cu : ConflationUnit H) (shaped : IsShaped cu) where
    pub chain-total :
        (fuel i : ℕ) (e : ConflationElement H)
        → slot cu.priority_queue i ≡ some e
        → i < fuel
        → (r : Bool) × (is_current_or_any_dependency_in_process fuel cu e ≡ some r)
    unfolding is_current_or_any_dependency_in_process
    chain-total zero i e h lt = elim lt [ ]
    chain-total (suc fuel) i e h lt = elim (Bool-cases e.is_in_process) [
      | inl busy ↦ (true, rw busy)
      | inr free ↦ elim (Option-cases e.dependency) [
        | inl alone ↦ (false, rw (free, alone))
        | inr (d, dep) ↦
            let below = shaped.dependency_below i e d h dep in
            let (e', h') = shaped.filled _ (shaped.in_range d.bundle_type) in
            let (r, found) = chain-total fuel _ e' h' (omega arith) in (r, rw (free, dep, h') found)
      ]
    ]

    pub chain-idle :
        IsIdle cu.priority_queue
        → (fuel i : ℕ) (e : ConflationElement H) → slot cu.priority_queue i ≡ some e
        → i < fuel
        → is_current_or_any_dependency_in_process fuel cu e ≡ some false
    unfolding is_current_or_any_dependency_in_process
    chain-idle idle zero i e h lt = elim lt [ ]
    chain-idle idle (suc fuel) i e h lt = elim (Option-cases e.dependency) [
      | inl alone ↦ rw (idle i e h, alone)
      | inr (d, dep) ↦
          let below = shaped.dependency_below i e d h dep in
          let (e', h') = shaped.filled _ (shaped.in_range d.bundle_type) in
          rw (idle i e h, dep, h') (chain-idle idle fuel _ e' h' (omega arith))
    ]

    pub check_dependency-total :
        (e : ConflationElement H) (b : Bundle)
        → e.bundle ≡ some b
        → (r : Bool) × (check_dependency cu e ≡ some r)
    unfolding check_dependency
    check_dependency-total e b h = elim (Option-cases e.dependency) [
      | inl alone ↦ (true, rw alone)
      | inr (d, dep) ↦ elim (Option-cases (get_dependency_generation b)) [
        | inl plain ↦ (false, ground arith)
        | inr (g, needs) ↦
            let (e', h') = shaped.filled _ (shaped.in_range d.bundle_type) in
            (leb g e'.last_processed_bundle_generation, ground arith)
      ]
    ]

    pub is_ready-total :
        (i : ℕ) (e : ConflationElement H)
        → slot cu.priority_queue i ≡ some e
        → (r : Bool) × (is_ready cu e ≡ some r)
    unfolding is_ready
    is_ready-total i e h = elim (Option-cases e.bundle) [
      | inl empty ↦ (false, rw empty)
      | inr (b, held) ↦
          let lt : i < suc (length cu.priority_queue) =
            omega (arith, slot-lt cu.priority_queue i h) in
          let (busy, r) = chain-total (suc (length cu.priority_queue)) i e h lt in
          let (ok, c) = check_dependency-total e b held in
          (if busy then false else ok, ground arith)
    ]

    -- Where nothing is in process, readiness is the bundle's presence and the dependency's progress.
    pub is_ready-idle :
        IsIdle cu.priority_queue
        → (i : ℕ) (e : ConflationElement H) (b : Bundle) → slot cu.priority_queue i ≡ some e
        → e.bundle ≡ some b
        → is_ready cu e ≡ check_dependency cu e
    unfolding is_ready
    is_ready-idle idle i e b h held =
        let lt : i < suc (length cu.priority_queue) =
          omega (arith, slot-lt cu.priority_queue i h) in
        let free = chain-idle idle (suc (length cu.priority_queue)) i e h lt in ground (arith, free)

    -- What the scan of the slots `rest`, which stand from priority `i` on, has found.
    pub data Finds (i : ℕ) (rest : Slots H) : Option ℕ → Type 0 where
      nothing_ready :
          ((k : ℕ) (e : ConflationElement H) → slot rest k ≡ some e → is_ready cu e ≡ some false)
          → Finds i rest none
      first_ready :
          (p k : ℕ) (e : ConflationElement H)
          → p ≡ i + k
          → slot rest k ≡ some e
          → is_ready cu e ≡ some true
          → ((j : ℕ) (f : ConflationElement H)
              → j < k
              → slot rest j ≡ some f
              → is_ready cu f ≡ some false)
          → Finds i rest (some p)

    Finds-cons :
        (i : ℕ) (e : ConflationElement H) (rest : Slots H) {r : Option ℕ}
        → is_ready cu e ≡ some false
        → Finds (suc i) rest r
        → Finds i (some e ∷ rest) r
    unfolding slot
    Finds-cons i e rest here (nothing_ready none_later) =
        nothing_ready (elim [ zero ↦ λ f h. cc | suc k ↦ λ f h. none_later k f h ])
    Finds-cons i e rest here (first_ready p k f at h ready before) =
        first_ready p (suc k) f (omega arith) h ready
          (elim [ zero ↦ λ g lt h'. cc | suc j ↦ λ g lt h'. before j g (omega arith) h' ])

    next_ready_from-Finds :
        (i : ℕ) (rest : Slots H)
        → ((k : ℕ) → k < length rest → (e : ConflationElement H) × (slot rest k ≡ some e))
        → ((k : ℕ) (e : ConflationElement H)
            → slot rest k ≡ some e
            → (r : Bool) × (is_ready cu e ≡ some r))
        → (r : Option ℕ) × (next_ready_from cu i rest ≡ some r) × Finds i rest r
    unfolding next_ready_from slot
    next_ready_from-Finds i [] full total = (none, refl, nothing_ready (λ k e h. cc))
    next_ready_from-Finds i (none ∷ rest) full total = let (e, h) = full 0 (omega arith) in cc
    next_ready_from-Finds i (some e ∷ rest) full total =
        let (r, found, spec) =
          next_ready_from-Finds (suc i) rest (λ k lt. full (suc k) (omega arith))
            (λ k f h. total (suc k) f h) in
        let (ready, eq) = total 0 e refl in
        elim (Bool-cases ready) [
          | inl t ↦ (
            some i,
            rw (eq, t),
            first_ready i 0 e (omega arith) refl (eq ∙ ap some t) (λ j f lt. elim lt [ ]),
          )
          | inr f ↦ (r, rw (eq, f) found, Finds-cons i e rest (eq ∙ ap some f) spec)
        ]

    -- The search always returns, and finds the first priority that is ready, if there is one.
    pub get_next_ready-Finds :
        (r : Option ℕ) × (get_next_ready_bundle_priority cu ≡ some r) × Finds 0 cu.priority_queue r
    unfolding get_next_ready_bundle_priority
    get_next_ready-Finds = next_ready_from-Finds 0 cu.priority_queue shaped.filled is_ready-total

  pub is_in_process-idle :
      (pq : Slots H)
      → ((i : ℕ) → i < length pq → (e : ConflationElement H) × (slot pq i ≡ some e))
      → IsIdle pq
      → is_in_process pq ≡ some false
  unfolding is_in_process slot
  is_in_process-idle [] full idle = refl
  is_in_process-idle (none ∷ rest) full idle = let (e, h) = full 0 (omega arith) in cc
  is_in_process-idle (some e ∷ rest) full idle =
      rw (idle 0 e refl)
        (is_in_process-idle rest (λ k lt. full (suc k) (omega arith)) (λ k f h. idle (suc k) f h))

  pub is_in_process-busy :
      (pq : Slots H) (p : ℕ) (e : ConflationElement H)
      → ((i : ℕ) → i < length pq → (f : ConflationElement H) × (slot pq i ≡ some f))
      → slot pq p ≡ some e
      → e.is_in_process ≡ true
      → is_in_process pq ≡ some true
  unfolding is_in_process slot
  is_in_process-busy [] p e full h busy = cc
  is_in_process-busy (none ∷ rest) p e full h busy = let (f, g) = full 0 (omega arith) in cc
  is_in_process-busy (some f ∷ rest) zero e full h busy = ground arith
  is_in_process-busy (some f ∷ rest) (suc p) e full h busy =
      let later = is_in_process-busy rest p e (λ k lt. full (suc k) (omega arith)) h busy in
      ground (arith, later)
