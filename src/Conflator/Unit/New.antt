-- ===== src/Conflator/Unit/New.antt =====
-- newConflationUnit of pkg/conflator/conflation_unit.go, against the invariant.
use mathlib.Core.List.{Memᴰ}
use mathlib.Core.Option.{some-injective}
use hub_of_hubs_status_trans.Base.{
  ℕ, zero, suc, ◌≡◌, ◌<◌, refl, ap, sym, ◌∙◌, false, String, List, [], ◌∷◌, Option, none, some,
  arith, ◌==◌, str_eq, lt→ltb, Bool-cases, inl, inr, ◌⊎◌, length, replicate, length-replicate,
  ==_iff,
}
use hub_of_hubs_status_trans.Conflator.Registration.{Dependency, ConflationRegistration}
use hub_of_hubs_status_trans.Conflator.Unit.{
  ConflationElement, ConflationUnit, Slots, Priorities, slot, put, priority_of, new_element, fill,
  new_conflation_unit, get_next_ready_bundle_priority, is_ready,
}
use hub_of_hubs_status_trans.Conflator.Unit.Slots.{slot-put_self, slot-put_ne, length-put}
use hub_of_hubs_status_trans.Conflator.Unit.Total.{
  IsShaped, Finds, first_ready, get_next_ready-Finds,
}
use hub_of_hubs_status_trans.Conflator.Unit.Invariant.{Inv}

module _ {H : Type 0} where
  -- The map from bundle types to priorities that the registrations give: the last one counts.
  abbrev pub registered : List (ConflationRegistration H) → Priorities → Priorities
  registered [] m = m
  registered (r ∷ rs) m = registered rs ((r.bundle_type, r.priority) ∷ m)

  -- The registrations use the priorities below their number, leave none out, and let a type depend
  -- on one of a smaller priority only.
  pub record IsProper (rs : List (ConflationRegistration H)) : Type 0 where
    pub some_registration : 0 < length rs
    pub below : (r : ConflationRegistration H) → Memᴰ r rs → r.priority < length rs
    pub covers :
        (i : ℕ) → i < length rs → (r : ConflationRegistration H) × Memᴰ r rs × (r.priority ≡ i)
    pub dependency_before :
        (r : ConflationRegistration H) (d : Dependency)
        → Memᴰ r rs
        → r.dependency ≡ some d
        → priority_of (registered rs []) d.bundle_type < r.priority

  -- What `fill` has made of the slots `pq`.
  record Filled (rs : List (ConflationRegistration H)) (pq pq' : Slots H) : Type 0 where
    same_length : length pq' ≡ length pq
    origin :
        (i : ℕ) (e : ConflationElement H)
        → slot pq' i ≡ some e
        → ((r : ConflationRegistration H) × Memᴰ r rs × (r.priority ≡ i) × (e ≡ new_element r))
          ⊎ (slot pq i ≡ some e)
    stays :
        (i : ℕ) (e : ConflationElement H)
        → slot pq i ≡ some e
        → (f : ConflationElement H) × (slot pq' i ≡ some f)
    reached :
        (r : ConflationRegistration H)
        → Memᴰ r rs
        → (f : ConflationElement H) × (slot pq' r.priority ≡ some f)

  fill-Filled :
      (rs : List (ConflationRegistration H)) (pq : Slots H) (m : Priorities)
      → ((r : ConflationRegistration H) → Memᴰ r rs → r.priority < length pq)
      → (pq' : Slots H) × (fill rs pq m ≡ some (pq', registered rs m)) × Filled rs pq pq'
  unfolding fill
  fill-Filled [] pq m below = (
    pq,
    refl,
    record {
      same_length = refl;
      origin = λ i e h. inr h;
      stays = λ i e h. (e, h);
      reached = λ r. elim [ ];
    },
  )
  fill-Filled (r ∷ rs) pq m below =
      let lt = below r (Memᴰ.head refl) in
      let written = slot-put_self pq r.priority (new_element r) lt in
      let (pq', eq, f) =
        fill-Filled rs (put pq r.priority (new_element r)) ((r.bundle_type, r.priority) ∷ m)
          (λ q q_in. rw (length-put pq r.priority (new_element r)) (below q (Memᴰ.tail q_in))) in
      (
        pq',
        rw (lt→ltb _ _ lt) eq,
        record {
          same_length = f.same_length ∙ length-put pq r.priority (new_element r);
          origin = λ i e h. elim (f.origin i e h) [
            | inl (q, q_in, at, made) ↦ inl (q, Memᴰ.tail q_in, at, made)
            | inr before ↦ elim (Bool-cases (r.priority == i)) [
              | inl same ↦
                  let here : r.priority ≡ i = (==_iff r.priority i).0 same in
                  inl (
                    r,
                    Memᴰ.head refl,
                    here,
                    some-injective e (new_element r) (
                        sym before
                        ∙ ap (slot (put pq r.priority (new_element r))) (sym here)
                        ∙ written),
                  )
              | inr other ↦
                  inr (sym (slot-put_ne pq r.priority i (new_element r) lt other) ∙ before)
            ]
          ];
          stays = λ i e h. elim (Bool-cases (r.priority == i)) [
            | inl same ↦ f.stays i (new_element r) (
                ap (slot (put pq r.priority (new_element r))) (sym ((==_iff r.priority i).0 same))
                ∙ written)
            | inr other ↦ f.stays i e (slot-put_ne pq r.priority i (new_element r) lt other ∙ h)
          ];
          reached = λ q. elim [
            | Memᴰ.head same ↦
                let (g, h) = f.stays r.priority (new_element r) written in
                (g, ap (λ x. slot pq' x.priority) same ∙ h)
            | Memᴰ.tail q_in ↦ f.reached q q_in
          ];
        },
      )

  slot-replicate : (n i : ℕ) → slot {A = ConflationElement H} (replicate n none) i ≡ none
  unfolding slot
  slot-replicate zero i = refl
  slot-replicate (suc n) zero = refl
  slot-replicate (suc n) (suc i) = slot-replicate n i

  registered_range :
      (rs : List (ConflationRegistration H)) (m : Priorities) (n : ℕ) (t : String)
      → ((r : ConflationRegistration H) → Memᴰ r rs → r.priority < n)
      → priority_of m t < n
      → priority_of (registered rs m) t < n
  unfolding priority_of
  registered_range [] m n t below start = start
  registered_range (r ∷ rs) m n t below start =
      registered_range rs ((r.bundle_type, r.priority) ∷ m) n t (λ q q_in. below q (Memᴰ.tail q_in))
        (elim (Bool-cases (str_eq r.bundle_type t)) [
          | inl same ↦ rw same (below r (Memᴰ.head refl))
          | inr other ↦ rw other start
        ])

  -- A unit whose slots all hold fresh elements has nothing ready.
  no_bundle_no_ready :
      (cu : ConflationUnit H) (s : IsShaped cu)
      → ((i : ℕ) (e : ConflationElement H) → slot cu.priority_queue i ≡ some e → e.bundle ≡ none)
      → get_next_ready_bundle_priority cu ≡ some none
  unfolding is_ready
  no_bundle_no_ready cu s empty = go (get_next_ready-Finds cu s)
    where
      go :
          (r : Option ℕ) × (get_next_ready_bundle_priority cu ≡ some r)
            × Finds cu s 0 cu.priority_queue r
          → get_next_ready_bundle_priority cu ≡ some none
      go (none, eq, f) = eq
      go (some p, eq, first_ready q k e here at ready before) =
          let bare = empty k e at in absurd (ground arith)

  -- Proper registrations give a unit, and it satisfies the invariant with no job out.
  pub new_conflation_unit-Inv :
      (rs : List (ConflationRegistration H))
      → IsProper rs
      → (cu : ConflationUnit H) × (new_conflation_unit rs ≡ some cu)
        × Inv cu none
        × (cu.is_in_ready_queue ≡ false)
        × (cu.bundle_type_to_priority ≡ registered rs [])
  unfolding new_conflation_unit new_element priority_of
  new_conflation_unit-Inv rs proper =
      let len : length (replicate {A = Option (ConflationElement H)} (length rs) none) ≡ length rs =
        length-replicate (length rs) none in
      let (pq, eq, f) =
        fill-Filled rs (replicate (length rs) none) [] (λ r r_in. rw len (proper.below r r_in)) in
      let cu : ConflationUnit H = record {
        priority_queue = pq;
        bundle_type_to_priority = registered rs [];
        is_in_ready_queue = false;
        heap = [];
      } in
      let made : (i : ℕ) (e : ConflationElement H)
          → slot pq i ≡ some e
          → (r : ConflationRegistration H) × Memᴰ r rs × (r.priority ≡ i) × (e ≡ new_element r) =
        λ i e h. elim (f.origin i e h) [
          | inl o ↦ o
          | inr before ↦ absurd (cc (slot-replicate (length rs) i))
        ] in
      let shaped : IsShaped cu = record {
        filled = λ i lt.
            let (r, r_in, at) = proper.covers i (omega (arith, f.same_length, len)) in
            let (e, h) = f.reached r r_in in (e, ap (slot pq) (sym at) ∙ h);
        in_range = λ t.
            registered_range rs [] (length pq) t
              (λ r r_in. omega (arith, proper.below r r_in, f.same_length, len))
              (omega (arith, proper.some_registration, f.same_length, len));
        dependency_below = λ i e d h dep.
            let (r, r_in, at, e_is) = made i e h in
            let before =
              proper.dependency_before r d r_in (sym (ap (λ x. x.dependency) e_is) ∙ dep) in
            rw (← at) before;
      } in
      (
        cu,
        rw eq,
        record {
          data_sound = record {
            shaped = shaped;
            sound = λ i e h.
                let (r, r_in, at, e_is) = made i e h in
                record {
                  held = λ b held. absurd (ground (arith, e_is));
                  bare = λ _. ap (λ x. x.bundle_metadata) e_is;
                };
          };
          job_sound = record {
            idle = λ i e h. let (r, r_in, at, e_is) = made i e h in ap (λ x. x.is_in_process) e_is;
            awake = λ _.
                no_bundle_no_ready cu shaped
                  (λ i e h. let (r, r_in, at, e_is) = made i e h in ap (λ x. x.bundle) e_is);
          };
        },
        refl,
        refl,
      )
