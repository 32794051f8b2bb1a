-- ===== src/Conflator/Unit/Next.antt =====
-- GetNext of pkg/conflator/conflation_unit.go.
use mathlib.Core.Option.{some-injective}
use hub_of_hubs_status_trans.Base.{
  ℕ, ◌≡◌, ◌<◌, ◌≤◌, refl, ap, sym, ◌∙◌, true, false, [], Option, none, some, arith, ◌==◌,
  Option-cases, inl, inr, ◌⊎◌, get_elem?,
}
use hub_of_hubs_status_trans.Bundle.{Bundle, get_generation, get_dependency_generation}
use hub_of_hubs_status_trans.Conflator.Registration.{Dependency}
use hub_of_hubs_status_trans.Conflator.Unit.{
  ConflationElement, ConflationUnit, Work, slot, put, priority_of, get_next, is_ready,
  check_dependency, get_next_ready_bundle_priority,
}
use hub_of_hubs_status_trans.Conflator.Unit.Slots.{slot-lt, slot-put_self}
use hub_of_hubs_status_trans.Conflator.Unit.Total.{
  IsIdle, is_ready-idle, Finds, first_ready, get_next_ready-Finds,
}
use hub_of_hubs_status_trans.Conflator.Unit.Invariant.{Describes, IsSound, Inv}
use hub_of_hubs_status_trans.Conflator.Unit.Frame.{written, IsSound-written, each_slot}

module _ {H : Type 0} where
  -- The bundle `b` of element `e` may be processed as far as its dependency goes: it has none, or
  -- the generation that the bundle asks for was processed.
  abbrev pub IsDependencyMet : ConflationUnit H → ConflationElement H → Bundle → Type 0
  IsDependencyMet cu e b =
      (e.dependency ≡ none)
      ⊎ ((d : Dependency) × (g : ℕ) × (base : ConflationElement H) × (e.dependency ≡ some d)
          × (get_dependency_generation b ≡ some g)
          × (slot cu.priority_queue (priority_of cu.bundle_type_to_priority d.bundle_type)
              ≡ some base)
          × (g ≤ base.last_processed_bundle_generation))

  check_dependency-met :
      (cu : ConflationUnit H) (e : ConflationElement H) (b : Bundle)
      → e.bundle ≡ some b
      → check_dependency cu e ≡ some true
      → IsDependencyMet cu e b
  unfolding check_dependency
  check_dependency-met cu e b held ok = elim (Option-cases e.dependency) [
    | inl alone ↦ inl alone
    | inr (d, dep) ↦ elim (Option-cases (get_dependency_generation b)) [
      | inl plain ↦ absurd (ground arith)
      | inr (g, needs) ↦
          elim (Option-cases
            (slot cu.priority_queue (priority_of cu.bundle_type_to_priority d.bundle_type))) [
              | inl missing ↦ absurd (ground arith)
              | inr (base, at) ↦ inr (d, g, base, dep, needs, at, ground arith)
            ]
    ]
  ]

  -- What `get_next` has handed out of unit `cu`, and the unit `cu'` that it leaves.
  pub record Serves (cu cu' : ConflationUnit H) (work : Work H) (metadata : ℕ) : Type 0 where
    pub priority : ℕ
    pub element : ConflationElement H
    pub bundle : Bundle
    pub at : slot cu.priority_queue priority ≡ some element
    pub handed : work ≡ record {
      bundle = some bundle;
      bundle_metadata = some metadata;
      handler_function = element.handler_function;
    }
    pub held : element.bundle ≡ some bundle
    pub describes : Describes cu.bundle_type_to_priority cu.heap priority metadata bundle
    pub newer : element.last_processed_bundle_generation < get_generation bundle
    pub dependency_met : IsDependencyMet cu element bundle
    pub first :
        (j : ℕ) (f : ConflationElement H)
        → j < priority
        → slot cu.priority_queue j ≡ some f
        → is_ready cu f ≡ some false
    pub left_queue : cu'.is_in_ready_queue ≡ false

  ready_holds :
      (cu : ConflationUnit H) (e : ConflationElement H)
      → is_ready cu e ≡ some true
      → (b : Bundle) × (e.bundle ≡ some b)
  unfolding is_ready
  ready_holds cu e r = elim (Option-cases e.bundle) [
    | inl empty ↦ absurd (ground arith)
    | inr (b, h) ↦ (b, h)
  ]

  get_next-none :
      (cu : ConflationUnit H)
      → get_next_ready_bundle_priority cu ≡ some none
      → get_next cu ≡ some (cu, none)
  unfolding get_next
  get_next-none cu e = rw e

  taken : ConflationUnit H → ℕ → ConflationElement H → ConflationUnit H
  taken cu p e = written cu p (record e { is_in_process = true }) false cu.heap

  taken_flag :
      (cu : ConflationUnit H) (p : ℕ) (e : ConflationElement H)
      → (taken cu p e).is_in_ready_queue ≡ false
  unfolding taken
  taken_flag cu p e = refl

  get_next-some :
      (cu : ConflationUnit H) (p : ℕ) (e : ConflationElement H)
      → get_next_ready_bundle_priority cu ≡ some (some p)
      → slot cu.priority_queue p ≡ some e
      → get_next cu
        ≡ some (
          taken cu p e,
          some (record {
            bundle = e.bundle;
            bundle_metadata = e.bundle_metadata;
            handler_function = e.handler_function;
          }),
        )
  unfolding get_next taken
  get_next-some cu p e next at = ground (arith, next, at)

  taken-Inv :
      (cu : ConflationUnit H) (p m : ℕ) (e : ConflationElement H) (b : Bundle)
      → IsSound cu
      → IsIdle cu.priority_queue
      → slot cu.priority_queue p ≡ some e
      → e.bundle ≡ some b
      → e.bundle_metadata ≡ some m
      → Inv (taken cu p e) (some m)
  unfolding taken
  taken-Inv cu p m e b s idle at held meta =
      let sound = s.sound p e at in
      let (k, meta', d, lt) = sound.held b held in
      let same : k ≡ m = some-injective k m (sym meta' ∙ meta) in
      let here : slot (put cu.priority_queue p new) p ≡ some new =
        slot-put_self cu.priority_queue p new (slot-lt cu.priority_queue p at) in
      record {
        data_sound =
            IsSound-written cu p e new false cu.heap at refl s
              (record { held = sound.held; bare = sound.bare }) (λ j f ne x. x);
        job_sound = (
          record {
            object = d.object;
            element = new;
            bundle = b;
            stored = ap (get_elem? cu.heap) (sym same) ∙ d.stored;
            found = ap (slot (put cu.priority_queue p new)) d.same_slot ∙ here;
            busy = refl;
            held = held;
            not_newer = omega (arith, d.same_generation);
            fresh = omega (arith, d.same_generation);
            alone = λ j f ne h.
                each_slot cu p e new false [] at refl
                  (λ i x. (p == i) ≡ false → x.is_in_process ≡ false) (λ n. ground arith)
                  (λ i x n y _. idle i x y) j f h (ap (λ x. x == j) (sym d.same_slot) ∙ ne);
          },
          refl,
        );
      }
    where
      new : ConflationElement H
      new = record e { is_in_process = true }

  -- The outcome of `get_next` on a unit that has no job out.
  pub data Next (cu : ConflationUnit H) : Option (ConflationUnit H × Option (Work H)) → Type 0 where
    no_ready_bundle : get_next_ready_bundle_priority cu ≡ some none → Next cu (some (cu, none))
    serves :
        (cu' : ConflationUnit H) (work : Work H) (metadata : ℕ)
        → Serves cu cu' work metadata
        → Inv cu' (some metadata)
        → Next cu (some (cu', some work))

  -- On a unit that satisfies the invariant and has no job out `get_next` returns: the first ready
  -- bundle, now in process, in a unit that satisfies the invariant with that job out, or, if no
  -- bundle is ready, the error and the unit as it was.
  pub get_next-Next : (cu : ConflationUnit H) → Inv cu none → Next cu (get_next cu)
  get_next-Next cu v = go (get_next_ready-Finds cu v.data_sound.shaped)
    where
      go :
          (r : Option ℕ) × (get_next_ready_bundle_priority cu ≡ some r)
            × Finds cu v.data_sound.shaped 0 cu.priority_queue r
          → Next cu (get_next cu)
      go (none, eq, f) = rw (get_next-none cu eq) (no_ready_bundle eq)
      go (some p, eq, first_ready q k e here at ready before) =
          let same : p ≡ k = omega arith in
          let at' : slot cu.priority_queue p ≡ some e = ap (slot cu.priority_queue) same ∙ at in
          let (b, held) = ready_holds cu e ready in
          let (m, meta, d, lt) = (v.data_sound.sound p e at').held b held in
          rw (get_next-some cu p e eq at') (
            serves _ _ m
              (record {
                priority = p;
                element = e;
                bundle = b;
                at = at';
                handed = ground (arith, held, meta);
                held = held;
                describes = d;
                newer = lt;
                dependency_met = check_dependency-met cu e b held (
                    sym (is_ready-idle cu v.data_sound.shaped v.job_sound.idle p e b at' held)
                    ∙ ready);
                first = λ j f lt' h. before j f (omega (arith, same)) h;
                left_queue = taken_flag cu p e;
              })
              (taken-Inv cu p m e b v.data_sound v.job_sound.idle at' held meta))
