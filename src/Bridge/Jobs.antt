-- ===== src/Bridge/Jobs.antt =====
-- The jobs that are out with workers, by leaf hub.
use hub_of_hubs_status_trans.Base.{
  ℕ, ◌≡◌, refl, ap, ◌∙◌, false, String, List, [], ◌∷◌, ◌++◌, Option, none, some, arith,
  if◌then◌else◌, Bool-cases, inl, inr, str_eq, eq_iff,
}
use hub_of_hubs_status_trans.WorkerPool.{Running}

module _ {H : Type 0} where
  -- The leaf hub whose unit waits for the result.
  abbrev pub hub_of : Running H → String
  hub_of r = r.job.conflation_unit_result_reporter

  -- The metadata pointer of the job that is out for a leaf hub.
  unfoldable pub job_of : String → List (Running H) → Option ℕ
  job_of hub [] = none
  job_of hub (r ∷ rs) = if str_eq (hub_of r) hub then r.job.bundle_metadata else job_of hub rs

  -- Every job has its metadata, and no leaf hub has two.
  abbrev pub IsOrderly : List (Running H) → Type 0
  IsOrderly [] = Unit {0}
  IsOrderly (r ∷ rs) =
      ((m : ℕ) × (r.job.bundle_metadata ≡ some m)) × (job_of (hub_of r) rs ≡ none) × IsOrderly rs

  -- What is known of a running job `r` that stands between `before` and `after`.
  pub record Out (before : List (Running H)) (r : Running H) (after : List (Running H))
      : Type 0 where
    pub metadata : ℕ
    pub has_metadata : r.job.bundle_metadata ≡ some metadata
    pub is_job : job_of (hub_of r) (before ++ r ∷ after) ≡ some metadata
    pub gone : job_of (hub_of r) (before ++ after) ≡ none
    pub others :
        (hub : String)
        → str_eq (hub_of r) hub ≡ false
        → job_of hub (before ++ after) ≡ job_of hub (before ++ r ∷ after)
    pub orderly : IsOrderly (before ++ after)

  pub IsOrderly-Out :
      (before : List (Running H)) (r : Running H) (after : List (Running H))
      → IsOrderly (before ++ r ∷ after)
      → Out before r after
  unfolding job_of
  IsOrderly-Out [] r after ((m, meta), none_else, rest) = record {
    metadata = m;
    has_metadata = meta;
    is_job = rw ((eq_iff (hub_of r) (hub_of r)).1 refl) meta;
    gone = none_else;
    others = λ hub ne. rw ne;
    orderly = rest;
  }
  IsOrderly-Out (x ∷ before) r after (has, alone, rest) =
      let o = IsOrderly-Out before r after rest in
      elim (Bool-cases (str_eq (hub_of x) (hub_of r))) [
        | inl same ↦
            let e : hub_of x ≡ hub_of r = (eq_iff (hub_of x) (hub_of r)).0 same in
            let clash : job_of (hub_of x) (before ++ r ∷ after) ≡ some o.metadata =
              ap (λ h. job_of h (before ++ r ∷ after)) e ∙ o.is_job in
            cc
        | inr other ↦ record {
          metadata = o.metadata;
          has_metadata = o.has_metadata;
          is_job = rw other o.is_job;
          gone = rw other o.gone;
          others = λ hub ne. ground (arith, o.others hub ne);
          orderly = (
            has,
            o.others (hub_of x)
                  (ground (arith, eq_iff (hub_of x) (hub_of r), eq_iff (hub_of r) (hub_of x)))
                ∙ alone,
            o.orderly,
          );
        }
      ]
