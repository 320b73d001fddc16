-- ===== src/Runs/Interrupted.antt =====
-- What `markInterruptedAttemptsFailed` makes of the attempts (apps/orchestrator/src/run-lifecycle.ts).
use droid_swarm.Prelude.{
  String, Bool, true, false, ◌&&◌, ◌==◌, if◌then◌else◌, Option, none, some, List, [], ◌∷◌, filter,
  Map, get, put, values, All, get-put, ◌≡◌, refl, sym, ap, subst, ◌∙◌, ◌⊎◌, inl, inr, arith, eq_iff,
  Bool-cases, Option-cases,
}
use droid_swarm.Prelude.Rows.{
  map_option, IsTable, get-key, rewrite_all, rewrite_all-get, values-get, values-Mem, filter-All,
  filter-Mem, put-IsTable,
}
use mathlib.Core.List.{Memᴰ}
use droid_swarm.Runs.Records.{TaskAttemptRecord, AttemptStatus, same_attempt_status}
use droid_swarm.Runs.Store.{PersistenceClient, update_attempt_status}
use droid_swarm.Runs.Lifecycle.{
  fail_attempts, fail_status, interrupted_attempts, interrupted_metadata,
  mark_interrupted_attempts_failed,
}

abbrev as_failed : String → AttemptStatus → TaskAttemptRecord → TaskAttemptRecord
as_failed now status a = record a {
  status = AttemptStatus.failed;
  metadata = some (interrupted_metadata status);
  updated_at = now;
}

module _ (now run_id : String) where
  module _ (status : AttemptStatus) where
    abbrev selected : TaskAttemptRecord → Bool
    selected a = a.run_id == run_id && same_attempt_status a.status status

    abbrev round : TaskAttemptRecord → TaskAttemptRecord
    round a = if selected a then as_failed now status a else a

    step : Map TaskAttemptRecord → TaskAttemptRecord → Map TaskAttemptRecord
    step m a =
        if selected a
        then update_attempt_status now a.attempt_id AttemptStatus.failed
            (some (interrupted_metadata status)) m
        else m

    update_found :
        (id : String) (m : Map TaskAttemptRecord) {a : TaskAttemptRecord}
        → get m id ≡ some a
        → update_attempt_status now id AttemptStatus.failed (some (interrupted_metadata status)) m
          ≡ put m id (as_failed now status a)
    unfolding update_attempt_status
    update_found id m found = rw (found, update_attempt_status) refl

    update_missing :
        (id : String) (m : Map TaskAttemptRecord)
        → get m id ≡ none
        → update_attempt_status now id AttemptStatus.failed (some (interrupted_metadata status)) m
          ≡ m
    unfolding update_attempt_status
    update_missing id m gone = rw (gone, update_attempt_status) refl

    step-get :
        (m : Map TaskAttemptRecord) (x : TaskAttemptRecord)
        → (get m x.attempt_id ≡ some x) ⊎ (get m x.attempt_id ≡ some (round x))
        → (j : String) → get (step m x) j ≡ (if x.attempt_id == j then some (round x) else get m j)
    unfolding step
    step-get m x h j = elim (Bool-cases (selected x)) [
      | inl chosen ↦ rw chosen (elim h [
        | inl e ↦ rw (update_found x.attempt_id m e) (get-put m x.attempt_id j _)
        | inr e ↦
            rw (update_found x.attempt_id m {a = as_failed now status x} (e ∙ rw chosen refl))
              (get-put m x.attempt_id j _)
      ])
      | inr kept ↦ rw kept (ground (arith, eq_iff x.attempt_id j, found kept))
    ]
      where
        found : selected x ≡ false → get m x.attempt_id ≡ some x
        found kept = elim h [ inl e ↦ e | inr e ↦ e ∙ rw kept refl ]

    fail_attempts-step :
        (xs : List TaskAttemptRecord) (m : Map TaskAttemptRecord)
        → All (λ a. selected a ≡ true) xs
        → fail_attempts now status m xs ≡ rewrite_all (λ a. a.attempt_id) round step step-get m xs
    unfolding fail_attempts step
    fail_attempts-step [] m h = refl
    fail_attempts-step (x ∷ xs) m h = rw h.0 (fail_attempts-step xs _ h.1)

    filter-selected :
        (xs : List TaskAttemptRecord) → All (λ a. selected a ≡ true) (filter selected xs)
    filter-selected [] = tt
    filter-selected (x ∷ xs) = elim (Bool-cases (selected x)) [
      | inl chosen ↦ rw chosen (chosen, filter-selected xs)
      | inr kept ↦ rw kept (filter-selected xs)
    ]

    fail_status-get :
        (m : Map TaskAttemptRecord)
        → IsTable (λ a. a.attempt_id) m
        → (j : String) → get (fail_status now run_id status m) j ≡ map_option round (get m j)
    fail_status-get m table j =
        ap (λ n. get n j)
          (fail_attempts-step (filter selected (values m)) m (filter-selected (values m)))
        ∙ rewrite_all-get (λ a. a.attempt_id) round step step-get m (filter selected (values m))
            (filter-All _ selected (values m) (values-get (λ a. a.attempt_id) m table)) visits j
      where
        visits :
            (i : String) (x : TaskAttemptRecord)
            → get m i ≡ some x
            → (round x ≡ x) ⊎ (Memᴰ x (filter selected (values m)) × (x.attempt_id ≡ i))
        visits i x found = elim (Bool-cases (selected x)) [
          | inl chosen ↦ inr (
            filter-Mem selected x (values m) chosen (values-Mem (λ a. a.attempt_id) m i x found),
            get-key (λ a. a.attempt_id) m i x table found,
          )
          | inr kept ↦ inl (rw kept refl)
        ]

    update-IsTable :
        (id : String) (m : Map TaskAttemptRecord)
        → IsTable (λ a. a.attempt_id) m
        → IsTable
            (λ a. a.attempt_id)
            (update_attempt_status now id AttemptStatus.failed
              (some (interrupted_metadata status))
              m)
    update-IsTable id m table = elim (Option-cases (get m id)) [
      | inl gone ↦ subst (IsTable (λ a. a.attempt_id)) (sym (update_missing id m gone)) table
      | inr (a, found) ↦ subst (IsTable (λ a. a.attempt_id)) (sym (update_found id m found)) (
          subst (λ k. IsTable (λ a. a.attempt_id) (put m k (as_failed now status a)))
            (get-key (λ a. a.attempt_id) m id a table found)
            (put-IsTable (λ a. a.attempt_id) m (as_failed now status a) table))
    ]

    fail_attempts-IsTable :
        (xs : List TaskAttemptRecord) (m : Map TaskAttemptRecord)
        → IsTable (λ a. a.attempt_id) m
        → IsTable (λ a. a.attempt_id) (fail_attempts now status m xs)
    unfolding fail_attempts
    fail_attempts-IsTable [] m table = table
    fail_attempts-IsTable (x ∷ xs) m table =
        fail_attempts-IsTable xs _ (update-IsTable x.attempt_id m table)

  -- What recovery of a run makes of an attempt
  abbrev pub interrupted : TaskAttemptRecord → TaskAttemptRecord
  interrupted a =
      if selected AttemptStatus.running a
      then as_failed now AttemptStatus.running a
      else if selected AttemptStatus.blocked a
      then as_failed now AttemptStatus.blocked a
      else a

  pub mark_interrupted-get :
      (db : PersistenceClient)
      → IsTable (λ a. a.attempt_id) db.attempts
      → (j : String)
      → get (mark_interrupted_attempts_failed now run_id db).attempts j
        ≡ map_option interrupted (get db.attempts j)
  unfolding mark_interrupted_attempts_failed
  mark_interrupted-get db table j =
      fail_status-get AttemptStatus.blocked _
        (fail_attempts-IsTable AttemptStatus.running
          (interrupted_attempts run_id AttemptStatus.running db.attempts) db.attempts table)
        j
      ∙ ap (map_option (round AttemptStatus.blocked))
          (fail_status-get AttemptStatus.running db.attempts table j)
      ∙ rounds (get db.attempts j)
    where
      rounds :
          (o : Option TaskAttemptRecord)
          → map_option (round AttemptStatus.blocked) (map_option (round AttemptStatus.running) o)
            ≡ map_option interrupted o
      rounds none = refl
      rounds (some a) = elim (Bool-cases (selected AttemptStatus.running a)) [
        | inl chosen ↦ rw chosen (ground arith)
        | inr kept ↦ rw kept refl
      ]
