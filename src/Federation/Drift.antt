-- ===== src/Federation/Drift.antt =====
-- The drift of task digests (`registerDrift` of packages/federation-bus/src/index.ts).
use droid_swarm.Prelude.{
  ℕ, ◌+◌, ◌≤◌, ◌≡◌, ◌≢◌, refl, sym, ◌∙◌, String, true, false, ◌&&◌, ◌↔◌, Option, none, some, [],
  ◌∷◌, ◌++◌, List, suc, zero, ◌-◌, ltb, drop, length, get, arith, eq_iff, Bool-cases, inl, inr, ◌⊎◌,
}
use droid_swarm.Federation.Wire.{Envelope, EnvelopeMetadata, DriftRecord}
use droid_swarm.Federation.Bus.{
  Continuity, BusState, shift_to, agrees, register_drift, compare_continuity,
}
use droid_swarm.Federation.Events.{length-shift_to-le}

-- Both hashes are there, and they differ.
abbrev pub Conflicts : Option String → Option String → Type 0
Conflicts reported expected =
    (r : String) × (e : String) × (reported ≡ some r)
    × (expected ≡ some e)
    × (r ≢ "")
    × (e ≢ "")
    × (r ≢ e)

-- Two hashes disagree exactly if both are there, not empty, and differ.
agrees-Conflicts :
    (reported expected : Option String)
    → (agrees reported expected ≡ false) ↔ Conflicts reported expected
unfolding agrees
agrees-Conflicts none expected = ((λ h. cc), (λ c. cc c.2))
agrees-Conflicts (some r) none = ((λ h. ground arith), (λ c. cc c.3))
agrees-Conflicts (some r) (some e) = (
  (λ h. (
    r,
    e,
    refl,
    refl,
    (λ q. ground (arith, eq_iff r "")),
    (λ q. ground (arith, eq_iff e "")),
    (λ q. ground (arith, eq_iff r e)),
  )),
  (λ c. ground (arith, eq_iff r "", eq_iff e "", eq_iff r e, c.2, c.3, c.4, c.5, c.6)),
)

drop_nil {ℓ} : {A : Type ℓ} (n : ℕ) → drop {A = A} n [] ≡ []
drop_nil zero = refl
drop_nil (suc n) = refl

-- The loop of `shift` keeps the newest elements, as many as the limit.
shift_to-drop {ℓ} :
    {A : Type ℓ} (limit : ℕ) (xs : List A) → shift_to limit xs ≡ drop (length xs - limit) xs
unfolding shift_to
shift_to-drop limit [] = sym (drop_nil (0 - limit))
shift_to-drop limit (x ∷ xs) = elim (Bool-cases (ltb limit (suc (length xs)))) [
  | inl long ↦
      let more : suc (length xs) - limit ≡ suc (length xs - limit) = ground (arith, long) in
      rw (long, more) (shift_to-drop limit xs)
  | inr short ↦
      let fits : suc (length xs) - limit ≡ 0 = ground (arith, short) in rw (short, fits) refl
]

-- What a drift of a task's update from its first report is recorded as
abbrev pub drift_record : String → String → String → EnvelopeMetadata → Continuity → DriftRecord
drift_record now task project_id m c = record {
  task_id = task;
  project_id = project_id;
  reported_digest_hash = m.digest_hash;
  expected_digest_hash = c.digest_hash;
  reported_handoff_hash = m.handoff_hash;
  expected_handoff_hash = c.handoff_hash;
  detected_at = now;
}

-- The newest records, as many as the limit, when one more is recorded
abbrev pub with_drift : ℕ → List DriftRecord → DriftRecord → List DriftRecord
with_drift limit drifts d = drop (length (drifts ++ d ∷ []) - limit) (drifts ++ d ∷ [])

module _ (now : String) (limit : ℕ) (task project_id : String) (m : EnvelopeMetadata)
    (c : Continuity) (s : BusState) where
  compare_continuity-drift :
      (agrees m.digest_hash c.digest_hash && agrees m.handoff_hash c.handoff_hash) ≡ false
      → ((compare_continuity now limit task project_id m (some c) s).counters.drifts_detected
          ≡ s.counters.drifts_detected + 1)
        × ((compare_continuity now limit task project_id m (some c) s).recent_drifts
            ≡ with_drift limit s.recent_drifts (drift_record now task project_id m c))
        × (length (compare_continuity now limit task project_id m (some c) s).recent_drifts ≤ limit)
  unfolding compare_continuity
  compare_continuity-drift h = rw h (
    refl,
    shift_to-drop limit (s.recent_drifts ++ drift_record now task project_id m c ∷ []),
    length-shift_to-le limit (s.recent_drifts ++ _ ∷ []),
  )

  compare_continuity-same :
      (agrees m.digest_hash c.digest_hash && agrees m.handoff_hash c.handoff_hash) ≡ true
      → compare_continuity now limit task project_id m (some c) s ≡ s
  unfolding compare_continuity
  compare_continuity-same h = rw h

-- A status update of a task that has reported before is a drift exactly if one of its hashes and
-- the task's first one are both there and differ. Then a drift is counted, and its record, with the
-- reported and the expected hashes, comes last in the recent drifts, of which the newest are kept up
-- to the limit; else nothing changes.
pub register_drift-exact :
    (now : String) (limit : ℕ) (envelope : Envelope) (s : BusState) (task : String)
    (m : EnvelopeMetadata) (c : Continuity)
    → envelope.verb ≡ "status.updated"
    → envelope.task_id ≡ some task
    → task ≢ ""
    → envelope.metadata ≡ some m
    → get s.task_continuity task ≡ some c
    → ((Conflicts m.digest_hash c.digest_hash ⊎ Conflicts m.handoff_hash c.handoff_hash)
        × ((register_drift now limit envelope s).counters.drifts_detected
            ≡ s.counters.drifts_detected + 1)
        × ((register_drift now limit envelope s).recent_drifts
            ≡ with_drift limit s.recent_drifts (drift_record now task envelope.project_id m c))
        × (length (register_drift now limit envelope s).recent_drifts ≤ limit))
      ⊎ ((¬ Conflicts m.digest_hash c.digest_hash)
          × (¬ Conflicts m.handoff_hash c.handoff_hash)
          × (register_drift now limit envelope s ≡ s))
register_drift-exact now limit envelope s task m c verb task_id nonempty metadata known =
    let step : register_drift now limit envelope s
        ≡ compare_continuity now limit task envelope.project_id m (some c) s =
      unfold register_drift in
      ground (
        arith,
        eq_iff envelope.verb "status.updated",
        eq_iff task "",
        task_id,
        metadata,
        known,
        verb,
      ) in
    let drift = compare_continuity-drift now limit task envelope.project_id m c s in
    elim (Bool-cases (agrees m.digest_hash c.digest_hash)) [
      | inr digests ↦ rw step (
          inl (
            inl ((agrees-Conflicts m.digest_hash c.digest_hash).0 digests),
            (drift (rw digests)).0,
            (drift (rw digests)).1,
            (drift (rw digests)).2,
          ))
      | inl same ↦ elim (Bool-cases (agrees m.handoff_hash c.handoff_hash)) [
        | inr handoffs ↦
            let apart : (agrees m.digest_hash c.digest_hash && agrees m.handoff_hash c.handoff_hash)
                ≡ false =
              rw (same, handoffs) in
            rw step (
              inl (
                inr ((agrees-Conflicts m.handoff_hash c.handoff_hash).0 handoffs),
                (drift apart).0,
                (drift apart).1,
                (drift apart).2,
              ))
        | inl alike ↦ inr (
          λ d. cc (same, (agrees-Conflicts m.digest_hash c.digest_hash).1 d),
          λ d. cc (alike, (agrees-Conflicts m.handoff_hash c.handoff_hash).1 d),
          step
              ∙ compare_continuity-same now limit task envelope.project_id m c s (rw (same, alike)),
        )
      ]
    ]
