-- ===== src/Federation/Baseline.antt =====
-- The first report of a task, against which `registerDrift` of packages/federation-bus/src/index.ts
-- compares the later ones.
use droid_swarm.Prelude.{
  ℕ, ◌≡◌, ◌≢◌, refl, sym, subst, eq_refl, ◌∙◌, String, false, truthy, none, some, List, [], ◌∷◌,
  get, get-put, arith, eq_iff, All,
}
use droid_swarm.Prelude.Sets.{has}
use droid_swarm.Federation.Wire.{Signed, PostPayload, Envelope, EnvelopeMetadata, BusConfig}
use droid_swarm.Federation.Signing.{Keys, accepted, rejected, validate_signed_request}
use droid_swarm.Federation.Bus.{
  Continuity, BusState, Response, failed, enforced, retention_limit, accept_post, post_events,
  Request, events, handle, serve, register_drift, compare_continuity, shift_to,
}
use droid_swarm.Federation.Silent.{IsSilent, joined_state, joined_state-IsSilent, serve-IsSilent}

-- The first report that `registerDrift` keeps of an update
abbrev pub first_report_of : Envelope → EnvelopeMetadata → Continuity
first_report_of envelope m = record {
  project_id = envelope.project_id;
  digest_hash = m.digest_hash;
  handoff_hash = m.handoff_hash;
}

register_drift-first :
    (now : String) (limit : ℕ) (envelope : Envelope) (s : BusState) (task : String)
    (m : EnvelopeMetadata)
    → envelope.verb ≡ "status.updated"
    → envelope.task_id ≡ some task
    → task ≢ ""
    → envelope.metadata ≡ some m
    → IsSilent task none s
    → IsSilent task (some (first_report_of envelope m)) (register_drift now limit envelope s)
register_drift-first now limit envelope s task m verb task_id nonempty metadata (unknown, quiet) =
    let step : register_drift now limit envelope s
        ≡ compare_continuity now limit task envelope.project_id m none s =
      unfold register_drift in
      ground (
        arith,
        eq_iff envelope.verb "status.updated",
        eq_iff task "",
        task_id,
        metadata,
        unknown,
        verb,
      ) in
    subst (IsSilent task (some (first_report_of envelope m))) (sym step) (
      unfold compare_continuity in
      (
        get-put s.task_continuity task task (first_report_of envelope m) ∙ rw (eq_refl task) refl,
        quiet,
      ))

accept_post-first :
    (config : BusConfig) (now : String) (p : PostPayload) (s : BusState) (task : String)
    (m : EnvelopeMetadata)
    → has s.seen_envelope_ids p.envelope.id ≡ false
    → p.envelope.verb ≡ "status.updated"
    → p.envelope.task_id ≡ some task
    → task ≢ ""
    → p.envelope.metadata ≡ some m
    → IsSilent task none s
    → IsSilent task (some (first_report_of p.envelope m)) (accept_post config now p s).0
unfolding accept_post joined_state
accept_post-first config now p s task m new verb task_id nonempty metadata h = rw new (
    register_drift-first now (retention_limit config) p.envelope (joined_state config now p s) task
      m verb task_id nonempty metadata (joined_state-IsSilent config now p s task none h))

module _ (k : Keys) (config : BusConfig) where
  -- A status update of a task that has not reported before is accepted, and carries neither hash.
  -- Whatever requests follow, this blank report stays the one that later reports are compared with,
  -- and no drift of the task is recorded, whatever hashes they carry.
  pub serve-blank :
      (now : String) (r : Signed PostPayload) (rs : List Request) (s : BusState) (task : String)
      (m : EnvelopeMetadata) (nonces : List String)
      → validate_signed_request k "events.post" r s.trusted_public_keys
          (enforced config)
          s.seen_nonces
        ≡ accepted nonces
      → has s.seen_envelope_ids r.payload.envelope.id ≡ false
      → r.payload.envelope.verb ≡ "status.updated"
      → r.payload.envelope.task_id ≡ some task
      → task ≢ ""
      → r.payload.envelope.metadata ≡ some m
      → truthy m.digest_hash ≡ false
      → truthy m.handoff_hash ≡ false
      → get s.task_continuity task ≡ none
      → All (λ d. d.task_id ≢ task) s.recent_drifts
      → (get (serve k config s (events now r ∷ rs)).task_continuity task
          ≡ some (first_report_of r.payload.envelope m))
        × All (λ d. d.task_id ≢ task) (serve k config s (events now r ∷ rs)).recent_drifts
  unfolding serve handle post_events
  serve-blank now r rs s task m nonces valid new verb task_id nonempty metadata digest handoff
        unknown quiet =
      serve-IsSilent k config rs (handle k config (events now r) s).0 task
        (first_report_of r.payload.envelope m) (digest, handoff)
        (subst
          (λ v.
            IsSilent task (some (first_report_of r.payload.envelope m))
              (elim v as (λ x. BusState × Response × List String) [
                | rejected e ↦ (s, failed e, [])
                | accepted kept ↦
                    accept_post config now r.payload (record s { seen_nonces = shift_to 1000 kept })
              ]).0)
          (sym valid)
          (accept_post-first config now r.payload (record s { seen_nonces = shift_to 1000 nonces })
            task m new verb task_id nonempty metadata (unknown, quiet)))
