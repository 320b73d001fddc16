-- ===== src/Federation/Silent.antt =====
-- What requests to a bus leave alone of the drifts of one task
-- (packages/federation-bus/src/index.ts).
use droid_swarm.Prelude.{
  ℕ, suc, ◌≡◌, ◌≢◌, refl, sym, ap, ◌∙◌, String, true, false, ◌==◌, not, ◌&&◌, ◌||◌, ltb, truthy,
  get_or, Option, none, some, List, [], ◌∷◌, ◌++◌, length, get, get-put, arith, eq_iff, Bool-cases,
  Option-cases, inl, inr, All, All-append,
}
use droid_swarm.Prelude.Sets.{has}
use droid_swarm.Federation.Wire.{
  Signed, PostPayload, Envelope, EnvelopeMetadata, DriftRecord, BusConfig,
}
use droid_swarm.Federation.Signing.{Keys, Validation, accepted, rejected, validate_signed_request}
use droid_swarm.Federation.Bus.{
  Continuity, BusState, Response, failed, enforced, retention_limit, agrees, upsert_peer,
  accept_post, kick_peer, guarded, post_events, post_heartbeat, post_onboard, post_kick,
  post_slave_roll_call, Request, events, heartbeat, onboard, kick, roll_call, handle, serve,
  register_drift, compare_continuity, touch_source, join_source, store_event, shift_to,
}

-- The first report of the task, if it has one, and that no drift of the task is recorded
abbrev Baseline : String → Option Continuity → BusState → Type 0
Baseline task o s = get s.task_continuity task ≡ o

abbrev NoDriftOf : String → BusState → Type 0
NoDriftOf task s = All (λ (d : DriftRecord). d.task_id ≢ task) s.recent_drifts

-- A first report without hashes
abbrev pub IsBlank : Continuity → Type 0
IsBlank c = (truthy c.digest_hash ≡ false) × (truthy c.handoff_hash ≡ false)

All-shift_to :
    (P : DriftRecord → Type 0) (limit : ℕ) (ds : List DriftRecord)
    → All P ds
    → All P (shift_to limit ds)
unfolding shift_to
All-shift_to P limit [] h = tt
All-shift_to P limit (d ∷ ds) h = elim (Bool-cases (ltb limit (suc (length ds)))) [
  | inl long ↦ rw long (All-shift_to P limit ds h.1)
  | inr short ↦ rw short h
]

blank_agrees :
    (reported expected : Option String) → truthy expected ≡ false → agrees reported expected ≡ true
unfolding agrees
blank_agrees reported expected h = ground arith

blank_conflict :
    (m : EnvelopeMetadata) {e : Continuity} (o : Option Continuity) (c : Continuity)
    → o ≡ some c
    → IsBlank c
    → some e ≡ o
    → (agrees m.digest_hash e.digest_hash && agrees m.handoff_hash e.handoff_hash) ≡ false
    → ⊥
blank_conflict m o c known blank same drift = cc (
  known,
  same,
  drift,
  blank_agrees m.digest_hash c.digest_hash blank.0,
  blank_agrees m.handoff_hash c.handoff_hash blank.1,
)

-- The first report of a task stays, and a blank one hides every drift of the task.
abbrev pub IsSilent : String → Option Continuity → BusState → Type 0
IsSilent task o s = Baseline task o s × NoDriftOf task s

compare_continuity-IsSilent :
    (now : String) (limit : ℕ) (t project_id : String) (m : EnvelopeMetadata)
    (o : Option Continuity) (s : BusState) (task : String) (c : Continuity)
    → get s.task_continuity t ≡ o
    → IsBlank c
    → IsSilent task (some c) s
    → IsSilent task (some c) (compare_continuity now limit t project_id m o s)
unfolding compare_continuity
compare_continuity-IsSilent now limit t project_id m none s task c known blank (h, quiet) =
    let first : Continuity = record {
      project_id = project_id;
      digest_hash = m.digest_hash;
      handoff_hash = m.handoff_hash;
    } in
    (ground (arith, get-put s.task_continuity t task first, eq_iff t task), quiet)
compare_continuity-IsSilent now limit t project_id m (some e) s task c known blank (h, quiet) =
    elim (Bool-cases (agrees m.digest_hash e.digest_hash && agrees m.handoff_hash e.handoff_hash)) [
      | inl same ↦ rw same (h, quiet)
      | inr drift ↦ rw drift (
        h,
        All-shift_to (λ d. d.task_id ≢ task) limit (s.recent_drifts ++ _ ∷ [])
            (All-append _ s.recent_drifts (_ ∷ []) quiet (
              (λ q.
                  blank_conflict m (get s.task_continuity task) c h blank
                    (sym known ∙ ap (get s.task_continuity) q) drift),
              tt,
            )),
      )
    ]

register_drift-IsSilent :
    (now : String) (limit : ℕ) (envelope : Envelope) (s : BusState) (task : String) (c : Continuity)
    → IsBlank c
    → IsSilent task (some c) s
    → IsSilent task (some c) (register_drift now limit envelope s)
unfolding register_drift
register_drift-IsSilent now limit envelope s task c blank h =
    elim (Bool-cases (not (envelope.verb == "status.updated") || not (truthy envelope.task_id))) [
      | inl skipped ↦ rw skipped h
      | inr update ↦ rw update (go envelope.metadata)
    ]
  where
    t : String
    t = get_or envelope.task_id ""

    go :
        (o : Option EnvelopeMetadata)
        → IsSilent task (some c) (elim o as (λ x. BusState) [
          | none ↦ s
          | some m ↦
              compare_continuity now limit t envelope.project_id m (get s.task_continuity t) s
        ])
    go none = h
    go (some m) =
        compare_continuity-IsSilent now limit t envelope.project_id m (get s.task_continuity t) s
          task c refl blank h

touch_source-IsSilent :
    (config : BusConfig) (now source : String) (s : BusState) (task : String)
    (o : Option Continuity)
    → IsSilent task o s
    → IsSilent task o (touch_source config now source s)
unfolding touch_source
touch_source-IsSilent config now source s task o h = elim (Bool-cases (source == config.node_id)) [
  | inl own ↦ rw own h
  | inr other ↦ elim (Option-cases (get s.peer_map source)) [
    | inl unknown ↦ rw (other, unknown) h
    | inr (peer, known) ↦ rw (other, known) h
  ]
]

-- The state in which `accept_post` registers a drift
unfoldable pub joined_state : BusConfig → String → PostPayload → BusState → BusState
joined_state config now p s =
    join_source config p.source_node_id p.envelope.project_id
      (touch_source config now p.source_node_id (store_event config now p s))

pub joined_state-IsSilent :
    (config : BusConfig) (now : String) (p : PostPayload) (s : BusState) (task : String)
    (o : Option Continuity)
    → IsSilent task o s
    → IsSilent task o (joined_state config now p s)
unfolding join_source store_event joined_state
joined_state-IsSilent config now p s task o h =
    touch_source-IsSilent config now p.source_node_id (store_event config now p s) task o h

accept_post-IsSilent :
    (config : BusConfig) (now : String) (p : PostPayload) (s : BusState) (task : String)
    (c : Continuity)
    → IsBlank c
    → IsSilent task (some c) s
    → IsSilent task (some c) (accept_post config now p s).0
unfolding accept_post joined_state
accept_post-IsSilent config now p s task c blank h =
    elim (Bool-cases (has s.seen_envelope_ids p.envelope.id)) [
      | inl old ↦ rw old h
      | inr new ↦ rw new (
          register_drift-IsSilent now (retention_limit config) p.envelope
            (joined_state config now p s) task c blank
            (joined_state-IsSilent config now p s task (some c) h))
    ]

kick_peer-IsSilent :
    (now peer_id : String) (s : BusState) (task : String) (c : Continuity)
    → IsSilent task (some c) s
    → IsSilent task (some c) (kick_peer now peer_id s)
unfolding kick_peer
kick_peer-IsSilent now peer_id s task c h = elim (Option-cases (get s.peer_map peer_id)) [
  | inl unknown ↦ rw (unknown, kick_peer) h
  | inr (peer, known) ↦ rw (known, kick_peer) h
]

module _ (k : Keys) (config : BusConfig) where
  guarded-IsSilent :
      {A : Type 0} (kind : String) (r : Signed A) (s : BusState)
      (handler : List String → BusState × Response × List String) (task : String) (c : Continuity)
      → IsSilent task (some c) s
      → ((nonces : List String) → IsSilent task (some c) (handler nonces).0)
      → IsSilent task (some c) (guarded k config kind r s handler).0
  guarded-IsSilent kind r s handler task c h keeps =
      go (validate_signed_request k kind r s.trusted_public_keys (enforced config) s.seen_nonces)
    where
      go :
          (v : Validation)
          → IsSilent task
              (some c)
              (elim v as (λ x. BusState × Response × List String) [
                | rejected e ↦ (s, failed e, [])
                | accepted nonces ↦ handler nonces
              ]).0
      go (rejected e) = h
      go (accepted nonces) = keeps nonces

  handle-IsSilent :
      (r : Request) (s : BusState) (task : String) (c : Continuity)
      → IsBlank c
      → IsSilent task (some c) s
      → IsSilent task (some c) (handle k config r s).0
  unfolding handle post_events post_heartbeat post_onboard post_kick post_slave_roll_call
      upsert_peer
  handle-IsSilent (events now r) s task c blank h =
      guarded-IsSilent "events.post" r s _ task c h
        λ nonces. accept_post-IsSilent config now r.payload _ task c blank h
  handle-IsSilent (heartbeat now r) s task c blank h =
      guarded-IsSilent "heartbeat" r s _ task c h (λ nonces. h)
  handle-IsSilent (onboard now r) s task c blank h =
      guarded-IsSilent "onboard" r s _ task c h (λ nonces. h)
  handle-IsSilent (kick now r) s task c blank h =
      guarded-IsSilent "kick" r s _ task c h
        (λ nonces. kick_peer-IsSilent now r.payload.peer_id _ task c h)
  handle-IsSilent (roll_call now r) s task c blank h =
      guarded-IsSilent "slave-roll-call" r s _ task c h (λ nonces. h)

  pub serve-IsSilent :
      (rs : List Request) (s : BusState) (task : String) (c : Continuity)
      → IsBlank c
      → IsSilent task (some c) s
      → IsSilent task (some c) (serve k config s rs)
  unfolding serve
  serve-IsSilent [] s task c blank h = h
  serve-IsSilent (r ∷ rs) s task c blank h =
      serve-IsSilent rs (handle k config r s).0 task c blank (handle-IsSilent r s task c blank h)
