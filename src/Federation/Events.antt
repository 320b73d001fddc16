-- ===== src/Federation/Events.antt =====
-- The event log of the bus (packages/federation-bus/src/index.ts): its numbering, its bounds, and
-- that an envelope is stored once.
use droid_swarm.Prelude
use droid_swarm.Prelude.{
  ℕ, zero, suc, ◌+◌, ◌-◌, ◌≤◌, ◌<◌, ◌≡◌, ◌≢◌, refl, sym, ap, ◌∙◌, subst, String, Bool, true, false,
  ◌==◌, not, ◌&&◌, ◌||◌, ltb, truthy, get_or, is_some, if◌then◌else◌, Option, none, some, List, [],
  ◌∷◌, ◌++◌, map, length, drop, filter, Map, get, put, values, keys, arith, length-append,
  length-drop, All, All-drop, eq_iff, eq_refl, Bool-cases, Option-cases, inl, inr, ◌⊎◌,
}
use droid_swarm.Federation.Wire.{
  PostPayload, HeartbeatPayload, OnboardPayload, KickPayload, RollCallPayload, Envelope, BusEvent,
  BusConfig, Signed,
}
use droid_swarm.Federation.Signing.{Keys, Validation, accepted, rejected, validate_signed_request}
use droid_swarm.Federation.Bus.{
  BusState, Response, failed, shift_to, retention_limit, enforced, start_federation_bus,
  upsert_peer, compare_continuity, register_drift, touch_source, join_source, store_event,
  accept_post, kick_peer, post_events, post_heartbeat, post_onboard, post_kick,
  post_slave_roll_call, Request, events, heartbeat, onboard, kick, roll_call, handle, serve,
}

-- The sequence numbers count up by one to the latest.
abbrev pub Numbered : ℕ → List BusEvent → Type 0
Numbered latest [] = Unit
Numbered latest (e ∷ es) = (e.sequence + length es ≡ latest) × Numbered latest es

Numbered-append :
    (latest : ℕ) (es : List BusEvent) (e : BusEvent)
    → Numbered latest es
    → e.sequence ≡ latest + 1
    → Numbered (latest + 1) (es ++ e ∷ [])
Numbered-append latest [] e h next = (omega arith, tt)
Numbered-append latest (d ∷ es) e (h, hs) next =
    (omega (arith, length-append es (e ∷ [])), Numbered-append latest es e hs next)

Numbered-shift_to :
    (latest limit : ℕ) (es : List BusEvent)
    → Numbered latest es
    → Numbered latest (shift_to limit es)
unfolding shift_to
Numbered-shift_to latest limit [] h = tt
Numbered-shift_to latest limit (e ∷ es) h = elim (Bool-cases (ltb limit (suc (length es)))) [
  | inl long ↦ rw long (Numbered-shift_to latest limit es h.1)
  | inr short ↦ rw short h
]

pub length-shift_to-le {ℓ} :
    {A : Type ℓ} (limit : ℕ) (xs : List A) → length (shift_to limit xs) ≤ limit
unfolding shift_to
length-shift_to-le limit [] = omega arith
length-shift_to-le limit (x ∷ xs) = ground (arith, length-shift_to-le limit xs)

-- What the log holds, which the peers and the drifts do not touch
abbrev pub log_of : BusState → List BusEvent × ℕ × ℕ × List String
log_of s = (s.events, s.latest_sequence, s.counters.envelopes_received, s.seen_envelope_ids)

touch_source-log_of :
    (config : BusConfig) (now source : String) (s : BusState)
    → log_of (touch_source config now source s) ≡ log_of s
unfolding touch_source
touch_source-log_of config now source s = ground arith

register_drift-log_of :
    (now : String) (limit : ℕ) (envelope : Envelope) (s : BusState)
    → log_of (register_drift now limit envelope s) ≡ log_of s
unfolding register_drift compare_continuity
register_drift-log_of now limit envelope s = ground arith

kick_peer-log_of :
    (now peer_id : String) (s : BusState) → log_of (kick_peer now peer_id s) ≡ log_of s
unfolding kick_peer
kick_peer-log_of now peer_id s = ground arith

-- An accepted post leaves the log as `store_event` made it, or as it was if it is a duplicate.
pub accept_post-log_of :
    (config : BusConfig) (now : String) (p : PostPayload) (s : BusState)
    → log_of (accept_post config now p s).0 ≡ (
        if Prelude.Sets.has s.seen_envelope_ids p.envelope.id
        then log_of s
        else log_of (store_event config now p s))
unfolding accept_post join_source
accept_post-log_of config now p s = ground (
  arith,
  register_drift-log_of now (retention_limit config) p.envelope (
      join_source config p.source_node_id p.envelope.project_id
        (touch_source config now p.source_node_id (store_event config now p s))),
  touch_source-log_of config now p.source_node_id (store_event config now p s),
)

-- The numbers are consecutive up to the latest, at most the retention limit of events is kept, and
-- every envelope that was counted has had a number.
pub record IsLogView (config : BusConfig) (l : List BusEvent × ℕ × ℕ × List String) : Type 0 where
  pub numbered : Numbered l.1 l.0
  pub retained : length l.0 ≤ retention_limit config
  pub counted : l.2 ≡ l.1

abbrev pub IsLog : BusConfig → BusState → Type 0
IsLog config s = IsLogView config (log_of s)

store_event-IsLog :
    (config : BusConfig) (now : String) (p : PostPayload) (s : BusState)
    → IsLog config s
    → IsLog config (store_event config now p s)
unfolding store_event
store_event-IsLog config now p s h = record {
  numbered =
      Numbered-shift_to (s.latest_sequence + 1) (retention_limit config) (s.events ++ _ ∷ [])
        (Numbered-append s.latest_sequence s.events _ h.numbered refl);
  retained = length-shift_to-le (retention_limit config) (s.events ++ _ ∷ []);
  counted = ap (λ (n : ℕ). n + 1) h.counted;
}

accept_post-IsLog :
    (config : BusConfig) (now : String) (p : PostPayload) (s : BusState)
    → IsLog config s
    → IsLog config (accept_post config now p s).0
accept_post-IsLog config now p s h =
    elim (Bool-cases (Prelude.Sets.has s.seen_envelope_ids p.envelope.id)) [
      | inl old ↦
          subst (IsLogView config) (sym (accept_post-log_of config now p s ∙ ground (arith, old))) h
      | inr new ↦
          subst (IsLogView config) (sym (accept_post-log_of config now p s ∙ ground (arith, new)))
            (store_event-IsLog config now p s h)
    ]

module _ (k : Keys) (config : BusConfig) where
  post_heartbeat-log_of :
      (now : String) (r : Signed HeartbeatPayload) (s : BusState)
      → log_of (post_heartbeat k config now r s).0 ≡ log_of s
  unfolding post_heartbeat upsert_peer
  post_heartbeat-log_of now r s = ground arith

  post_onboard-log_of :
      (now : String) (r : Signed OnboardPayload) (s : BusState)
      → log_of (post_onboard k config now r s).0 ≡ log_of s
  unfolding post_onboard upsert_peer
  post_onboard-log_of now r s = ground arith

  post_kick-log_of :
      (now : String) (r : Signed KickPayload) (s : BusState)
      → log_of (post_kick k config now r s).0 ≡ log_of s
  unfolding post_kick kick_peer
  post_kick-log_of now r s = ground arith

  post_slave_roll_call-log_of :
      (now : String) (r : Signed RollCallPayload) (s : BusState)
      → log_of (post_slave_roll_call k config now r s).0 ≡ log_of s
  unfolding post_slave_roll_call upsert_peer
  post_slave_roll_call-log_of now r s = ground arith

  post_events-IsLog :
      (now : String) (r : Signed PostPayload) (s : BusState)
      → IsLog config s
      → IsLog config (post_events k config now r s).0
  unfolding post_events
  post_events-IsLog now r s h = go (
      validate_signed_request k "events.post" r s.trusted_public_keys (enforced config)
        s.seen_nonces)
    where
      go :
          (v : Validation)
          → IsLog config
              (elim v as (λ x. BusState × Response × List String) [
                | rejected e ↦ (s, failed e, [])
                | accepted nonces ↦
                    accept_post config now r.payload
                      (record s { seen_nonces = shift_to 1000 nonces })
              ]).0
      go (rejected e) = h
      go (accepted nonces) =
          accept_post-IsLog config now r.payload (record s { seen_nonces = shift_to 1000 nonces }) h

  handle-IsLog :
      (r : Request) (s : BusState) → IsLog config s → IsLog config (handle k config r s).0
  unfolding handle
  handle-IsLog (events now r) s h = post_events-IsLog now r s h
  handle-IsLog (heartbeat now r) s h =
      subst (IsLogView config) (sym (post_heartbeat-log_of now r s)) h
  handle-IsLog (onboard now r) s h = subst (IsLogView config) (sym (post_onboard-log_of now r s)) h
  handle-IsLog (kick now r) s h = subst (IsLogView config) (sym (post_kick-log_of now r s)) h
  handle-IsLog (roll_call now r) s h =
      subst (IsLogView config) (sym (post_slave_roll_call-log_of now r s)) h

  serve_from-IsLog :
      (rs : List Request) (s : BusState) → IsLog config s → IsLog config (serve k config s rs)
  unfolding serve
  serve_from-IsLog [] s h = h
  serve_from-IsLog (r ∷ rs) s h = serve_from-IsLog rs (handle k config r s).0 (handle-IsLog r s h)

  -- Whatever requests a bus has served since its start, the sequence numbers of its events count
  -- up by one to the latest, it holds at most the retention limit of events, and the latest number
  -- is the count of the envelopes received.
  pub serve-IsLog :
      (rs : List Request) → IsLog config (serve k config (start_federation_bus config) rs)
  serve-IsLog rs = serve_from-IsLog rs (start_federation_bus config) (
      unfold start_federation_bus in
      record { numbered = tt; retained = omega arith; counted = refl })
