-- ===== src/Federation/Bus/Post.antt =====
-- `POST /events` behind its signature check, and `GET /events`, of
-- packages/federation-bus/src/index.ts.
use droid_swarm.Prelude
use droid_swarm.Prelude.{
  ℕ, zero, suc, ◌+◌, ◌-◌, String, Bool, true, false, ◌==◌, not, ◌&&◌, ◌||◌, ltb, truthy, get_or,
  is_some, if◌then◌else◌, Option, none, some, List, [], ◌∷◌, ◌++◌, map, length, drop, filter, Map,
  get, put, values, keys,
}
use droid_swarm.Federation.Wire.{BusEvent, PostPayload, BusConfig}
use droid_swarm.Federation.Bus.State.{
  BusState, Response, shift_to, trim_ids, retention_limit, posted,
}
use droid_swarm.Federation.Bus.Effects.{register_drift, forward_targets, touch_source, join_source}

-- The event that the accepted envelope becomes, appended and trimmed
unfoldable pub store_event : BusConfig → String → PostPayload → BusState → BusState
unfolding shift_to trim_ids
store_event config now payload s = record s {
  seen_envelope_ids = trim_ids 10000 (Prelude.Sets.add s.seen_envelope_ids payload.envelope.id);
  latest_sequence = s.latest_sequence + 1;
  counters = record s.counters { envelopes_received = s.counters.envelopes_received + 1 };
  events = shift_to (retention_limit config) (
      s.events
      ++ record {
        sequence = s.latest_sequence + 1;
        received_at = now;
        source_node_id = payload.source_node_id;
        envelope = payload.envelope;
      }
        ∷ []);
}

-- `POST /events` once the signature is accepted
unfoldable pub accept_post :
    BusConfig → String → PostPayload → BusState → BusState × Response × List String
accept_post config now payload s =
    if Prelude.Sets.has s.seen_envelope_ids payload.envelope.id
    then (s, posted true s.latest_sequence, [])
    else let stored = store_event config now payload s in
      let touched = touch_source config now payload.source_node_id stored in
      let joined = join_source config payload.source_node_id payload.envelope.project_id touched in
      let drifted = register_drift now (retention_limit config) payload.envelope joined in
      (
        drifted,
        posted false stored.latest_sequence,
        if get_or payload.forwarded false then [] else forward_targets drifted,
      )

-- The integer that `Number.parseInt` reads: none, a negative one, or a natural number
pub data Parsed : Type 0 where
  nan : Parsed
  negative : ℕ → Parsed
  natural : ℕ → Parsed

abbrev pub since_bound : Parsed → ℕ
since_bound (natural n) = n
since_bound _ = 0

-- `Math.max(1, parsed || limit)`
abbrev pub page_size : ℕ → Parsed → ℕ
page_size limit (natural zero) = if ltb limit 1 then 1 else limit
page_size limit (natural (suc n)) = suc n
page_size limit (negative n) = 1
page_size limit nan = if ltb limit 1 then 1 else limit

-- `items.slice(-n)`
unfoldable pub slice_last {ℓ} : {A : Type ℓ} → ℕ → List A → List A
slice_last n items = drop (length items - n) items

-- `GET /events`
unfoldable pub get_events : BusConfig → Parsed → Parsed → BusState → ℕ × List BusEvent
unfolding slice_last
get_events config since limit s = (
  s.latest_sequence,
  slice_last (page_size (retention_limit config) limit)
      (filter (λ event. ltb (since_bound since) event.sequence) s.events),
)
