-- ===== src/Federation/Bus/State.antt =====
-- The state of the bus that `startFederationBus` of packages/federation-bus/src/index.ts opens.
use droid_swarm.Prelude
use droid_swarm.Prelude.{
  ℕ, zero, suc, ◌+◌, ◌-◌, String, Bool, true, false, ◌==◌, not, ◌&&◌, ◌||◌, ltb, truthy, get_or,
  is_some, if◌then◌else◌, Option, none, some, List, [], ◌∷◌, ◌++◌, map, length, drop, filter, Map,
  get, put, values, keys,
}
use droid_swarm.Federation.Wire.{
  PeerRecord, DriftRecord, BusEvent, WelcomeResponse, BusConfig, normalize_base_url,
}
use droid_swarm.Federation.Signing.{SignatureError}

pub record Continuity : Type 0 where
  pub project_id : String
  pub digest_hash : Option String
  pub handoff_hash : Option String

pub record Counters : Type 0 where
  pub heartbeats_received : ℕ
  pub envelopes_received : ℕ
  pub onboardings_received : ℕ
  pub kicks_issued : ℕ
  pub drifts_detected : ℕ
  pub slave_roll_calls_received : ℕ

pub record BusState : Type 0 where
  pub peer_map : Map PeerRecord
  pub project_map : Map (List String)
  pub task_continuity : Map Continuity
  pub recent_drifts : List DriftRecord
  pub events : List BusEvent
  pub seen_envelope_ids : List String
  pub seen_nonces : List String
  pub trusted_public_keys : Map String
  pub counters : Counters
  pub seeded_peer_urls : List String
  pub latest_sequence : ℕ

pub data Response : Type 0 where
  failed : SignatureError → Response
  done : Response
  posted : Bool → ℕ → Response
  welcomed : WelcomeResponse → Response

-- `while (items.length > limit) items.shift()`
unfoldable pub shift_to {ℓ} : {A : Type ℓ} → ℕ → List A → List A
shift_to limit [] = []
shift_to limit (x ∷ xs) = if ltb limit (suc (length xs)) then shift_to limit xs else x ∷ xs

-- The loop over the envelope ids stops at an empty id.
unfoldable pub trim_ids : ℕ → List String → List String
trim_ids limit [] = []
trim_ids limit (x ∷ xs) =
    if ltb limit (suc (length xs)) && not (x == "") then trim_ids limit xs else x ∷ xs

abbrev pub retention_limit : BusConfig → ℕ
retention_limit config = get_or config.event_retention_limit 100

abbrev pub enforced : BusConfig → Bool
enforced config = get_or config.enforce_signatures false

unfoldable pub start_federation_bus : BusConfig → BusState
start_federation_bus config = record {
  peer_map = [];
  project_map = [];
  task_continuity = [];
  recent_drifts = [];
  events = [];
  seen_envelope_ids = [];
  seen_nonces = [];
  trusted_public_keys = get_or config.trusted_public_keys [];
  counters = record {
    heartbeats_received = 0;
    envelopes_received = 0;
    onboardings_received = 0;
    kicks_issued = 0;
    drifts_detected = 0;
    slave_roll_calls_received = 0;
  };
  seeded_peer_urls = Prelude.Sets.of_list [] (map normalize_base_url (get_or config.peer_urls []));
  latest_sequence = 0;
}
