-- ===== src/Federation/Tests.antt =====
-- Runs of the bus, and its theorems at concrete states.
use droid_swarm.Prelude.{
  ◌+◌, ◌-◌, ◌≤◌, ◌≡◌, ◌≢◌, refl, String, true, ◌==◌, ◌⊎◌, Option, none, some, List, [], ◌∷◌, length,
  get, put, All, arith,
}
use droid_swarm.Prelude.Sets.{has, add, of_list}
use droid_swarm.Audit.Json.{null, stable_serialize}
use droid_swarm.Federation.Wire.{
  Signed, PostPayload, HeartbeatPayload, Envelope, BusConfig, normalize_base_url,
}
use droid_swarm.Federation.Signing.{
  Keys, SignatureError, replay_detected, validate_signed_request, verify_federation_request,
  find_verification_key,
}
use droid_swarm.Federation.Bus.{
  Continuity, BusState, failed, posted, start_federation_bus, post_events, post_kick, kick_peer,
  register_drift, store_event, compare_continuity, touch_source, join_source, join_projects,
  accept_post, natural, nan, get_events, post_heartbeat, upsert_peer, Request, events, heartbeat,
  kick, handle, serve,
}
use droid_swarm.Federation.Events.{Numbered, IsLog, serve-IsLog}
use droid_swarm.Federation.Delivery.{accept_post-twice, get_events_complete}
use droid_swarm.Federation.Authentic.{IsAuthenticRequest, handle-authentic}
use droid_swarm.Federation.Replay.{handle-twice}
use droid_swarm.Federation.Drift.{Conflicts, drift_record, with_drift, register_drift-exact}
use droid_swarm.Federation.Baseline.{first_report_of, serve-blank}

-- The key pair whose signature of a text is the text
abbrev toy_keys : Keys
toy_keys = record { sign = λ key text. text; verify = λ key text signature. text == signature }

abbrev config : BusConfig
config = record {
  node_id = "master";
  peer_urls = none;
  event_retention_limit = some 2;
  trusted_public_keys = some (("slave", "pem") ∷ []);
  enforce_signatures = some true;
  rules_hash = none;
  on_slave_roll_call = none;
}

abbrev open_config : BusConfig
open_config = record config { enforce_signatures = none }

abbrev started : BusState
started = start_federation_bus open_config

abbrev update : String → Option String → Envelope
update id digest = record {
  id = id;
  verb = "status.updated";
  project_id = "p";
  task_id = some "t";
  metadata = some (record { digest_hash = digest; handoff_hash = none });
}

abbrev post : String → Option String → PostPayload
post id digest = record {
  source_node_id = "slave";
  envelope = update id digest;
  forwarded = some true;
}

abbrev unsigned : {A : Type 0} → A → Signed A
unsigned payload = record {
  payload = payload;
  json = null;
  signed_by = none;
  nonce = none;
  signature = none;
}

abbrev beat : HeartbeatPayload
beat = record {
  peer_id = "slave";
  bus_url = "http://s/";
  admin_url = "http://s:1";
  capabilities = [];
  project_ids = some ("p" ∷ []);
  role = none;
}

abbrev traffic : List Request
traffic =
    heartbeat "1" (unsigned beat)
    ∷ events "2" (unsigned (post "a" none))
    ∷ events "3" (unsigned (post "b" (some "h")))
    ∷ events "4" (unsigned (post "b" (some "h")))
    ∷ events "5" (unsigned (post "c" (some "g")))
    ∷ kick "6" (unsigned (record { peer_id = "slave"; reason = none }))
    ∷ []

abbrev served : BusState
served = serve toy_keys open_config started traffic

served_numbers :
    (served.latest_sequence ≡ 3)
    × (length served.events ≡ 2)
    × (served.counters.drifts_detected ≡ 0)
unfolding serve handle post_heartbeat post_events post_kick kick_peer upsert_peer join_projects
    accept_post store_event touch_source join_source register_drift compare_continuity
    start_federation_bus validate_signed_request of_list has add get put normalize_base_url
served_numbers = (refl, refl, refl)

serve-IsLog_example : IsLog open_config served
serve-IsLog_example = serve-IsLog toy_keys open_config traffic

accept_post-twice_example :
    accept_post open_config "3"
      (post "a" (some "h"))
      (accept_post open_config "2" (post "a" none) started).0
    ≡ (
      (accept_post open_config "2" (post "a" none) started).0,
      posted true (accept_post open_config "2" (post "a" none) started).0.latest_sequence,
      [],
    )
accept_post-twice_example =
    accept_post-twice open_config "2" "3" (post "a" none) (post "a" (some "h")) started refl

get_events_complete_example :
    ((get_events open_config (natural 1) nan served).0 ≡ served.latest_sequence)
    × (length (get_events open_config (natural 1) nan served).1 ≡ served.latest_sequence - 1)
    × Numbered served.latest_sequence (get_events open_config (natural 1) nan served).1
get_events_complete_example =
    get_events_complete open_config 1 nan served serve-IsLog_example (omega (arith, served_numbers))
      (omega (arith, served_numbers))

abbrev signed_beat : Request
signed_beat = heartbeat "1" (record {
  payload = beat;
  json = null;
  signed_by = some "slave";
  nonce = some "n";
  signature = some "heartbeat|slave|n|null";
})

abbrev enforcing : BusState
enforcing = start_federation_bus config

handle-authentic_example :
    IsAuthenticRequest toy_keys signed_beat enforcing
    ⊎ ((e : SignatureError) × (handle toy_keys config signed_beat enforcing
          ≡ (enforcing, failed e, [])))
handle-authentic_example = handle-authentic toy_keys config signed_beat enforcing refl

handle-twice_example :
    ((e : SignatureError) × (handle toy_keys config signed_beat enforcing
        ≡ (enforcing, failed e, [])))
    ⊎ (handle toy_keys config signed_beat (handle toy_keys config signed_beat enforcing).0
        ≡ ((handle toy_keys config signed_beat enforcing).0, failed replay_detected, []))
handle-twice_example = handle-twice toy_keys config signed_beat enforcing refl

signed_beat_accepted : (handle toy_keys config signed_beat enforcing).0.seen_nonces ≡ "n" ∷ []
unfolding handle post_heartbeat upsert_peer validate_signed_request find_verification_key
    verify_federation_request stable_serialize start_federation_bus of_list has add get
signed_beat_accepted = refl

abbrev beaten : BusState
beaten = (handle toy_keys open_config (heartbeat "1" (unsigned beat)) started).0

beaten_seeded : has beaten.seeded_peer_urls "http://s" ≡ true
unfolding handle post_heartbeat upsert_peer validate_signed_request normalize_base_url
    start_federation_bus of_list has add
beaten_seeded = refl

abbrev first_report : Continuity
first_report = record { project_id = "p"; digest_hash = some "h"; handoff_hash = none }

abbrev reported : BusState
reported = record started { task_continuity = ("t", first_report) ∷ [] }

register_drift-exact_example :
    ((Conflicts (some "g") first_report.digest_hash ⊎ Conflicts none first_report.handoff_hash)
      × ((register_drift "9" 2 (update "d" (some "g")) reported).counters.drifts_detected
          ≡ reported.counters.drifts_detected + 1)
      × ((register_drift "9" 2 (update "d" (some "g")) reported).recent_drifts
          ≡ with_drift 2 reported.recent_drifts (
              drift_record "9" "t" "p"
                (record { digest_hash = some "g"; handoff_hash = none })
                first_report))
      × (length (register_drift "9" 2 (update "d" (some "g")) reported).recent_drifts ≤ 2))
    ⊎ ((¬ Conflicts (some "g") first_report.digest_hash)
        × (¬ Conflicts none first_report.handoff_hash)
        × (register_drift "9" 2 (update "d" (some "g")) reported ≡ reported))
unfolding get
register_drift-exact_example =
    register_drift-exact "9" 2 (update "d" (some "g")) reported "t"
      (record { digest_hash = some "g"; handoff_hash = none }) first_report refl refl (λ e. cc) refl
      refl

-- The first update of the task carries no hash, and those that follow carry different ones.
abbrev later_reports : List Request
later_reports =
    events "3" (unsigned (post "b" (some "h"))) ∷ events "4" (unsigned (post "c" (some "g"))) ∷ []

serve-blank_example :
    (get
        (serve toy_keys open_config started
          (events "2" (unsigned (post "a" none)) ∷ later_reports)).task_continuity
        "t"
      ≡ some
          (first_report_of (update "a" none) (record { digest_hash = none; handoff_hash = none })))
    × All
        (λ d. d.task_id ≢ "t")
        (serve toy_keys open_config started
          (events "2" (unsigned (post "a" none)) ∷ later_reports)).recent_drifts
unfolding get start_federation_bus validate_signed_request has
serve-blank_example =
    serve-blank toy_keys open_config "2" (unsigned (post "a" none)) later_reports started "t"
      (record { digest_hash = none; handoff_hash = none }) [] refl refl refl refl (λ e. cc) refl
      refl refl refl tt

-- The same reports without the first one are a drift.
later_reports-drift :
    (serve toy_keys open_config started later_reports).counters.drifts_detected ≡ 1
unfolding serve handle post_events accept_post store_event touch_source join_source register_drift
    compare_continuity start_federation_bus validate_signed_request has add get put
later_reports-drift = refl
