-- ===== src/Federation/Bus/Routes.antt =====
-- The `POST` routes of both servers of packages/federation-bus/src/index.ts, and a run of them.
use droid_swarm.Prelude.{
  ◌+◌, String, true, false, truthy, get_or, if◌then◌else◌, Option, none, some, List, [], ◌∷◌, Map,
  get, put,
}
use droid_swarm.Federation.Wire.{
  slave, kicked, PostPayload, HeartbeatPayload, OnboardPayload, KickPayload, RollCallPayload,
  WelcomeResponse, Signed, BusConfig,
}
use droid_swarm.Federation.Signing.{Keys, accepted, rejected, validate_signed_request}
use droid_swarm.Federation.Bus.State.{
  BusState, Response, shift_to, enforced, failed, done, welcomed,
}
use droid_swarm.Federation.Bus.Effects.{upsert_peer}
use droid_swarm.Federation.Bus.Post.{accept_post}

unfoldable pub kick_peer : String → String → BusState → BusState
kick_peer now peer_id s = elim (get s.peer_map peer_id) [
  | none ↦ s
  | some existing ↦ record s {
    peer_map = put s.peer_map peer_id (record existing {
      status = kicked;
      connected = false;
      kicked_at = some now;
      last_seen = now;
    });
  }
]

-- `projectIds ?? (projectId ? [projectId] : [])`
abbrev onboard_projects : Option (List String) → Option String → List String
onboard_projects (some ids) project_id = ids
onboard_projects none project_id = if truthy project_id then get_or project_id "" ∷ [] else []

-- The answer to a roll call
unfoldable pub welcome : BusConfig → RollCallPayload → WelcomeResponse
welcome config payload =
    get_or (elim config.on_slave_roll_call [ none ↦ none | some callback ↦ callback payload ])
      (record {
        accepted = true;
        node_id = config.node_id;
        rules_hash = get_or config.rules_hash "";
        project_id = payload.project_id;
      })

-- A request to one of the `POST` routes, at a time
pub data Request : Type 0 where
  events : String → Signed PostPayload → Request
  heartbeat : String → Signed HeartbeatPayload → Request
  onboard : String → Signed OnboardPayload → Request
  kick : String → Signed KickPayload → Request
  roll_call : String → Signed RollCallPayload → Request

module _ (k : Keys) (config : BusConfig) where
  -- The guard of every `POST` route: the handler runs only on an accepted request.
  abbrev pub guarded :
      {A : Type 0}
      → String
      → Signed A
      → BusState
      → (List String → BusState × Response × List String)
      → BusState × Response × List String
  guarded kind r s handler =
      elim (validate_signed_request k kind r s.trusted_public_keys (enforced config)
        s.seen_nonces) [ rejected e ↦ (s, failed e, []) | accepted nonces ↦ handler nonces ]

  unfoldable pub post_events :
      String → Signed PostPayload → BusState → BusState × Response × List String
  unfolding shift_to
  post_events now r s =
      guarded "events.post" r s
        λ nonces. accept_post config now r.payload (record s { seen_nonces = shift_to 1000 nonces })

  unfoldable pub post_heartbeat :
      String → Signed HeartbeatPayload → BusState → BusState × Response × List String
  post_heartbeat now r s = guarded "heartbeat" r s λ nonces.
      let p = r.payload in
      (
        upsert_peer now p.peer_id p.bus_url p.admin_url p.capabilities (get_or p.project_ids [])
            p.role
            (record s {
              seen_nonces = nonces;
              counters = record s.counters {
                heartbeats_received = s.counters.heartbeats_received + 1;
              };
            }),
        done,
        [],
      )

  unfoldable pub post_onboard :
      String → Signed OnboardPayload → BusState → BusState × Response × List String
  post_onboard now r s = guarded "onboard" r s λ nonces.
      let p = r.payload in
      (
        upsert_peer now p.peer_id p.bus_url p.admin_url p.capabilities
            (onboard_projects p.project_ids p.project_id) p.role
            (record s {
              seen_nonces = nonces;
              counters = record s.counters {
                onboardings_received = s.counters.onboardings_received + 1;
              };
            }),
        done,
        [],
      )

  unfoldable pub post_kick :
      String → Signed KickPayload → BusState → BusState × Response × List String
  post_kick now r s = guarded "kick" r s λ nonces. (
    kick_peer now r.payload.peer_id (record s {
      seen_nonces = nonces;
      counters = record s.counters { kicks_issued = s.counters.kicks_issued + 1 };
    }),
    done,
    [],
  )

  abbrev trust : Map String → String → Option String → Map String
  trust trusted node_id public_key =
      if truthy public_key then put trusted node_id (get_or public_key "") else trusted

  unfoldable pub post_slave_roll_call :
      String → Signed RollCallPayload → BusState → BusState × Response × List String
  post_slave_roll_call now r s = guarded "slave-roll-call" r s λ nonces.
      let p = r.payload in
      let registered =
        upsert_peer now p.node_id (get_or p.bus_url "") (get_or p.admin_url "") p.capabilities
          (if truthy p.project_id then get_or p.project_id "" ∷ [] else []) (some slave)
          (record s {
            seen_nonces = nonces;
            counters = record s.counters {
              slave_roll_calls_received = s.counters.slave_roll_calls_received + 1;
            };
          }) in
      (
        record registered {
          trusted_public_keys = trust registered.trusted_public_keys p.node_id p.public_key;
        },
        welcomed (welcome config p),
        [],
      )

  unfoldable pub handle : Request → BusState → BusState × Response × List String
  handle (events now r) s = post_events now r s
  handle (heartbeat now r) s = post_heartbeat now r s
  handle (onboard now r) s = post_onboard now r s
  handle (kick now r) s = post_kick now r s
  handle (roll_call now r) s = post_slave_roll_call now r s

  -- The state after the requests, in their order of arrival
  unfoldable pub serve : BusState → List Request → BusState
  serve s [] = s
  serve s (r ∷ rs) = serve (handle r s).0 rs
