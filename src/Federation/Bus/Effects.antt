-- ===== src/Federation/Bus/Effects.antt =====
-- `upsertPeer`, `registerDrift` and the other effects that the routes of
-- packages/federation-bus/src/index.ts share.
use droid_swarm.Prelude
use droid_swarm.Prelude.{
  ℕ, zero, suc, ◌+◌, ◌-◌, String, Bool, true, false, ◌==◌, not, ◌&&◌, ◌||◌, ltb, truthy, get_or,
  is_some, if◌then◌else◌, Option, none, some, List, [], ◌∷◌, ◌++◌, map, length, drop, filter, Map,
  get, put, values, keys,
}
use droid_swarm.Federation.Wire.{
  Role, master, PeerStatus, active, kicked, PeerRecord, EnvelopeMetadata, Envelope, BusConfig,
  normalize_base_url,
}
use droid_swarm.Federation.Bus.State.{Continuity, BusState, shift_to}

-- The loop of `upsertPeer` over the projects
unfoldable pub join_projects : Map (List String) → String → List String → Map (List String)
join_projects project_map peer_id [] = project_map
join_projects project_map peer_id (project_id ∷ rest) =
    join_projects
      (put project_map project_id
        (Prelude.Sets.add (get_or (get project_map project_id) []) peer_id))
      peer_id rest

-- Every caller leaves `status` out, so it is `active`.
unfoldable pub upsert_peer :
    String
    → String
    → String
    → String
    → List String
    → List String
    → Option Role
    → BusState
    → BusState
upsert_peer now peer_id bus_url admin_url capabilities project_ids role s =
    let peer : PeerRecord = record {
      peer_id = peer_id;
      bus_url = normalize_base_url bus_url;
      admin_url = normalize_base_url admin_url;
      capabilities = capabilities;
      project_ids = project_ids;
      role = get_or role master;
      status = active;
      last_seen = now;
      connected = true;
      kicked_at = none;
    } in
    record s {
      peer_map = put s.peer_map peer_id peer;
      seeded_peer_urls = Prelude.Sets.add s.seeded_peer_urls (normalize_base_url bus_url);
      project_map = join_projects s.project_map peer_id project_ids;
    }

-- `!reported || !expected || reported === expected`
unfoldable pub agrees : Option String → Option String → Bool
agrees reported expected =
    not (truthy reported) || (not (truthy expected) || get_or reported "" == get_or expected "")

unfoldable pub compare_continuity :
    String → ℕ → String → String → EnvelopeMetadata → Option Continuity → BusState → BusState
unfolding agrees shift_to
compare_continuity now limit task_id project_id m none s = record s {
  task_continuity = put s.task_continuity task_id (record {
    project_id = project_id;
    digest_hash = m.digest_hash;
    handoff_hash = m.handoff_hash;
  });
}
compare_continuity now limit task_id project_id m (some existing) s =
    if agrees m.digest_hash existing.digest_hash && agrees m.handoff_hash existing.handoff_hash
    then s
    else record s {
      counters = record s.counters { drifts_detected = s.counters.drifts_detected + 1 };
      recent_drifts = shift_to limit (
          s.recent_drifts
          ++ record {
            task_id = task_id;
            project_id = project_id;
            reported_digest_hash = m.digest_hash;
            expected_digest_hash = existing.digest_hash;
            reported_handoff_hash = m.handoff_hash;
            expected_handoff_hash = existing.handoff_hash;
            detected_at = now;
          }
            ∷ []);
    }

unfoldable pub register_drift : String → ℕ → Envelope → BusState → BusState
register_drift now limit envelope s =
    if not (envelope.verb == "status.updated") || not (truthy envelope.task_id)
    then s
    else elim envelope.metadata [
      | none ↦ s
      | some m ↦
          let task_id = get_or envelope.task_id "" in
          compare_continuity now limit task_id envelope.project_id m (get s.task_continuity task_id)
            s
    ]

abbrev pub is_active : PeerStatus → Bool
is_active active = true
is_active kicked = false

-- The targets of `forwardEnvelope`
unfoldable pub forward_targets : BusState → List String
forward_targets s =
    filter (λ url. not (url == ""))
      (Prelude.Sets.of_list s.seeded_peer_urls
        (map (λ peer. peer.bus_url) (filter (λ peer. is_active peer.status) (values s.peer_map))))

unfoldable pub touch_source : BusConfig → String → String → BusState → BusState
touch_source config now source s =
    if source == config.node_id then s else elim (get s.peer_map source) [
      | none ↦ s
      | some existing ↦ record s {
        peer_map =
            put s.peer_map source
              (record existing { last_seen = now; connected = is_active existing.status });
      }
    ]

unfoldable pub join_source : BusConfig → String → String → BusState → BusState
join_source config source project_id s =
    let peers = get_or (get s.project_map project_id) [] in
    record s {
      project_map =
          put s.project_map project_id
            (if source == config.node_id then peers else Prelude.Sets.add peers source);
    }
