-- ===== src/Federation/Peers.antt =====
-- What a kick does to a peer of the bus (packages/federation-bus/src/index.ts).
use droid_swarm.Prelude.{
  ℕ, ◌≡◌, ◌≢◌, refl, ap, String, Bool, true, ◌==◌, not, ◌&&◌, get_or, none, some, List, [], ◌∷◌,
  filter, get, get-put, arith, eq_iff, eq_refl, Bool-cases, inl, inr,
}
use droid_swarm.Prelude.Sets.{has, add, of_list, has-add}
use droid_swarm.Federation.Wire.{
  Signed, PostPayload, HeartbeatPayload, Envelope, PeerRecord, master, normalize_base_url, active,
  BusConfig,
}
use droid_swarm.Federation.Signing.{Keys, Validation, accepted, rejected, validate_signed_request}
use droid_swarm.Federation.Bus.{
  BusState, Response, failed, enforced, upsert_peer, accept_post, kick_peer, guarded, post_events,
  post_heartbeat, post_onboard, post_kick, post_slave_roll_call, Request, events, heartbeat,
  onboard, kick, roll_call, handle, serve, register_drift, compare_continuity, touch_source,
  join_source, store_event, forward_targets,
}

has-filter :
    (p : String → Bool) (xs : List String) (x : String) → has (filter p xs) x ≡ (has xs x && p x)
unfolding has
has-filter p [] x = refl
has-filter p (y ∷ xs) x = elim (Bool-cases (y == x)) [
  | inl same ↦ ground (arith, has-filter p xs x, same, ap p ((eq_iff y x).0 same))
  | inr other ↦ ground (arith, has-filter p xs x, other)
]

has-of_list : (s xs : List String) (x : String) → has s x ≡ true → has (of_list s xs) x ≡ true
unfolding of_list
has-of_list s [] x h = h
has-of_list s (y ∷ xs) x h = has-of_list (add s y) xs x (ground (arith, has-add s y x))

-- A URL that is seeded is a target, whatever the peers are.
seeded_target :
    (s xs : List String) (url : String)
    → has s url ≡ true
    → url ≢ ""
    → has (filter (λ u. not (u == "")) (of_list s xs)) url ≡ true
seeded_target s xs url seeded nonempty = ground (
  arith,
  has-filter (λ u. not (u == "")) (of_list s xs) url,
  has-of_list s xs url seeded,
  eq_iff url "",
)

seeded-forward_targets :
    (s : BusState) (url : String)
    → has s.seeded_peer_urls url ≡ true
    → url ≢ ""
    → has (forward_targets s) url ≡ true
unfolding forward_targets
seeded-forward_targets s url seeded nonempty =
    seeded_target s.seeded_peer_urls _ url seeded nonempty

touch_source-seeded :
    (config : BusConfig) (now source : String) (s : BusState)
    → (touch_source config now source s).seeded_peer_urls ≡ s.seeded_peer_urls
unfolding touch_source
touch_source-seeded config now source s = ground arith

register_drift-seeded :
    (now : String) (limit : ℕ) (envelope : Envelope) (s : BusState)
    → (register_drift now limit envelope s).seeded_peer_urls ≡ s.seeded_peer_urls
unfolding register_drift compare_continuity
register_drift-seeded now limit envelope s = ground arith

accept_post-seeded :
    (config : BusConfig) (now : String) (p : PostPayload) (s : BusState)
    → (accept_post config now p s).0.seeded_peer_urls ≡ s.seeded_peer_urls
unfolding accept_post
accept_post-seeded config now p s = elim (Bool-cases (has s.seen_envelope_ids p.envelope.id)) [
  | inl old ↦ rw old
  | inr new ↦
      rw (new, register_drift-seeded)
        (unfold join_source in rw touch_source-seeded (unfold store_event in refl))
]

kick_peer-seeded :
    (now peer_id : String) (s : BusState)
    → (kick_peer now peer_id s).seeded_peer_urls ≡ s.seeded_peer_urls
unfolding kick_peer
kick_peer-seeded now peer_id s = ground arith

module _ (k : Keys) (config : BusConfig) where
  -- What every accepted handler keeps, the guarded route keeps.
  guarded-keeps :
      {A : Type 0} (kind url : String) (r : Signed A) (s : BusState)
      (handler : List String → BusState × Response × List String)
      → has s.seeded_peer_urls url ≡ true
      → ((nonces : List String) → has (handler nonces).0.seeded_peer_urls url ≡ true)
      → has (guarded k config kind r s handler).0.seeded_peer_urls url ≡ true
  guarded-keeps kind url r s handler h keeps =
      go (validate_signed_request k kind r s.trusted_public_keys (enforced config) s.seen_nonces)
    where
      go :
          (v : Validation)
          → has
              (elim v as (λ x. BusState × Response × List String) [
                | rejected e ↦ (s, failed e, [])
                | accepted nonces ↦ handler nonces
              ]).0.seeded_peer_urls
              url
            ≡ true
      go (rejected e) = h
      go (accepted nonces) = keeps nonces

  handle-seeded :
      (r : Request) (s : BusState) (url : String)
      → has s.seeded_peer_urls url ≡ true
      → has (handle k config r s).0.seeded_peer_urls url ≡ true
  unfolding handle post_events post_heartbeat post_onboard post_kick post_slave_roll_call
      upsert_peer
  handle-seeded (events now r) s url h =
      guarded-keeps "events.post" url r s _ h λ nonces. rw accept_post-seeded h
  handle-seeded (heartbeat now r) s url h =
      guarded-keeps "heartbeat" url r s _ h λ nonces. rw (has-add, h)
  handle-seeded (onboard now r) s url h =
      guarded-keeps "onboard" url r s _ h λ nonces. rw (has-add, h)
  handle-seeded (kick now r) s url h =
      guarded-keeps "kick" url r s _ h λ nonces. rw kick_peer-seeded h
  handle-seeded (roll_call now r) s url h =
      guarded-keeps "slave-roll-call" url r s _ h λ nonces. rw (has-add, h)

  serve-seeded :
      (rs : List Request) (s : BusState) (url : String)
      → has s.seeded_peer_urls url ≡ true
      → has (serve k config s rs).seeded_peer_urls url ≡ true
  unfolding serve
  serve-seeded [] s url h = h
  serve-seeded (r ∷ rs) s url h =
      serve-seeded rs (handle k config r s).0 url (handle-seeded r s url h)

  -- A bus URL that is not empty and that the bus has once recorded stays a target of every later
  -- forward, whatever requests are served, a kick of its peer among them.
  serve-forward_targets :
      (rs : List Request) (s : BusState) (url : String)
      → has s.seeded_peer_urls url ≡ true
      → url ≢ ""
      → has (forward_targets (serve k config s rs)) url ≡ true
  serve-forward_targets rs s url h nonempty =
      seeded-forward_targets (serve k config s rs) url (serve-seeded rs s url h) nonempty

  -- An accepted heartbeat makes its peer active and connected and clears the time of its kick,
  -- also where the peer was kicked before, and so stands against the kick.
  heartbeat-reactivates :
      (now : String) (r : Signed HeartbeatPayload) (s : BusState) {nonces : List String}
      → validate_signed_request k "heartbeat" r s.trusted_public_keys
          (enforced config)
          s.seen_nonces
        ≡ accepted nonces
      → (peer : PeerRecord) × (get (post_heartbeat k config now r s).0.peer_map r.payload.peer_id
          ≡ some peer)
        × (peer.status ≡ active)
        × (peer.connected ≡ true)
        × (peer.kicked_at ≡ none)
  unfolding post_heartbeat upsert_peer
  heartbeat-reactivates now r s {nonces} h =
      let peer : PeerRecord = record {
        peer_id = r.payload.peer_id;
        bus_url = normalize_base_url r.payload.bus_url;
        admin_url = normalize_base_url r.payload.admin_url;
        capabilities = r.payload.capabilities;
        project_ids = get_or r.payload.project_ids [];
        role = get_or r.payload.role master;
        status = active;
        last_seen = now;
        connected = true;
        kicked_at = none;
      } in
      (
        peer,
        ground (
          arith,
          h,
          get-put s.peer_map r.payload.peer_id r.payload.peer_id peer,
          eq_refl r.payload.peer_id,
        ),
        refl,
        refl,
        refl,
      )
