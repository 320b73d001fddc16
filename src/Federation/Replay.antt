-- ===== src/Federation/Replay.antt =====
-- A request that was accepted is not accepted again (packages/federation-bus/src/index.ts).
use droid_swarm.Prelude.{
  ℕ, ◌<◌, ◌≡◌, refl, String, true, false, get_or, List, [], ◌∷◌, arith, eq_refl, Bool-cases, inl,
  inr, ◌⊎◌,
}
use droid_swarm.Prelude.Sets.{has, add, append_end, add-append_end, has-append_end, has-add}
use droid_swarm.Federation.Wire.{Signed, PostPayload, Envelope, BusConfig}
use droid_swarm.Federation.Signing.{
  SignatureError, replay_detected, Keys, Validation, accepted, rejected, validate_signed_request,
}
use droid_swarm.Federation.Bus.{
  BusState, Response, failed, shift_to, enforced, upsert_peer, accept_post, kick_peer, guarded,
  post_events, post_heartbeat, post_onboard, post_kick, post_slave_roll_call, Request, events,
  heartbeat, onboard, kick, roll_call, handle, register_drift, compare_continuity, touch_source,
  join_source, store_event,
}
use droid_swarm.Federation.Authentic.{validate-IsAuthentic, validate-replay, validate-signed}

shift_to-append_end :
    (limit : ℕ) (ids : List String) (x : String)
    → 0 < limit
    → has (shift_to limit (append_end ids x)) x ≡ true
unfolding shift_to append_end has
shift_to-append_end limit [] x h = ground (arith, eq_refl x)
shift_to-append_end limit (y ∷ ids) x h =
    ground (arith, shift_to-append_end limit ids x, has-append_end ids x x, eq_refl x)

has-add_self : (ids : List String) (x : String) → has (add ids x) x ≡ true
has-add_self ids x = ground (arith, has-add ids x x, eq_refl x)

-- A post leaves the nonces that it is given.
touch_source-seen_nonces :
    (config : BusConfig) (now source : String) (s : BusState)
    → (touch_source config now source s).seen_nonces ≡ s.seen_nonces
unfolding touch_source
touch_source-seen_nonces config now source s = ground arith

register_drift-seen_nonces :
    (now : String) (limit : ℕ) (envelope : Envelope) (s : BusState)
    → (register_drift now limit envelope s).seen_nonces ≡ s.seen_nonces
unfolding register_drift compare_continuity
register_drift-seen_nonces now limit envelope s = ground arith

accept_post-seen_nonces :
    (config : BusConfig) (now : String) (p : PostPayload) (s : BusState)
    → (accept_post config now p s).0.seen_nonces ≡ s.seen_nonces
unfolding accept_post
accept_post-seen_nonces config now p s = elim (Bool-cases (has s.seen_envelope_ids p.envelope.id)) [
  | inl old ↦ rw old
  | inr new ↦
      rw (new, register_drift-seen_nonces)
        (unfold join_source in rw touch_source-seen_nonces (unfold store_event in refl))
]

kick_peer-seen_nonces :
    (now peer_id : String) (s : BusState) → (kick_peer now peer_id s).seen_nonces ≡ s.seen_nonces
unfolding kick_peer
kick_peer-seen_nonces now peer_id s = ground arith

module _ (k : Keys) (config : BusConfig) where
  -- A handler that keeps the newest nonce is not run twice on one request.
  guarded-twice :
      {A : Type 0} (kind : String) (r : Signed A) (s : BusState)
      (handler handler' : List String → BusState × Response × List String)
      → enforced config ≡ true
      → ((nonces : List String)
          → has s.seen_nonces (get_or r.nonce "") ≡ false
          → nonces ≡ add s.seen_nonces (get_or r.nonce "")
          → has (handler nonces).0.seen_nonces (get_or r.nonce "") ≡ true)
      → ((e : SignatureError) × (guarded k config kind r s handler ≡ (s, failed e, [])))
        ⊎ (guarded k config kind r (guarded k config kind r s handler).0 handler'
            ≡ ((guarded k config kind r s handler).0, failed replay_detected, []))
  guarded-twice kind r s handler handler' on keeps =
      go (validate_signed_request k kind r s.trusted_public_keys (enforced config) s.seen_nonces)
        refl
    where
      go :
          (v : Validation)
          → validate_signed_request k kind r s.trusted_public_keys (enforced config) s.seen_nonces
            ≡ v
          → ((e : SignatureError) × (guarded k config kind r s handler ≡ (s, failed e, [])))
            ⊎ (guarded k config kind r (guarded k config kind r s handler).0 handler'
                ≡ ((guarded k config kind r s handler).0, failed replay_detected, []))
      go (rejected e) h = inl (e, ground (arith, h))
      go (accepted nonces) h =
          let valid : validate_signed_request k kind r s.trusted_public_keys true s.seen_nonces
              ≡ accepted nonces =
            rw on at h in
          let (authentic, same) =
            validate-IsAuthentic k kind r s.trusted_public_keys s.seen_nonces nonces valid in
          let next = (handler nonces).0 in
          let again =
            validate-replay k kind r next.trusted_public_keys (enforced config) next.seen_nonces
              (validate-signed k kind r s.trusted_public_keys s.seen_nonces nonces valid)
              (keeps nonces authentic.unseen same) in
          inr (ground (arith, h, again))

  keeps_shifted :
      (nonces seen : List String) (n : String)
      → has seen n ≡ false
      → nonces ≡ add seen n
      → has (shift_to 1000 nonces) n ≡ true
  keeps_shifted nonces seen n new e =
      rw (e, add-append_end seen n new) (shift_to-append_end 1000 seen n (omega arith))

  -- Where signatures are enforced, a request on any `POST` route is rejected, or the same request
  -- right after it is answered as a replay and changes nothing.
  pub handle-twice :
      (r : Request) (s : BusState)
      → enforced config ≡ true
      → ((e : SignatureError) × (handle k config r s ≡ (s, failed e, [])))
        ⊎ (handle k config r (handle k config r s).0
            ≡ ((handle k config r s).0, failed replay_detected, []))
  unfolding handle post_events post_heartbeat post_onboard post_kick post_slave_roll_call
      upsert_peer
  handle-twice (events now r) s on = guarded-twice "events.post" r s _ _ on λ nonces new e.
      rw accept_post-seen_nonces (keeps_shifted nonces s.seen_nonces (get_or r.nonce "") new e)
  handle-twice (heartbeat now r) s on =
      guarded-twice "heartbeat" r s _ _ on
        λ nonces new e. rw e (has-add_self s.seen_nonces (get_or r.nonce ""))
  handle-twice (onboard now r) s on =
      guarded-twice "onboard" r s _ _ on
        λ nonces new e. rw e (has-add_self s.seen_nonces (get_or r.nonce ""))
  handle-twice (kick now r) s on =
      guarded-twice "kick" r s _ _ on λ nonces new e.
        rw (kick_peer-seen_nonces, e) (has-add_self s.seen_nonces (get_or r.nonce ""))
  handle-twice (roll_call now r) s on =
      guarded-twice "slave-roll-call" r s _ _ on
        λ nonces new e. rw e (has-add_self s.seen_nonces (get_or r.nonce ""))
