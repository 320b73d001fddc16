-- ===== src/Federation/Authentic.antt =====
-- Forgery and replay on the `POST` routes of packages/federation-bus/src/index.ts.
use droid_swarm.Prelude.{
  ◌≡◌, refl, String, Bool, true, false, ◌&&◌, truthy, get_or, some, List, [], Map, get, arith,
  eq_refl, Option-cases, inl, inr, ◌⊎◌,
}
use droid_swarm.Prelude.Sets.{has, add}
use droid_swarm.Federation.Wire.{Signed, BusConfig}
use droid_swarm.Federation.Signing.{
  SignatureError, replay_detected, Keys, Validation, accepted, rejected, build_signature_base,
  verify_federation_request, find_verification_key, validate_signed_request,
}
use droid_swarm.Federation.Bus.{
  BusState, Response, failed, enforced, guarded, post_events, post_heartbeat, post_onboard,
  post_kick, post_slave_roll_call, Request, events, heartbeat, onboard, kick, roll_call, handle,
}

module _ (k : Keys) where
  -- The request names a trusted signer and a nonce that was not seen, and the signature is the
  -- signer's for this kind of request, payload and nonce.
  pub record IsAuthentic {A : Type 0} (kind : String) (r : Signed A) (trusted : Map String)
      (seen : List String) : Type 0 where
    pub public_key : String
    pub trusts : get trusted (get_or r.signed_by "") ≡ some public_key
    pub verifies :
        k.verify public_key
          (build_signature_base kind r.json (get_or r.signed_by "") (get_or r.nonce ""))
          (get_or r.signature "")
        ≡ true
    pub unseen : has seen (get_or r.nonce "") ≡ false

  -- Under enforcement a request is authentic and its nonce is remembered, or it is rejected.
  pub validate-IsAuthentic :
      {A : Type 0} (kind : String) (r : Signed A) (trusted : Map String) (seen nonces : List String)
      → validate_signed_request k kind r trusted true seen ≡ accepted nonces
      → IsAuthentic kind r trusted seen × (nonces ≡ add seen (get_or r.nonce ""))
  unfolding validate_signed_request find_verification_key verify_federation_request
  validate-IsAuthentic kind r trusted seen nonces h =
      elim (Option-cases (get trusted (get_or r.signed_by ""))) [
        | inl unknown ↦ absurd (ground (arith, unknown))
        | inr (key, known) ↦ (
          record {
            public_key = key;
            trusts = known;
            verifies = ground (arith, known, eq_refl (get_or r.signed_by ""));
            unseen = ground (arith, known);
          },
          ground (arith, known),
        )
      ]

  -- A nonce that was seen is a replay, whatever the keys and the mode.
  pub validate-replay :
      {A : Type 0} (kind : String) (r : Signed A) (trusted : Map String) (mode : Bool)
      (seen : List String)
      → (truthy r.signed_by && (truthy r.nonce && truthy r.signature)) ≡ true
      → has seen (get_or r.nonce "") ≡ true
      → validate_signed_request k kind r trusted mode seen ≡ rejected replay_detected
  unfolding validate_signed_request
  validate-replay kind r trusted mode seen signed old = rw (signed, old)

  pub validate-signed :
      {A : Type 0} (kind : String) (r : Signed A) (trusted : Map String) (seen nonces : List String)
      → validate_signed_request k kind r trusted true seen ≡ accepted nonces
      → (truthy r.signed_by && (truthy r.nonce && truthy r.signature)) ≡ true
  unfolding validate_signed_request
  validate-signed kind r trusted seen nonces h = ground arith

  -- The request, whatever its route
  abbrev pub IsAuthenticRequest : Request → BusState → Type 0
  IsAuthenticRequest (events now r) s =
      IsAuthentic "events.post" r s.trusted_public_keys s.seen_nonces
  IsAuthenticRequest (heartbeat now r) s =
      IsAuthentic "heartbeat" r s.trusted_public_keys s.seen_nonces
  IsAuthenticRequest (onboard now r) s = IsAuthentic "onboard" r s.trusted_public_keys s.seen_nonces
  IsAuthenticRequest (kick now r) s = IsAuthentic "kick" r s.trusted_public_keys s.seen_nonces
  IsAuthenticRequest (roll_call now r) s =
      IsAuthentic "slave-roll-call" r s.trusted_public_keys s.seen_nonces

  module _ (config : BusConfig) where
    -- A handler behind the guard
    guarded-cases :
        {A : Type 0} (kind : String) (r : Signed A) (s : BusState)
        (handler : List String → BusState × Response × List String)
        → enforced config ≡ true
        → IsAuthentic kind r s.trusted_public_keys s.seen_nonces
          ⊎ ((e : SignatureError) × (guarded k config kind r s handler ≡ (s, failed e, [])))
    guarded-cases kind r s handler on =
        go (validate_signed_request k kind r s.trusted_public_keys (enforced config) s.seen_nonces)
          refl
      where
        go :
            (v : Validation)
            → validate_signed_request k kind r s.trusted_public_keys (enforced config) s.seen_nonces
              ≡ v
            → IsAuthentic kind r s.trusted_public_keys s.seen_nonces
              ⊎ ((e : SignatureError) × (guarded k config kind r s handler ≡ (s, failed e, [])))
        go (rejected e) h = inr (e, ground (arith, h))
        go (accepted nonces) h =
            inl
              (validate-IsAuthentic kind r s.trusted_public_keys s.seen_nonces nonces
                (rw on at h)).0

    -- Where signatures are enforced, a request on any `POST` route is authentic, or it is answered
    -- with an error, leaves the state as it was and forwards nothing.
    pub handle-authentic :
        (r : Request) (s : BusState)
        → enforced config ≡ true
        → IsAuthenticRequest r s
          ⊎ ((e : SignatureError) × (handle k config r s ≡ (s, failed e, [])))
    unfolding handle post_events post_heartbeat post_onboard post_kick post_slave_roll_call
    handle-authentic (events now r) s on = guarded-cases "events.post" r s _ on
    handle-authentic (heartbeat now r) s on = guarded-cases "heartbeat" r s _ on
    handle-authentic (onboard now r) s on = guarded-cases "onboard" r s _ on
    handle-authentic (kick now r) s on = guarded-cases "kick" r s _ on
    handle-authentic (roll_call now r) s on = guarded-cases "slave-roll-call" r s _ on
