-- ===== src/Federation/Signing.antt =====
-- `signFederationRequest`, `verifyFederationRequest` and `validateSignedRequest` of
-- packages/federation-bus/src/index.ts.
use droid_swarm.Prelude
use droid_swarm.Prelude.{
  String, Bool, true, false, ◌==◌, not, ◌&&◌, ◌<>◌, truthy, get_or, if◌then◌else◌, Option, none,
  some, List, Map, get,
}
use droid_swarm.Audit.Json.{Json, stable_serialize}
use droid_swarm.Federation.Wire.{Signed}

pub record VerificationConfig : Type 0 where
  pub key_id : String
  pub public_key_pem : String
  pub enforce_verification : Bool

pub record SigningKey : Type 0 where
  pub key_id : String
  pub private_key_pem : String

-- The messages of the errors that `validateSignedRequest` throws
pub data SignatureError : Type 0 where
  missing_signature replay_detected unknown_signer invalid_signature : SignatureError

pub data Validation : Type 0 where
  accepted : List String → Validation
  rejected : SignatureError → Validation

-- node:crypto: `sign` by a private key, and `verify` by a public key
pub record Keys : Type 0 where
  pub sign : String → String → String
  pub verify : String → String → String → Bool

unfoldable pub build_signature_base : String → Json → String → String → String
build_signature_base kind payload signed_by nonce =
    kind <> "|" <> signed_by <> "|" <> nonce <> "|" <> stable_serialize payload

module _ (k : Keys) where
  -- The nonce is a random UUID there.
  unfoldable pub sign_federation_request :
      {A : Type 0} → String → String → A → Json → SigningKey → Signed A
  unfolding build_signature_base
  sign_federation_request nonce kind payload json key = record {
    payload = payload;
    json = json;
    signed_by = some key.key_id;
    nonce = some nonce;
    signature = some (k.sign key.private_key_pem (build_signature_base kind json key.key_id nonce));
  }

  unfoldable pub verify_federation_request :
      String → Json → Option String → Option String → Option String → VerificationConfig → Bool
  unfolding build_signature_base
  verify_federation_request kind payload signed_by nonce signature verification =
      if not (truthy signed_by && (truthy nonce && truthy signature))
      then not verification.enforce_verification
      else if not (get_or signed_by "" == verification.key_id)
      then false
      else k.verify verification.public_key_pem
          (build_signature_base kind payload (get_or signed_by "") (get_or nonce ""))
          (get_or signature "")

  unfoldable pub find_verification_key : Option String → Map String → Option VerificationConfig
  find_verification_key signed_by trusted_public_keys =
      if not (truthy signed_by)
      then none
      else if not (truthy (get trusted_public_keys (get_or signed_by "")))
      then none
      else some (record {
        key_id = get_or signed_by "";
        public_key_pem = get_or (get trusted_public_keys (get_or signed_by "")) "";
        enforce_verification = true;
      })

  -- `accepted` carries the nonces seen from now on.
  unfoldable pub validate_signed_request :
      {A : Type 0} → String → Signed A → Map String → Bool → List String → Validation
  validate_signed_request kind r trusted_public_keys enforce_signatures seen_nonces =
      if not (truthy r.signed_by && (truthy r.nonce && truthy r.signature))
      then if enforce_signatures then rejected missing_signature else accepted seen_nonces
      else if Prelude.Sets.has seen_nonces (get_or r.nonce "")
      then rejected replay_detected
      else elim (find_verification_key r.signed_by trusted_public_keys) [
        | none ↦ if enforce_signatures then rejected unknown_signer else accepted seen_nonces
        | some verification ↦
            if not
              (verify_federation_request kind r.json r.signed_by r.nonce r.signature verification)
            then rejected invalid_signature
            else accepted (Prelude.Sets.add seen_nonces (get_or r.nonce ""))
      ]
