-- ===== src/Federation/Wire.antt =====
-- The records and payloads of packages/federation-bus/src/index.ts. Requests stand here as the
-- schemas of `zod` leave them; of an envelope the fields that the bus reads.
use Prim.Native.Char.{code}
use droid_swarm.Prelude.{ℕ, ◌≡◌, refl, String, Bool, nat_eq, if◌then◌else◌, Option, List, Map}
use droid_swarm.Audit.Json.{Json}

pub data Role : Type 0 where
  master slave : Role

pub data PeerStatus : Type 0 where
  active kicked : PeerStatus

pub record PeerRecord : Type 0 where
  pub peer_id : String
  pub bus_url : String
  pub admin_url : String
  pub capabilities : List String
  pub project_ids : List String
  pub role : Role
  pub status : PeerStatus
  pub last_seen : String
  pub connected : Bool
  pub kicked_at : Option String

pub record DriftRecord : Type 0 where
  pub task_id : String
  pub project_id : String
  pub reported_digest_hash : Option String
  pub expected_digest_hash : Option String
  pub reported_handoff_hash : Option String
  pub expected_handoff_hash : Option String
  pub detected_at : String

-- The members of `envelope.body.metadata` that are texts
pub record EnvelopeMetadata : Type 0 where
  pub digest_hash : Option String
  pub handoff_hash : Option String

pub record Envelope : Type 0 where
  pub id : String
  pub verb : String
  pub project_id : String
  pub task_id : Option String
  pub metadata : Option EnvelopeMetadata

pub record BusEvent : Type 0 where
  pub sequence : ℕ
  pub received_at : String
  pub source_node_id : String
  pub envelope : Envelope

pub record PostPayload : Type 0 where
  pub source_node_id : String
  pub envelope : Envelope
  pub forwarded : Option Bool

pub record HeartbeatPayload : Type 0 where
  pub peer_id : String
  pub bus_url : String
  pub admin_url : String
  pub capabilities : List String
  pub project_ids : Option (List String)
  pub role : Option Role

pub record OnboardPayload : Type 0 where
  pub heartbeat : HeartbeatPayload
  pub open heartbeat use *
  pub project_id : Option String

pub record KickPayload : Type 0 where
  pub peer_id : String
  pub reason : Option String

pub record RollCallPayload : Type 0 where
  pub node_id : String
  pub bus_url : Option String
  pub admin_url : Option String
  pub project_id : Option String
  pub public_key : Option String
  pub capabilities : List String

pub record WelcomeResponse : Type 0 where
  pub accepted : Bool
  pub node_id : String
  pub rules_hash : String
  pub project_id : Option String

-- A payload, its JSON value as it is signed, and the signature's three fields
pub record Signed (A : Type 0) : Type 0 where
  pub payload : A
  pub json : Json
  pub signed_by : Option String
  pub nonce : Option String
  pub signature : Option String

pub record BusConfig : Type 0 where
  pub node_id : String
  pub peer_urls : Option (List String)
  pub event_retention_limit : Option ℕ
  pub trusted_public_keys : Option (Map String)
  pub enforce_signatures : Option Bool
  pub rules_hash : Option String
  pub on_slave_roll_call : Option (RollCallPayload → Option WelcomeResponse)

-- `value.endsWith('/') ? value.slice(0, -1) : value`
unfoldable pub normalize_base_url : String → String
normalize_base_url String.[] = ""
normalize_base_url (String.◌∷◌ c String.[]) =
    if nat_eq (code c) 47 then "" else String.◌∷◌ c String.[]
normalize_base_url (String.◌∷◌ c (String.◌∷◌ d s)) =
    String.◌∷◌ c (normalize_base_url (String.◌∷◌ d s))

normalize_base_url_lem : normalize_base_url "http://a:1/" ≡ "http://a:1"
unfolding normalize_base_url
normalize_base_url_lem = refl
