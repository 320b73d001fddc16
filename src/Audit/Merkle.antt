-- ===== src/Audit/Merkle.antt =====
-- `computeMerkleRootFromLeaves`, `getMerkleRoot` and `exportProof` of
-- packages/shared-tracing/src/audit-logger.ts. A text that JavaScript reads as `undefined` is `none`.
use droid_swarm.Prelude.{
  ℕ, zero, suc, ◌+◌, ◌-◌, ◌/◌, ◌%◌, String, ◌<>◌, nat_eq, ltb, if◌then◌else◌, Option, none, some,
  List, [], ◌∷◌, ◌++◌, map, length, get_elem?,
}
use droid_swarm.Audit.Json.{Json}
use droid_swarm.Audit.Log.{Platform, Row, Table, inflate_payload}

pub data Side : Type 0 where
  left right : Side

pub record ProofStep : Type 0 where
  pub side : Side
  pub hash : Option String

-- A row with its payload read back
pub record AuditLogEvent : Type 0 where
  pub id : ℕ
  pub ts : String
  pub swarm_id : String
  pub node_id : String
  pub event_type : String
  pub payload : Json
  pub prev_hash : String
  pub merkle_leaf : String
  pub signature : Option String
  pub height : ℕ

pub record AuditProof : Type 0 where
  pub event : AuditLogEvent
  pub merkle_root : Option String
  pub proof : List ProofStep

-- What `exportProof` gives: `undefined`, the exception of a payload that cannot be read back, or a
-- proof
pub data ExportResult : Type 0 where
  missing thrown : ExportResult
  exported : AuditProof → ExportResult

-- `a ?? b`
abbrev pub or_else : Option String → Option String → Option String
or_else none b = b
or_else (some a) b = some a

module _ (p : Platform) where
  -- The inner loop: the level above, where the last of an odd number is paired with itself
  unfoldable pub next_level : List String → List String
  next_level [] = []
  next_level (l ∷ []) = p.sha256 (l <> l) ∷ []
  next_level (l ∷ r ∷ rest) = p.sha256 (l <> r) ∷ next_level rest

  -- `while (level.length > 1)`
  unfoldable pub climb : ℕ → List String → List String
  climb zero level = level
  climb (suc fuel) level =
      let rest = climb fuel (next_level level) in if ltb 1 (length level) then rest else level

  unfoldable pub compute_merkle_root_from_leaves : List String → Option String
  compute_merkle_root_from_leaves [] = some "empty"
  compute_merkle_root_from_leaves leaves = get_elem? (climb (length leaves) leaves) 0

  abbrev pub leaves_of : List Row → List String
  leaves_of rows = map (λ row. row.merkle_leaf) rows

  unfoldable pub get_merkle_root : Table → Option String
  get_merkle_root table = compute_merkle_root_from_leaves (leaves_of table.rows)

  -- `rows.findIndex((row) => row.id === eventId)`
  unfoldable pub find_index : ℕ → List Row → Option ℕ
  find_index event_id [] = none
  find_index event_id (row ∷ rows) =
      let rest = find_index event_id rows in
      if nat_eq row.id event_id then some 0 else elim rest [ none ↦ none | some i ↦ some (i + 1) ]

  unfoldable pub proof_step : List String → ℕ → ProofStep
  proof_step level cursor =
      if nat_eq (cursor % 2) 1
      then record {
        side = left;
        hash = or_else (get_elem? level (cursor - 1)) (get_elem? level cursor);
      }
      else record {
        side = right;
        hash = or_else (get_elem? level (cursor + 1)) (get_elem? level cursor);
      }

  -- The loop of `exportProof`: the last level, and the steps that it pushes
  unfoldable pub climb_proof : ℕ → List String → ℕ → List ProofStep → List String × List ProofStep
  climb_proof zero level cursor proof = (level, proof)
  climb_proof (suc fuel) level cursor proof =
      let rest =
        climb_proof fuel (next_level level) (cursor / 2) (proof ++ proof_step level cursor ∷ []) in
      if ltb 1 (length level) then rest else (level, proof)

  abbrev pub event_of : Row → Option Json → Option AuditLogEvent
  event_of row none = none
  event_of row (some payload) = some (record {
    id = row.id;
    ts = row.ts;
    swarm_id = row.swarm_id;
    node_id = row.node_id;
    event_type = row.event_type;
    payload = payload;
    prev_hash = row.prev_hash;
    merkle_leaf = row.merkle_leaf;
    signature = row.signature;
    height = row.height;
  })

  -- `toEvent`, with no result where it throws
  unfoldable pub to_event : Row → Option AuditLogEvent
  to_event row = event_of row (inflate_payload p row.payload)

  abbrev pub proof_of : List String × List ProofStep → Option AuditLogEvent → ExportResult
  proof_of climbed none = thrown
  proof_of climbed (some event) = exported (record {
    event = event;
    merkle_root = or_else (get_elem? climbed.0 0) (some "empty");
    proof = climbed.1;
  })

  -- The lines after the search. A row stands at the index that was found.
  abbrev pub export_row : List String × List ProofStep → Option Row → ExportResult
  export_row climbed none = thrown
  export_row climbed (some row) = proof_of climbed (to_event row)

  unfoldable pub export_proof_at : List Row → ℕ → ExportResult
  export_proof_at rows index =
      export_row (climb_proof (length rows) (leaves_of rows) index []) (get_elem? rows index)

  abbrev pub export_found : List Row → Option ℕ → ExportResult
  export_found rows none = missing
  export_found rows (some index) = export_proof_at rows index

  unfoldable pub export_proof : Table → ℕ → ExportResult
  export_proof table event_id = export_found table.rows (find_index event_id table.rows)
