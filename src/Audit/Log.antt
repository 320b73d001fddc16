-- ===== src/Audit/Log.antt =====
-- The audit log: rows, the logger's cached state, `appendAuditEvent`, `loadRows` and `verifyChain`
-- of packages/shared-tracing/src/audit-logger.ts.
use droid_swarm.Prelude.{
  ℕ, ◌+◌, String, Bool, true, false, not, ◌&&◌, ◌==◌, leb, join, decimal, truthy, get_or,
  if◌then◌else◌, Option, none, some, List, [], ◌∷◌, ◌++◌, filter,
}
use droid_swarm.Audit.Json.{Json, stable_serialize}

-- node:crypto, node:zlib and `JSON.parse`, with the signing key pair of the database. A failing
-- `inflate` or `parse` is an exception there.
pub record Platform : Type 0 where
  pub sha256 : String → String
  pub deflate : String → List ℕ
  pub inflate : List ℕ → Option String
  pub parse : String → Option Json
  pub sign : String → String
  pub verify : String → String → Bool

pub record Row : Type 0 where
  pub id : ℕ
  pub ts : String
  pub swarm_id : String
  pub node_id : String
  pub event_type : String
  pub payload : List ℕ
  pub prev_hash : String
  pub merkle_leaf : String
  pub signature : Option String
  pub height : ℕ

-- The table `audit_log` in the order of `id`, and the last id that it gave out.
pub record Table : Type 0 where
  pub rows : List Row
  pub last_id : ℕ

-- `AuditLoggerState` of one process. The height -1 of a state that has loaded nothing is `none`.
pub record LoggerState : Type 0 where
  pub last_leaf : Option String
  pub last_height : Option ℕ

abbrev pub fresh_state : LoggerState
fresh_state = record { last_leaf = none; last_height = none }

abbrev pub empty_table : Table
empty_table = record { rows = []; last_id = 0 }

abbrev pub genesis_hash : String
genesis_hash = "genesis-hash-00000000000000000000000000000000"

pub record Event : Type 0 where
  pub ts : String
  pub swarm_id : String
  pub node_id : String
  pub event_type : String
  pub payload : Json

pub record AppendResult : Type 0 where
  pub id : ℕ
  pub hash : String
  pub height : ℕ
  pub signature : Option String

abbrev pub last_row : List Row → Option Row
last_row [] = none
last_row (r ∷ []) = some r
last_row (r ∷ s ∷ rest) = last_row (s ∷ rest)

module _ (p : Platform) where
  open p use {sha256, deflate, inflate, parse, sign, verify}

  unfoldable pub inflate_payload : List ℕ → Option Json
  inflate_payload bytes = elim (inflate bytes) [ none ↦ none | some text ↦ parse text ]

  unfoldable pub deflate_payload : Json → List ℕ
  deflate_payload payload = deflate (stable_serialize payload)

  -- What is hashed: the fields joined by `|`
  unfoldable pub leaf_text : String → String → String → String → Json → String → ℕ → String
  unfolding join
  leaf_text ts swarm_id node_id event_type payload prev_hash height = join "|" (
      ts
      ∷ swarm_id
      ∷ node_id
      ∷ event_type
      ∷ stable_serialize payload
      ∷ prev_hash
      ∷ decimal height
      ∷ [])

  unfoldable pub compute_leaf_hash : String → String → String → String → Json → String → ℕ → String
  compute_leaf_hash ts swarm_id node_id event_type payload prev_hash height =
      sha256 (leaf_text ts swarm_id node_id event_type payload prev_hash height)

  unfoldable pub verify_signature_for_hash : String → Option String → Bool
  verify_signature_for_hash hash signature =
      if truthy signature then verify hash (get_or signature "") else true

  -- The state that `getState` and `loadLastRow` give before a write
  unfoldable pub load_state : LoggerState → Table → LoggerState
  load_state state table = elim state.last_height [
    | some h ↦ state
    | none ↦ elim (last_row table.rows) [
      | none ↦ record { last_leaf = none; last_height = none }
      | some row ↦ record { last_leaf = some row.merkle_leaf; last_height = some row.height }
    ]
  ]

  abbrev pub next_height : Option ℕ → ℕ
  next_height none = 0
  next_height (some h) = h + 1

  -- The row that `appendAuditEvent` writes from a loaded state
  unfoldable pub next_row : LoggerState → ℕ → Event → Row
  next_row state id e =
      let prev_hash = get_or state.last_leaf genesis_hash in
      let height = next_height state.last_height in
      let leaf =
        compute_leaf_hash e.ts e.swarm_id e.node_id e.event_type e.payload prev_hash height in
      record {
        id = id;
        ts = e.ts;
        swarm_id = e.swarm_id;
        node_id = e.node_id;
        event_type = e.event_type;
        payload = deflate_payload e.payload;
        prev_hash = prev_hash;
        merkle_leaf = leaf;
        signature = some (sign leaf);
        height = height;
      }

  unfoldable pub append_audit_event :
      LoggerState → Table → Event → LoggerState × Table × AppendResult
  append_audit_event state table e =
      let row = next_row (load_state state table) (table.last_id + 1) e in
      (
        record { last_leaf = some row.merkle_leaf; last_height = some row.height },
        record { rows = table.rows ++ row ∷ []; last_id = table.last_id + 1 },
        record {
          id = row.id;
          hash = row.merkle_leaf;
          height = row.height;
          signature = row.signature;
        },
      )

  -- The writes of one process, in order
  unfoldable pub append_all : LoggerState → Table → List Event → LoggerState × Table
  append_all state table [] = (state, table)
  append_all state table (e ∷ es) =
      let (state', table', result) = append_audit_event state table e in append_all state' table' es

  -- `WHERE id BETWEEN ? AND ?`
  unfoldable pub load_rows : Table → ℕ → ℕ → List Row
  load_rows table start_id end_id =
      filter (λ row. leb start_id row.id && leb row.id end_id) table.rows

  -- One round of the loop of `verifyChain`: what the row must satisfy after `previous_hash`
  unfoldable pub verify_row : String → Row → Bool
  verify_row previous_hash row = elim (inflate_payload row.payload) [
    | none ↦ false
    | some payload ↦
        let expected_leaf =
          compute_leaf_hash row.ts row.swarm_id row.node_id row.event_type payload previous_hash
            row.height in
        if not (row.prev_hash == previous_hash)
        then false
        else if not (row.merkle_leaf == expected_leaf)
        then false
        else verify_signature_for_hash expected_leaf row.signature
  ]

  unfoldable pub verify_rows : String → List Row → Bool
  verify_rows previous_hash [] = true
  verify_rows previous_hash (row ∷ rows) =
      let rest = verify_rows row.merkle_leaf rows in
      if verify_row previous_hash row then rest else false

  unfoldable pub verify_chain : Table → ℕ → ℕ → Bool
  verify_chain table start_id end_id = verify_rows genesis_hash (load_rows table start_id end_id)
