-- ===== src/Audit/Tests.antt =====
-- Runs of the audit log, and its theorems at concrete logs.
use droid_swarm.Prelude.{
  ◌≡◌, ◌≢◌, refl, ◌∙◌, String, Bool, true, false, ◌==◌, none, some, [], ◌∷◌, arith, eq_iff, eq_refl,
  if◌then◌else◌, decimal,
}
use droid_swarm.Audit.Json.{Json, obj, end, member, undef, stable_serialize}
use droid_swarm.Audit.Log.{
  Platform, Row, Table, LoggerState, Event, fresh_state, empty_table, genesis_hash, inflate_payload,
  deflate_payload, load_state, next_row, compute_leaf_hash, leaf_text, verify_row,
  verify_signature_for_hash, append_audit_event, append_all, verify_rows, verify_chain,
}
use droid_swarm.Audit.Chain.{
  end_hash, Recovers, SignsSoundly, IsLinked, append_audit_event-IsLinked,
}
use droid_swarm.Audit.Verify.{
  write_all, empty-IsLinked, verify_chain-append_all, stale-verify_chain,
}
use droid_swarm.Audit.Tamper.{event_type-verify_rows, shift-verify_rows}
use droid_swarm.Audit.Merkle.{
  ExportResult, thrown, exported, to_event, find_index, export_proof_at, export_proof,
}

abbrev empty_object : Json
empty_object = obj end

-- A platform whose digest and signature are the text itself, and whose parser knows one text
abbrev toy : Platform
toy = record {
  sha256 = λ s. s;
  deflate = λ s. if s == "{}" then 0 ∷ [] else [];
  inflate = λ bytes. elim bytes [ [] ↦ none | b ∷ bs ↦ some "{}" ];
  parse = λ s. if s == "{}" then some empty_object else none;
  sign = λ s. s;
  verify = λ hash signature. hash == signature;
}

abbrev started : Event
started = record {
  ts = "t1";
  swarm_id = "s";
  node_id = "n|m";
  event_type = "STARTED";
  payload = empty_object;
}

abbrev stopped : Event
stopped = record {
  ts = "t2";
  swarm_id = "s";
  node_id = "n";
  event_type = "STOPPED";
  payload = empty_object;
}

abbrev unreadable : Event
unreadable = record {
  ts = "t3";
  swarm_id = "s";
  node_id = "n";
  event_type = "GOVERNANCE_PROPOSAL_APPROVED";
  payload = obj (member "comment" undef end);
}

toy-SignsSoundly : SignsSoundly toy
toy-SignsSoundly hash = eq_refl hash

toy-Recovers : Recovers toy empty_object
unfolding inflate_payload deflate_payload stable_serialize
toy-Recovers = (empty_object, refl, refl)

verify_chain-append_all_example :
    verify_chain toy
      (append_all toy fresh_state
        (append_all toy fresh_state empty_table (started ∷ [])).1
        (stopped ∷ [])).1
      1
      9
    ≡ true
verify_chain-append_all_example =
    verify_chain-append_all toy (started ∷ []) (stopped ∷ []) 9 toy-SignsSoundly (toy-Recovers, tt)
      (toy-Recovers, tt) (unfold append_all append_audit_event in omega arith)

abbrev first_leaf : String
first_leaf = "t1|s|n|m|STARTED|{}|genesis-hash-00000000000000000000000000000000|0"

-- The row that `started` writes first, with the event type that is given
abbrev edited : String → Row
edited event_type = record {
  id = 1;
  ts = "t1";
  swarm_id = "s";
  node_id = "n|m";
  event_type = event_type;
  payload = 0 ∷ [];
  prev_hash = genesis_hash;
  merkle_leaf = first_leaf;
  signature = some first_leaf;
  height = 0;
}

abbrev one_row : Table
one_row = (append_audit_event toy fresh_state empty_table started).1

-- What a process that wrote another first row has cached
abbrev stale : LoggerState
stale = record { last_leaf = some "other"; last_height = some 0 }

one_row_leaf : end_hash genesis_hash one_row.rows ≡ first_leaf
unfolding append_audit_event next_row compute_leaf_hash leaf_text stable_serialize load_state
    decimal
one_row_leaf = refl

differs_from_first :
    (s : String) → (s == first_leaf) ≡ false → s ≢ end_hash genesis_hash one_row.rows
differs_from_first s h e = cc ((eq_iff s first_leaf).1 (e ∙ one_row_leaf), h)

stale-verify_chain_example :
    verify_chain toy
      (write_all toy (append_audit_event toy stale one_row stopped).1 ((fresh_state, started) ∷ []))
      1
      9
    ≡ false
unfolding append_audit_event next_row
stale-verify_chain_example =
    stale-verify_chain toy stale one_row stopped ((fresh_state, started) ∷ []) 9 refl refl
      (differs_from_first "other" refl) (omega arith) (omega arith)

started_verifies : verify_rows toy genesis_hash (edited "STARTED" ∷ []) ≡ true
unfolding verify_rows verify_row compute_leaf_hash leaf_text stable_serialize decimal
    inflate_payload verify_signature_for_hash
started_verifies = refl

one_row-IsLinked : IsLinked toy (append_audit_event toy fresh_state empty_table started).0 one_row
one_row-IsLinked =
    append_audit_event-IsLinked toy fresh_state empty_table started toy-SignsSoundly toy-Recovers
      (empty-IsLinked toy)

event_type-verify_rows_example : verify_rows toy genesis_hash (edited "STOPPED" ∷ []) ≡ false
event_type-verify_rows_example =
    event_type-verify_rows toy genesis_hash [] [] (edited "STARTED") "STOPPED" (λ s t e. e)
      started_verifies (λ e. cc ((eq_iff "STOPPED" "STARTED").1 e))

shift-verify_rows_example :
    verify_rows toy genesis_hash
      (record (edited "STARTED") { node_id = "n"; event_type = "m|STARTED" } ∷ [])
    ≡ verify_rows toy genesis_hash (edited "STARTED" ∷ [])
shift-verify_rows_example = shift-verify_rows toy genesis_hash "n" "m" [] [] (edited "STARTED") refl

abbrev two_rows : Table
two_rows = (append_all toy fresh_state empty_table (started ∷ stopped ∷ [])).1

-- An event whose payload was readable is exported, and one whose payload was not throws.
abbrev is_exported : ExportResult → Bool
is_exported (exported proof) = true
is_exported _ = false

stopped_exported : is_exported (export_proof toy two_rows 2) ≡ true
unfolding append_all append_audit_event next_row export_proof export_proof_at find_index to_event
    inflate_payload deflate_payload stable_serialize
stopped_exported = refl

unreadable_thrown :
    export_proof toy (append_audit_event toy fresh_state empty_table unreadable).1 1 ≡ thrown
unfolding append_audit_event next_row export_proof export_proof_at find_index to_event
    inflate_payload deflate_payload stable_serialize
unreadable_thrown = refl
