-- ===== src/Audit/Inclusion.antt =====
-- The proofs of `exportProof` of packages/shared-tracing/src/audit-logger.ts, replayed from a leaf to
-- the root.
use droid_swarm.Prelude.{◌≡◌, String, Option, none, some, List}
use droid_swarm.Audit.Json.{Json}
use droid_swarm.Audit.Log.{Platform, Row}
use droid_swarm.Audit.Merkle.{
  AuditProof, compute_merkle_root_from_leaves, leaves_of, AuditLogEvent, to_event,
}
use droid_swarm.Audit.Replay.{replay}

module _ (p : Platform) where
  -- What holds of the proof of a row: it carries the row's event, and leads to the root.
  abbrev pub IsProofOf : List Row → Row → AuditProof → Type 0
  IsProofOf rows row proof =
      (to_event p row ≡ some proof.event)
      × (replay p row.merkle_leaf proof.proof
          ≡ compute_merkle_root_from_leaves p (leaves_of p rows))
      × (proof.merkle_root ≡ compute_merkle_root_from_leaves p (leaves_of p rows))

  leaf_or_empty : Option AuditLogEvent → String
  leaf_or_empty none = ""
  leaf_or_empty (some event) = event.merkle_leaf
