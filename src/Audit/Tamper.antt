-- ===== src/Audit/Tamper.antt =====
-- Edits of a stored row, and what `verifyChain` of packages/shared-tracing/src/audit-logger.ts says.
use Prim.Native.String.{◌++◌ as text_append}
use text.Mathlib.TextLemmas.{
  append_assoc as text_append_assoc, append_cancel_left, append_cancel_right,
}
use droid_swarm.Prelude.{
  ℕ, ◌≡◌, ◌≢◌, sym, ap, ◌∙◌, String, true, false, some, List, ◌∷◌, ◌++◌, arith, eq_iff, Bool-cases,
  Option-cases, inl, inr, ◌<>◌, decimal,
}
use droid_swarm.Audit.Json.{Json, stable_serialize}
use droid_swarm.Audit.Log.{
  Platform, Row, inflate_payload, leaf_text, compute_leaf_hash, verify_row, verify_rows,
}
use droid_swarm.Audit.Chain.{end_hash, verify_rows-append}

-- Two texts with one digest are the same text.
abbrev pub CollisionFree : Platform → Type 0
CollisionFree p = (s t : String) → p.sha256 s ≡ p.sha256 t → s ≡ t

module _ (p : Platform) where
  -- What an accepted row has as its leaf
  verify_row-leaf :
      (previous_hash : String) (row : Row) (payload : Json)
      → inflate_payload p row.payload ≡ some payload
      → verify_row p previous_hash row ≡ true
      → row.merkle_leaf
        ≡ compute_leaf_hash p row.ts row.swarm_id row.node_id row.event_type payload previous_hash
            row.height
  unfolding verify_row
  verify_row-leaf previous_hash row payload read h = ground (
    arith,
    read,
    eq_iff row.merkle_leaf (
        compute_leaf_hash p row.ts row.swarm_id row.node_id row.event_type payload previous_hash
          row.height),
  )

  verify_row-readable :
      (previous_hash : String) (row : Row)
      → verify_row p previous_hash row ≡ true
      → (payload : Json) × (inflate_payload p row.payload ≡ some payload)
  unfolding verify_row
  verify_row-readable previous_hash row h = ground arith

  verify_rows-middle :
      (previous_hash : String) (before after : List Row) (row : Row)
      → verify_rows p previous_hash (before ++ row ∷ after) ≡ true
      → verify_row p (end_hash previous_hash before) row ≡ true
  unfolding verify_rows
  verify_rows-middle previous_hash before after row h =
      ground (arith, verify_rows-append p previous_hash before (row ∷ after))

  verify_rows-refused :
      (previous_hash : String) (before after : List Row) (row : Row)
      → verify_row p (end_hash previous_hash before) row ≡ false
      → verify_rows p previous_hash (before ++ row ∷ after) ≡ false
  unfolding verify_rows
  verify_rows-refused previous_hash before after row h =
      ground (arith, verify_rows-append p previous_hash before (row ∷ after))

  event_type-leaf_text :
      (ts swarm_id node_id a b previous_hash : String) (height : ℕ) (payload : Json)
      → leaf_text p ts swarm_id node_id a payload previous_hash height
        ≡ leaf_text p ts swarm_id node_id b payload previous_hash height
      → a ≡ b
  unfolding leaf_text
  event_type-leaf_text ts swarm_id node_id a b previous_hash height payload h =
      let rest = text_append "|" (
        text_append (stable_serialize payload)
          (text_append "|" (text_append previous_hash (text_append "|" (decimal height))))) in
      append_cancel_right a b rest (
        append_cancel_left "|" _ _ (
          append_cancel_left node_id _ _ (
            append_cancel_left "|" _ _ (
              append_cancel_left swarm_id _ _
                (append_cancel_left "|" _ _ (append_cancel_left ts _ _ h))))))

  -- In a log that verifies, changing the event type of one row and nothing else makes the log
  -- fail, if no two texts have one digest.
  pub event_type-verify_rows :
      (previous_hash : String) (before after : List Row) (row : Row) (event_type : String)
      → CollisionFree p
      → verify_rows p previous_hash (before ++ row ∷ after) ≡ true
      → event_type ≢ row.event_type
      → verify_rows p previous_hash (before ++ record row { event_type = event_type } ∷ after)
        ≡ false
  event_type-verify_rows previous_hash before after row event_type free h differs =
      verify_rows-refused previous_hash before after (record row { event_type = event_type })
        (elim (Bool-cases (verify_row p last (record row { event_type = event_type }))) [
          | inl accepted ↦ absurd (differs (same accepted))
          | inr refused ↦ refused
        ])
    where
      last : String
      last = end_hash previous_hash before

      accepted_row : verify_row p last row ≡ true
      accepted_row = verify_rows-middle previous_hash before after row h

      same :
          verify_row p last (record row { event_type = event_type }) ≡ true
          → event_type ≡ row.event_type
      same accepted =
          let (payload, read) = verify_row-readable last row accepted_row in
          event_type-leaf_text row.ts row.swarm_id row.node_id event_type row.event_type last
            row.height payload
            (free _ _ (
              unfold compute_leaf_hash in
              (sym (
                  verify_row-leaf last (record row { event_type = event_type }) payload read
                    accepted)
                ∙ verify_row-leaf last row payload read accepted_row)))

  leaf_text-shift :
      (ts swarm_id node moved event_type previous_hash : String) (height : ℕ) (payload : Json)
      → leaf_text p ts swarm_id node (moved <> "|" <> event_type) payload previous_hash height
        ≡ leaf_text p ts swarm_id (node <> "|" <> moved) event_type payload previous_hash height
  unfolding leaf_text
  leaf_text-shift ts swarm_id node moved event_type previous_hash height payload =
      simp text_append_assoc

  hash-shift :
      (node moved previous_hash : String) (row : Row) (payload : Json)
      → row.node_id ≡ node <> "|" <> moved
      → compute_leaf_hash p row.ts row.swarm_id node
          (moved <> "|" <> row.event_type)
          payload
          previous_hash
          row.height
        ≡ compute_leaf_hash p row.ts row.swarm_id row.node_id row.event_type payload previous_hash
            row.height
  unfolding compute_leaf_hash
  hash-shift node moved previous_hash row payload e = ap p.sha256 (
      leaf_text-shift row.ts row.swarm_id node moved row.event_type previous_hash row.height payload
      ∙ ap
          (λ (n : String).
            leaf_text p row.ts row.swarm_id n row.event_type payload previous_hash row.height)
          (sym e))

  verify_row-shift :
      (previous_hash node moved : String) (row : Row)
      → row.node_id ≡ node <> "|" <> moved
      → verify_row p previous_hash
          (record row { node_id = node; event_type = moved <> "|" <> row.event_type })
        ≡ verify_row p previous_hash row
  unfolding verify_row
  verify_row-shift previous_hash node moved row e =
      elim (Option-cases (inflate_payload p row.payload)) [
        | inl unread ↦ ground (arith, unread)
        | inr (payload, read) ↦
            ground (arith, read, hash-shift node moved previous_hash row payload e)
      ]

  -- The fields are hashed with `|` between them and nothing around them. So where a node id holds
  -- a `|`, what follows it can be moved to the front of the event type, at any row of a log, and
  -- `verifyChain` says what it said before.
  pub shift-verify_rows :
      (previous_hash node moved : String) (before after : List Row) (row : Row)
      → row.node_id ≡ node <> "|" <> moved
      → verify_rows p previous_hash (
          before
          ++ record row { node_id = node; event_type = moved <> "|" <> row.event_type } ∷ after)
        ≡ verify_rows p previous_hash (before ++ row ∷ after)
  unfolding verify_rows
  shift-verify_rows previous_hash node moved before after row e =
      simp (verify_rows-append, verify_row-shift (end_hash previous_hash before) node moved row e)
