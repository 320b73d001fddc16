-- ===== src/Audit/Chain.antt =====
-- What `verifyChain` accepts and refuses, over the writes of `appendAuditEvent`.
use droid_swarm.Prelude.{
  ℕ, ◌+◌, ◌≤◌, ◌≡◌, refl, ap, ◌∙◌, String, true, ◌&&◌, leb, get_or, some, List, [], ◌∷◌, ◌++◌,
  filter, All, All-append, arith, eq_refl,
}
use droid_swarm.Audit.Json.{Json, stable_serialize}
use droid_swarm.Audit.Log.{
  Platform, Row, Table, LoggerState, Event, fresh_state, genesis_hash, last_row, inflate_payload,
  deflate_payload, leaf_text, compute_leaf_hash, verify_signature_for_hash, load_state, next_height,
  next_row, append_audit_event, load_rows, verify_row, verify_rows,
}

-- The hash that the next row must name
abbrev pub end_hash : String → List Row → String
end_hash previous_hash [] = previous_hash
end_hash previous_hash (row ∷ rows) = end_hash row.merkle_leaf rows

-- The payload can be read back, up to the order of its keys.
abbrev pub Recovers : Platform → Json → Type 0
Recovers p payload =
    (payload' : Json) × (inflate_payload p (deflate_payload p payload) ≡ some payload')
    × (stable_serialize payload' ≡ stable_serialize payload)

-- A signature that `sign` made is accepted.
abbrev pub SignsSoundly : Platform → Type 0
SignsSoundly p = (hash : String) → p.verify hash (p.sign hash) ≡ true

abbrev pub HasIds : ℕ → List Row → Type 0
HasIds last = All (λ row. (1 ≤ row.id) × (row.id ≤ last))

pub HasIds-mono : (m n : ℕ) (rows : List Row) → m ≤ n → HasIds m rows → HasIds n rows
HasIds-mono m n [] h k = tt
HasIds-mono m n (row ∷ rows) h (k, ks) = ((omega arith, omega arith), HasIds-mono m n rows h ks)

end_hash-append :
    (previous_hash : String) (rows : List Row) (row : Row)
    → end_hash previous_hash (rows ++ row ∷ []) ≡ row.merkle_leaf
end_hash-append previous_hash [] row = refl
end_hash-append previous_hash (r ∷ rows) row = end_hash-append r.merkle_leaf rows row

last_row-append : (rows : List Row) (row : Row) → last_row (rows ++ row ∷ []) ≡ some row
last_row-append [] row = refl
last_row-append (r ∷ []) row = refl
last_row-append (r ∷ s ∷ rows) row = last_row-append (s ∷ rows) row

module _ (p : Platform) where
  -- Every row in range is read.
  pub load_rows-all :
      (table : Table) (end_id : ℕ)
      → HasIds table.last_id table.rows
      → table.last_id ≤ end_id
      → load_rows p table 1 end_id ≡ table.rows
  unfolding load_rows
  load_rows-all table end_id ids bound = go table.rows ids
    where
      go :
          (rows : List Row)
          → HasIds table.last_id rows
          → filter (λ row. leb 1 row.id && leb row.id end_id) rows ≡ rows
      go [] k = refl
      go (row ∷ rows) (k, ks) = ground (arith, go rows ks)

  pub verify_rows-append :
      (previous_hash : String) (rows tail : List Row)
      → verify_rows p previous_hash (rows ++ tail)
        ≡ (verify_rows p previous_hash rows && verify_rows p (end_hash previous_hash rows) tail)
  unfolding verify_rows
  verify_rows-append previous_hash [] tail = refl
  verify_rows-append previous_hash (row ∷ rows) tail =
      ground (arith, verify_rows-append row.merkle_leaf rows tail)

  pub record IsLinked (state : LoggerState) (table : Table) : Type 0 where
    pub chain : verify_rows p genesis_hash table.rows ≡ true
    pub ids : HasIds table.last_id table.rows
    pub current : load_state p state table ≡ load_state p fresh_state table

  loaded_leaf :
      (rows : List Row) (last : ℕ)
      → get_or
          (load_state p fresh_state (record { rows = rows; last_id = last })).last_leaf
          genesis_hash
        ≡ end_hash genesis_hash rows
  unfolding load_state
  loaded_leaf [] last = refl
  loaded_leaf (row ∷ []) last = refl
  loaded_leaf (row ∷ s ∷ rows) last = go row s rows
    where
      go :
          (r s : Row) (rows : List Row)
          → get_or
              (load_state p fresh_state (record { rows = r ∷ s ∷ rows; last_id = last })).last_leaf
              genesis_hash
            ≡ end_hash s.merkle_leaf rows
      go r s [] = refl
      go r s (t ∷ rows) = go s t rows

  -- The leaf depends on a payload only through its text.
  same_leaf :
      (ts swarm_id node_id event_type previous_hash : String) (height : ℕ) (a b : Json)
      → stable_serialize a ≡ stable_serialize b
      → compute_leaf_hash p ts swarm_id node_id event_type a previous_hash height
        ≡ compute_leaf_hash p ts swarm_id node_id event_type b previous_hash height
  unfolding compute_leaf_hash leaf_text
  same_leaf ts swarm_id node_id event_type previous_hash height a b same =
      rw (same, compute_leaf_hash, leaf_text)

  -- The row that a loaded state writes is accepted after the hash that the state holds.
  next_row-verify_row :
      (state : LoggerState) (id : ℕ) (e : Event)
      → SignsSoundly p
      → Recovers p e.payload
      → verify_row p (get_or state.last_leaf genesis_hash) (next_row p state id e) ≡ true
  unfolding verify_row next_row verify_signature_for_hash
  next_row-verify_row state id e sound (payload', read, same) =
      let previous_hash = get_or state.last_leaf genesis_hash in
      let height = next_height p state.last_height in
      let leaf =
        compute_leaf_hash p e.ts e.swarm_id e.node_id e.event_type e.payload previous_hash height in
      ground (
        arith,
        read,
        same_leaf e.ts e.swarm_id e.node_id e.event_type previous_hash height payload' e.payload
            same,
        eq_refl previous_hash,
        eq_refl leaf,
        sound leaf,
      )

  pub loaded_leaf-eq :
      (state : LoggerState) (table : Table)
      → IsLinked state table
      → get_or (load_state p state table).last_leaf genesis_hash ≡ end_hash genesis_hash table.rows
  loaded_leaf-eq state table h =
      ap (λ (s : LoggerState). get_or s.last_leaf genesis_hash) h.current
      ∙ loaded_leaf table.rows table.last_id

  -- One more row is accepted exactly if it is accepted after the last hash.
  pub verify_rows-snoc :
      (previous_hash : String) (rows : List Row) (row : Row)
      → verify_rows p previous_hash (rows ++ row ∷ [])
        ≡ (verify_rows p previous_hash rows && verify_row p (end_hash previous_hash rows) row)
  unfolding verify_rows
  verify_rows-snoc previous_hash rows row =
      ground (arith, verify_rows-append previous_hash rows (row ∷ []))

  pub append_audit_event-IsLinked :
      (state : LoggerState) (table : Table) (e : Event)
      → SignsSoundly p
      → Recovers p e.payload
      → IsLinked state table
      → IsLinked (append_audit_event p state table e).0 (append_audit_event p state table e).1
  unfolding append_audit_event
  append_audit_event-IsLinked state table e sound recovers h =
      let loaded = load_state p state table in
      let row = next_row p loaded (table.last_id + 1) e in
      record {
        chain =
            rw
              (
                verify_rows-snoc genesis_hash table.rows row,
                h.chain,
                ← loaded_leaf-eq state table h,
              )
              (next_row-verify_row loaded (table.last_id + 1) e sound recovers);
        ids =
            All-append _ table.rows (row ∷ [])
              (HasIds-mono table.last_id (table.last_id + 1) table.rows (omega arith) h.ids)
              (unfold next_row in ((omega arith, omega arith), tt));
        current = unfold load_state in ground (arith, last_row-append table.rows row);
      }
