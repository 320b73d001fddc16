-- ===== src/Audit/Verify.antt =====
-- `verifyChain` over honest writes, and over the writes and edits that break the log.
use droid_swarm.Prelude.{
  ℕ, ◌+◌, ◌≤◌, ◌≡◌, ◌≢◌, refl, sym, ap, ◌∙◌, String, ◌&&◌, leb, filter, filter-append, ◌++◌, true,
  false, some, List, [], ◌∷◌, All, All-append, arith, eq_iff,
}
use droid_swarm.Audit.Log.{
  Platform, Row, Table, load_rows, LoggerState, Event, fresh_state, empty_table, genesis_hash,
  load_state, next_row, append_audit_event, append_all, verify_row, verify_rows, verify_chain,
}
use droid_swarm.Audit.Chain.{
  end_hash, Recovers, SignsSoundly, HasIds, HasIds-mono, load_rows-all, verify_rows-append,
  verify_rows-snoc, IsLinked, append_audit_event-IsLinked,
}

module _ (p : Platform) where
  abbrev pub AllRecover : List Event → Type 0
  AllRecover = All (λ e. Recovers p e.payload)

  append_all-IsLinked :
      (state : LoggerState) (table : Table) (es : List Event)
      → SignsSoundly p
      → AllRecover es
      → IsLinked p state table
      → IsLinked p (append_all p state table es).0 (append_all p state table es).1
  unfolding append_all
  append_all-IsLinked state table [] sound recovers h = h
  append_all-IsLinked state table (e ∷ es) sound (r, rs) h =
      append_all-IsLinked (append_audit_event p state table e).0
        (append_audit_event p state table e).1 es sound rs
        (append_audit_event-IsLinked p state table e sound r h)

  pub empty-IsLinked : IsLinked p fresh_state empty_table
  unfolding verify_rows
  empty-IsLinked = record { chain = refl; ids = tt; current = refl }

  restart-IsLinked :
      (state : LoggerState) (table : Table) → IsLinked p state table → IsLinked p fresh_state table
  restart-IsLinked state table h = record { chain = h.chain; ids = h.ids; current = refl }

  IsLinked-verify_chain :
      (state : LoggerState) (table : Table) (end_id : ℕ)
      → IsLinked p state table
      → table.last_id ≤ end_id
      → verify_chain p table 1 end_id ≡ true
  unfolding verify_chain
  IsLinked-verify_chain state table end_id h bound =
      rw (load_rows-all p table end_id h.ids bound) h.chain

  -- A process writes events to an empty log and stops, and the next process, which starts with no
  -- cached state, writes more: if every payload can be read back and the platform accepts its own
  -- signatures, `verifyChain` accepts the whole log.
  pub verify_chain-append_all :
      (es fs : List Event) (end_id : ℕ)
      → SignsSoundly p
      → AllRecover es
      → AllRecover fs
      → (append_all p fresh_state (append_all p fresh_state empty_table es).1 fs).1.last_id ≤ end_id
      → verify_chain p
          (append_all p fresh_state (append_all p fresh_state empty_table es).1 fs).1
          1
          end_id
        ≡ true
  verify_chain-append_all es fs end_id sound re rf bound =
      let (state, table) = append_all p fresh_state empty_table es in
      let first = append_all-IsLinked fresh_state empty_table es sound re empty-IsLinked in
      let both =
        append_all-IsLinked fresh_state (append_all p fresh_state empty_table es).1 fs sound rf (
          restart-IsLinked (append_all p fresh_state empty_table es).0
            (append_all p fresh_state empty_table es).1 first) in
      IsLinked-verify_chain _ _ end_id both bound

  append_audit_event-HasIds :
      (state : LoggerState) (table : Table) (e : Event)
      → HasIds table.last_id table.rows
      → HasIds
          (append_audit_event p state table e).1.last_id
          (append_audit_event p state table e).1.rows
  unfolding append_audit_event next_row
  append_audit_event-HasIds state table e ids =
      All-append _ table.rows (_ ∷ [])
        (HasIds-mono table.last_id (table.last_id + 1) table.rows (omega arith) ids)
        ((omega arith, omega arith), tt)

  -- What the later writes append, whatever the writing processes have cached
  abbrev pub LaterWrites : Type 0
  LaterWrites = List (LoggerState × Event)

  unfoldable pub write_all : Table → LaterWrites → Table
  write_all table [] = table
  write_all table ((state, e) ∷ later) = write_all (append_audit_event p state table e).1 later

  write_all-append :
      (table : Table) (later : LaterWrites)
      → (tail : List Row) × ((write_all table later).rows ≡ table.rows ++ tail)
  unfolding write_all append_audit_event
  write_all-append table [] = ([], sym (append_nil table.rows))
    where
      append_nil : (rows : List Row) → rows ++ [] ≡ rows
      append_nil [] = refl
      append_nil (row ∷ rows) = ap (λ l. row ∷ l) (append_nil rows)
  write_all-append table ((state, e) ∷ later) =
      let (tail, same) = write_all-append (append_audit_event p state table e).1 later in
      let row = next_row p (load_state p state table) (table.last_id + 1) e in
      (row ∷ tail, same ∙ append_cons table.rows row tail)
    where
      append_cons :
          (rows : List Row) (row : Row) (tail : List Row)
          → (rows ++ row ∷ []) ++ tail ≡ rows ++ row ∷ tail
      append_cons [] row tail = refl
      append_cons (r ∷ rows) row tail = ap (λ l. r ∷ l) (append_cons rows row tail)

  -- A log that is refused with all its rows in range stays refused under later writes.
  refused-write_all :
      (table : Table) (later : LaterWrites) (end_id : ℕ)
      → HasIds table.last_id table.rows
      → table.last_id ≤ end_id
      → verify_rows p genesis_hash table.rows ≡ false
      → verify_chain p (write_all table later) 1 end_id ≡ false
  unfolding verify_chain load_rows
  refused-write_all table later end_id ids bound refused =
      let (tail, same) = write_all-append table later in
      let in_range = λ (row : Row). leb 1 row.id && leb row.id end_id in
      ap (λ rows. verify_rows p genesis_hash (filter in_range rows)) same
      ∙ ap (verify_rows p genesis_hash) (filter-append in_range table.rows tail)
      ∙ verify_rows-append p genesis_hash (filter in_range table.rows) (filter in_range tail)
      ∙ rw (load_rows-all p table end_id ids bound, refused) refl

  -- A row that is refused after the rows before it is refused with them.
  refused-verify_rows :
      (state : LoggerState) (table : Table) (e : Event)
      → verify_row p
          (end_hash genesis_hash table.rows)
          (next_row p (load_state p state table) (table.last_id + 1) e)
        ≡ false
      → verify_rows p genesis_hash (append_audit_event p state table e).1.rows ≡ false
  unfolding append_audit_event
  refused-verify_rows state table e refused = ground (
    arith,
    refused,
    verify_rows-snoc p genesis_hash table.rows
        (next_row p (load_state p state table) (table.last_id + 1) e),
  )

  -- A process whose cached last leaf is not the last leaf of the table, since another process has
  -- written in between, breaks the log with its next write: `verifyChain` refuses the log right
  -- after it, and after any later writes of any processes.
  pub stale-verify_chain :
      (state : LoggerState) (table : Table) (e : Event) (later : LaterWrites) (end_id : ℕ)
      {leaf : String} {height : ℕ}
      → state.last_leaf ≡ some leaf
      → state.last_height ≡ some height
      → leaf ≢ end_hash genesis_hash table.rows
      → HasIds table.last_id table.rows
      → table.last_id + 1 ≤ end_id
      → verify_chain p (write_all (append_audit_event p state table e).1 later) 1 end_id ≡ false
  stale-verify_chain state table e later end_id {leaf} hl hh differs ids bound =
      refused-write_all (append_audit_event p state table e).1 later end_id
        (append_audit_event-HasIds state table e ids) (unfold append_audit_event in bound)
        (refused-verify_rows state table e (
          unfold load_state next_row verify_row in
          ground (arith, hl, hh, eq_iff leaf (end_hash genesis_hash table.rows))))
