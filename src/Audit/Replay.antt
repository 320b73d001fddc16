-- ===== src/Audit/Replay.antt =====
-- A client that replays a proof of `exportProof` of packages/shared-tracing/src/audit-logger.ts from a
-- leaf on, and the loop that made the proof.
use droid_swarm.Prelude.{
  ℕ, zero, suc, ◌+◌, ◌-◌, ◌/◌, ◌%◌, ◌≤◌, ◌<◌, ◌≡◌, refl, ◌∙◌, String, ◌<>◌, ltb, Option, none, some,
  List, [], ◌∷◌, ◌++◌, length, get_elem?, arith, Bool-cases, inl, inr,
}
use droid_swarm.Audit.Log.{Platform}
use droid_swarm.Audit.Merkle.{
  left, right, ProofStep, next_level, climb, compute_merkle_root_from_leaves, proof_step,
  climb_proof,
}

module _ (p : Platform) where
  -- One step of the client: hash with the sibling on its side.
  abbrev pub replay_step : String → ProofStep → Option String
  replay_step x step = elim step.hash [
    | none ↦ none
    | some h ↦ some (elim step.side [ left ↦ p.sha256 (h <> x) | right ↦ p.sha256 (x <> h) ])
  ]

  abbrev pub replay_from : Option String → List ProofStep → Option String
  replay_from x [] = x
  replay_from none (step ∷ steps) = none
  replay_from (some x) (step ∷ steps) = replay_from (replay_step x step) steps

  -- The client: from a leaf up to the root
  abbrev pub replay : String → List ProofStep → Option String
  replay leaf proof = replay_from (some leaf) proof

  replay_from-snoc :
      (o : Option String) (proof : List ProofStep) (step : ProofStep) {x : String}
      → replay_from o proof ≡ some x
      → replay_from o (proof ++ step ∷ []) ≡ replay_step x step
  replay_from-snoc none [] step h = cc
  replay_from-snoc (some y) [] step {x} h = cc
  replay_from-snoc none (s ∷ proof) step h = cc
  replay_from-snoc (some y) (s ∷ proof) step h = replay_from-snoc (replay_step y s) proof step h

  length-next_level :
      (level : List String)
      → (length (next_level p level) + length (next_level p level) ≤ suc (length level))
        × (length level ≤ length (next_level p level) + length (next_level p level))
  unfolding next_level
  length-next_level [] = omega arith
  length-next_level (l ∷ []) = omega arith
  length-next_level (l ∷ r ∷ rest) = omega (arith, length-next_level rest)

  -- With a fuel of the number of leaves the loop ends at one hash.
  pub length-climb :
      (fuel : ℕ) (level : List String)
      → 0 < length level
      → length level ≤ suc fuel
      → length (climb p fuel level) ≡ 1
  unfolding climb
  length-climb zero level some_leaf bound = omega arith
  length-climb (suc fuel) level some_leaf bound =
      ground (arith, length-next_level level, length-climb fuel (next_level p level))

  pub climb_proof-climb :
      (fuel : ℕ) (level : List String) (cursor : ℕ) (proof : List ProofStep)
      → (climb_proof p fuel level cursor proof).0 ≡ climb p fuel level
  unfolding climb climb_proof
  climb_proof-climb zero level cursor proof = refl
  climb_proof-climb (suc fuel) level cursor proof = ground (
    arith,
    climb_proof-climb fuel (next_level p level) (cursor / 2)
        (proof ++ proof_step p level cursor ∷ []),
  )

  proof_step-tail :
      (l r : String) (rest : List String) (k : ℕ)
      → proof_step p (l ∷ r ∷ rest) (suc (suc k)) ≡ proof_step p rest k
  unfolding proof_step
  proof_step-tail l r rest zero = refl
  proof_step-tail l r rest (suc j) =
      let parity : suc (suc (suc j)) % 2 ≡ suc j % 2 = omega arith in
      let before : suc (suc (suc j)) - 1 ≡ suc (suc j) = omega arith in
      let before_tail : suc j - 1 ≡ j = omega arith in
      let after : suc (suc (suc j)) + 1 ≡ suc (suc (suc (suc j))) = omega arith in
      let after_tail : suc j + 1 ≡ suc (suc j) = omega arith in
      rw (parity, before, before_tail, after, after_tail)

  -- One step up: hashing with the sibling gives the parent's place in the next level.
  proof_step-next_level :
      (level : List String) (cursor : ℕ) {x : String}
      → get_elem? level cursor ≡ some x
      → (y : String) × (replay_step x (proof_step p level cursor) ≡ some y)
        × (get_elem? (next_level p level) (cursor / 2) ≡ some y)
  unfolding next_level
  proof_step-next_level [] cursor h = cc
  proof_step-next_level (l ∷ []) zero h =
      (p.sha256 (l <> l), unfold proof_step in ground arith, refl)
  proof_step-next_level (l ∷ []) (suc c) h = cc
  proof_step-next_level (l ∷ r ∷ rest) zero h =
      (p.sha256 (l <> r), unfold proof_step in ground arith, refl)
  proof_step-next_level (l ∷ r ∷ rest) (suc zero) h =
      (p.sha256 (l <> r), unfold proof_step in ground arith, refl)
  proof_step-next_level (l ∷ r ∷ rest) (suc (suc c)) {x} h =
      let (y, step, parent) = proof_step-next_level rest c h in
      let half : suc (suc c) / 2 ≡ suc (c / 2) = omega arith in
      (y, rw proof_step-tail step, rw half parent)

  -- Where the loop stops, the steps that were pushed lead to a hash of the last level.
  pub climb_proof-replay :
      (fuel : ℕ) (leaf : String) (level : List String) (cursor : ℕ) (proof : List ProofStep)
      {x : String}
      → get_elem? level cursor ≡ some x
      → replay leaf proof ≡ some x
      → (c : ℕ) × (y : String) × (get_elem? (climb_proof p fuel level cursor proof).0 c ≡ some y)
        × (replay leaf (climb_proof p fuel level cursor proof).1 ≡ some y)
  unfolding climb_proof
  climb_proof-replay zero leaf level cursor proof {x} at reached = (cursor, x, at, reached)
  climb_proof-replay (suc fuel) leaf level cursor proof {x} at reached =
      elim (Bool-cases (ltb 1 (length level))) [
        | inl more ↦
            let (y, step, parent) = proof_step-next_level level cursor at in
            rw more (
              climb_proof-replay fuel leaf (next_level p level) (cursor / 2)
                (proof ++ proof_step p level cursor ∷ []) parent
                (replay_from-snoc (some leaf) proof (proof_step p level cursor) reached ∙ step))
        | inr done ↦ rw done (cursor, x, at, reached)
      ]

  pub only_elem :
      (level : List String) (c : ℕ) {y : String}
      → length level ≡ 1
      → get_elem? level c ≡ some y
      → get_elem? level 0 ≡ some y
  only_elem [] c one at = cc
  only_elem (l ∷ []) zero one at = at
  only_elem (l ∷ []) (suc c) one at = cc
  only_elem (l ∷ r ∷ rest) c one at = absurd (omega arith)

  pub root_of_leaves :
      (leaves : List String)
      → 0 < length leaves
      → compute_merkle_root_from_leaves p leaves ≡ get_elem? (climb p (length leaves) leaves) 0
  unfolding compute_merkle_root_from_leaves
  root_of_leaves [] some_leaf = absurd (omega arith)
  root_of_leaves (l ∷ leaves) some_leaf = refl
