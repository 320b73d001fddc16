-- ===== src/Supervisor/Targets.antt =====
-- Where an agent is run (apps/orchestrator/src/AgentSupervisor.ts).
use Prim.Native.Nat.{zero, suc}
use droid_swarm.Prelude.{
  ℕ, ◌+◌, ◌%◌, ◌<◌, String, Bool, true, false, if◌then◌else◌, length, filter, get_elem?, get_or,
  Option, none, some, List, [], ◌∷◌, ◌≡◌, refl, ap, ◌⊎◌, inl, inr, arith, Bool-cases,
}
use droid_swarm.Supervisor.Agents.{
  FederationRemoteWorkerTarget, SupervisorConfig, Supervisor, eligible, choose,
  select_execution_target,
}

get_elem?-total :
    {A : Type 0} (xs : List A) (i : ℕ) → i < length xs → (x : A) × (get_elem? xs i ≡ some x)
get_elem?-total [] i h = ground (arith, h)
get_elem?-total (x ∷ xs) zero h = (x, refl)
get_elem?-total (x ∷ xs) (suc i) h = get_elem?-total xs i (omega (arith, h))

filter-holds :
    {A : Type 0} (p : A → Bool) (xs : List A) (i : ℕ) (x : A)
    → get_elem? (filter p xs) i ≡ some x
    → p x ≡ true
filter-holds p [] i x h = ground (arith, h)
filter-holds p (y ∷ xs) i x h = go (λ j. filter-holds p xs j x) (p y) refl i h
  where
    go :
        (rest : (j : ℕ) → get_elem? (filter p xs) j ≡ some x → p x ≡ true) (b : Bool)
        → p y ≡ b
        → (j : ℕ) → get_elem? (if b then y ∷ filter p xs else filter p xs) j ≡ some x
        → p x ≡ true
    go rest true kept zero found = cc (found, kept)
    go rest true kept (suc j) found = rest j found
    go rest false dropped j found = rest j found

-- A target is chosen exactly when the federation is on and has an eligible one: then it is the next
-- of the eligible targets in turn, and the turn moves on; otherwise the agent runs locally.
pub select_execution_target-turn :
    (config : SupervisorConfig) (role : String) (engine tier : Option String) (s : Supervisor)
    → let targets =
        filter (eligible role engine tier) (get_or config.federation_remote_workers []) in
      let result = select_execution_target config role engine tier s in
      (((config.federation_enabled ≡ false) ⊎ (targets ≡ [])) × (result ≡ (s, none)))
      ⊎ ((config.federation_enabled ≡ true)
          × ((target : FederationRemoteWorkerTarget) × (result
                ≡ (record s { remote_target_cursor = s.remote_target_cursor + 1 }, some target))
              × (get_elem? targets (s.remote_target_cursor % length targets) ≡ some target)
              × (eligible role engine tier target ≡ true)))
unfolding select_execution_target
select_execution_target-turn config role engine tier s =
    elim (Bool-cases config.federation_enabled) [
      | inr off ↦ inl (inl off, rw off refl)
      | inl on ↦ rw on (
          go (filter (eligible role engine tier) workers)
            (filter-holds (eligible role engine tier) workers))
    ]
  where
    workers : List FederationRemoteWorkerTarget
    workers = get_or config.federation_remote_workers []

    go :
        (ts : List FederationRemoteWorkerTarget)
        → ((i : ℕ) (x : FederationRemoteWorkerTarget)
            → get_elem? ts i ≡ some x
            → eligible role engine tier x ≡ true)
        → (((true ≡ false) ⊎ (ts ≡ [])) × (choose ts s ≡ (s, none)))
          ⊎ ((true ≡ true)
              × ((target : FederationRemoteWorkerTarget) × (choose ts s
                    ≡ (record s { remote_target_cursor = s.remote_target_cursor + 1 }, some target))
                  × (get_elem? ts (s.remote_target_cursor % length ts) ≡ some target)
                  × (eligible role engine tier target ≡ true)))
    go [] holds = inl (inr refl, refl)
    go (t ∷ ts) holds =
        let (target, at) =
          get_elem?-total (t ∷ ts) (s.remote_target_cursor % length (t ∷ ts)) (omega arith) in
        inr (
          refl,
          (
            target,
            ap (λ o. (record s { remote_target_cursor = s.remote_target_cursor + 1 }, o)) at,
            at,
            holds _ target at,
          ),
        )
