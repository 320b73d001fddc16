-- ===== src/Routing/Cloud.antt =====
-- Where a route leads, and when it leads to the cloud (packages/shared-routing/src/index.ts).
use droid_swarm.Prelude.{
  Bool, true, false, not, ◌&&◌, ◌||◌, some, get_or, ◌≡◌, refl, inl, inr, arith, Bool-cases,
}
use droid_swarm.Router.Decision.{ModelBackend, is_true, not_false}
use droid_swarm.Router.Available.{IsGrounded, choose_backend_decision-IsGrounded}
use droid_swarm.Routing.Decision.{
  PriorityBias, balanced, WorkerEngine, local_llama, mlx, apple_intelligence, openmythos,
  codex_cloud, codex_cli, RoutingContext, infer_complexity, router_context, local_saturated,
  apple_matched, engine_of, is_apple, local_model_decision, is_high, is_cost, is_medium, is_time,
  is_planning, is_coding, should_escalate, coder_decision, decide,
}

-- What the context has to say for work to leave for the cloud
pub record MayUseCloud (ralph_available : Bool) (c : RoutingContext) : Type 0 where
  pub allowed : is_true c.allow_cloud ≡ true
  pub persistent : (local_model_decision ralph_available c).prefer_ralph_worker ≡ false
  pub planning : is_planning c ≡ false
  pub coding : is_coding c ≡ true
  pub pressing :
      (is_high (infer_complexity c)
        || local_saturated c
        || is_time (get_or c.priority_bias balanced))
      ≡ true
  pub cheap :
      (is_cost (get_or c.priority_bias balanced) && not (is_high (infer_complexity c))) ≡ false

engine_of-local : (b : ModelBackend) → engine_of b ≡ codex_cloud → ⊥
engine_of-local ModelBackend.mlx h = cc
engine_of-local ModelBackend.openmythos h = cc
engine_of-local ModelBackend.apple_intelligence h = cc
engine_of-local ModelBackend.local_llama h = cc

pressing-cheap :
    (allow high saturated medium : Bool) (bias : PriorityBias)
    → (allow && (high || (saturated && not (is_cost bias)) || (is_time bias && medium))) ≡ true
    → (allow ≡ true)
      × ((high || saturated || is_time bias) ≡ true)
      × ((is_cost bias && not high) ≡ false)
pressing-cheap true high saturated medium PriorityBias.time h = ground arith
pressing-cheap true high saturated medium PriorityBias.cost h = ground arith
pressing-cheap true high saturated medium PriorityBias.balanced h = ground arith
pressing-cheap false high saturated medium bias h = cc

-- Work goes to the cloud only where the policy allows it, for a coding role outside planning and the
-- persistent worker, where the work is complex, the local tier is saturated or time is pressing, and
-- under a bias to cost only where the work is complex.
pub decide-MayUseCloud :
    (ralph_available : Bool) (c : RoutingContext)
    → (decide ralph_available c).engine ≡ codex_cloud
    → MayUseCloud ralph_available c
unfolding decide
decide-MayUseCloud ralph_available c =
    let model = local_model_decision ralph_available c in
    elim (Bool-cases (apple_matched c && is_apple model.backend)) [
      | inl apple ↦ rw apple (λ h. cc)
      | inr other ↦ rw other (elim (Bool-cases model.prefer_ralph_worker) [
        | inl ralph ↦ rw ralph (λ h. absurd (engine_of-local model.backend h))
        | inr brief ↦ rw brief (elim (Bool-cases (is_planning c)) [
          | inl plan ↦ rw plan (λ h. absurd (engine_of-local model.backend h))
          | inr work ↦ rw work (elim (Bool-cases (is_coding c)) [
            | inl code ↦ rw code (elim (Bool-cases (should_escalate c)) [
              | inl up ↦ λ h.
                  let (allowed, pressing, cheap) =
                    pressing-cheap (is_true c.allow_cloud) (is_high (infer_complexity c))
                      (local_saturated c) (is_medium (infer_complexity c))
                      (get_or c.priority_bias balanced) up in
                  record {
                    allowed = allowed;
                    persistent = brief;
                    planning = work;
                    coding = code;
                    pressing = pressing;
                    cheap = cheap;
                  }
              | inr stay ↦ rw stay (λ h. cc)
            ])
            | inr rest ↦ rw rest (λ h. absurd (engine_of-local model.backend h))
          ])
        ])
      ])
    ]

-- The engine can be used in the context.
abbrev pub IsAvailable : RoutingContext → WorkerEngine → Type 0
IsAvailable c openmythos = is_true c.mythos_available ≡ true
IsAvailable c mlx = is_true c.mlx_available ≡ true
IsAvailable c apple_intelligence = get_or c.apple_enabled true ≡ true
IsAvailable c codex_cloud = is_true c.allow_cloud ≡ true
IsAvailable c local_llama = Unit
IsAvailable c codex_cli = Unit

engine_of-IsAvailable :
    (c : RoutingContext) (b : ModelBackend)
    → IsGrounded (router_context c) b
    → IsAvailable c (engine_of b)
engine_of-IsAvailable c ModelBackend.openmythos g = g.0
engine_of-IsAvailable c ModelBackend.mlx g = g.0
engine_of-IsAvailable c ModelBackend.apple_intelligence g =
    is_enabled (get_or c.apple_enabled true) g.1
  where
    is_enabled : (b : Bool) → not_false (some b) ≡ true → b ≡ true
    is_enabled true h = refl
    is_enabled false h = cc
engine_of-IsAvailable c ModelBackend.local_llama g = tt

coder-IsAvailable : (c : RoutingContext) → IsAvailable c (coder_decision c).engine
coder-IsAvailable c = elim (Bool-cases (should_escalate c)) [
  | inl up ↦
      rw up
        (pressing-cheap (is_true c.allow_cloud) (is_high (infer_complexity c)) (local_saturated c)
          (is_medium (infer_complexity c)) (get_or c.priority_bias balanced) up).0
  | inr stay ↦ rw stay tt
]

apple-IsAvailable :
    (c : RoutingContext) (b : ModelBackend)
    → IsGrounded (router_context c) b
    → is_apple b ≡ true
    → IsAvailable c apple_intelligence
apple-IsAvailable c ModelBackend.apple_intelligence g h =
    engine_of-IsAvailable c ModelBackend.apple_intelligence g
apple-IsAvailable c ModelBackend.openmythos g h = cc
apple-IsAvailable c ModelBackend.mlx g h = cc
apple-IsAvailable c ModelBackend.local_llama g h = cc

and-right : (a b : Bool) → (a && b) ≡ true → b ≡ true
and-right true b h = h
and-right false b h = cc

-- Whatever the role and the task, the engine of a route is one that the context has: the optional
-- local engines where they are ready, and the cloud where it is allowed.
pub decide-IsAvailable :
    (ralph_available : Bool) (c : RoutingContext) → IsAvailable c (decide ralph_available c).engine
unfolding decide
decide-IsAvailable ralph_available c =
    let model = local_model_decision ralph_available c in
    let grounded = choose_backend_decision-IsGrounded ralph_available (router_context c) in
    let here = engine_of-IsAvailable c model.backend grounded in
    elim (Bool-cases (apple_matched c && is_apple model.backend)) [
      | inl apple ↦ rw apple (
          apple-IsAvailable c model.backend grounded
            (and-right (apple_matched c) (is_apple model.backend) apple))
      | inr other ↦ rw other (elim (Bool-cases model.prefer_ralph_worker) [
        | inl ralph ↦ rw ralph here
        | inr brief ↦ rw brief (elim (Bool-cases (is_planning c)) [
          | inl plan ↦ rw plan here
          | inr work ↦ rw work (elim (Bool-cases (is_coding c)) [
            | inl code ↦ rw code (coder-IsAvailable c)
            | inr rest ↦ rw rest here
          ])
        ])
      ])
    ]
