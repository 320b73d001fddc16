-- ===== src/Router/Available.antt =====
-- The backend that is chosen can be used (packages/model-router/src/index.ts).
use droid_swarm.Prelude.{Bool, true, false, not, ◌&&◌, ◌||◌, ◌≡◌, refl, inl, inr, arith, Bool-cases}
use droid_swarm.Router.Decision.{
  ModelBackend, apple_intelligence, mlx, local_llama, openmythos, ModelRouterContext, is_true,
  not_false, infer_mythos_context, prefers_apple, prefers_mlx, choose_backend_decision,
}

-- Why the context gives the backend
abbrev pub IsGrounded : ModelRouterContext → ModelBackend → Type 0
IsGrounded c openmythos = (is_true c.mythos_available ≡ true) × (infer_mythos_context c ≡ true)
IsGrounded c apple_intelligence =
    (prefers_apple c ≡ true) × (not_false c.apple_runtime_available ≡ true)
IsGrounded c mlx = (is_true c.mlx_available ≡ true) × ((prefers_apple c || prefers_mlx c) ≡ true)
IsGrounded c local_llama =
    ((is_true c.mythos_available && infer_mythos_context c) ≡ false)
    × ((prefers_apple c && not_false c.apple_runtime_available) ≡ false)
    × ((is_true c.mlx_available && (prefers_apple c || prefers_mlx c)) ≡ false)

both : (a b : Bool) → (a && b) ≡ true → (a ≡ true) × (b ≡ true)
both true true h = (refl, refl)
both true false h = ground (arith, h)
both false b h = ground (arith, h)

mlx_fits :
    (apple runtime ready preferred : Bool)
    → ((apple && not runtime && ready) || (preferred && ready)) ≡ true
    → (ready ≡ true) × ((apple || preferred) ≡ true)
mlx_fits apple runtime ready preferred h = ground (arith, h)

mlx_left :
    (apple runtime ready preferred : Bool)
    → (apple && runtime) ≡ false
    → ((apple && not runtime && ready) || (preferred && ready)) ≡ false
    → (ready && (apple || preferred)) ≡ false
mlx_left apple runtime ready preferred off left = ground (arith, off, left)

-- Each backend is chosen only where it is available and asked for, and llama.cpp only where none of
-- the others is.
pub choose_backend_decision-IsGrounded :
    (ralph_available : Bool) (c : ModelRouterContext)
    → IsGrounded c (choose_backend_decision ralph_available c).backend
unfolding choose_backend_decision
choose_backend_decision-IsGrounded ralph_available c =
    elim (Bool-cases (is_true c.mythos_available && infer_mythos_context c)) [
      | inl deep ↦ rw deep (both (is_true c.mythos_available) (infer_mythos_context c) deep)
      | inr shallow ↦
          rw shallow (elim (Bool-cases (prefers_apple c && not_false c.apple_runtime_available)) [
            | inl apple ↦
                rw apple (both (prefers_apple c) (not_false c.apple_runtime_available) apple)
            | inr other ↦
                rw other
                  (elim (Bool-cases (
                    (prefers_apple c
                      && not (not_false c.apple_runtime_available)
                      && is_true c.mlx_available)
                    || (prefers_mlx c && is_true c.mlx_available))) [
                      | inl fits ↦ rw fits (
                          mlx_fits (prefers_apple c) (not_false c.apple_runtime_available)
                            (is_true c.mlx_available) (prefers_mlx c) fits)
                      | inr left ↦ rw left (
                        shallow,
                        other,
                        mlx_left (prefers_apple c) (not_false c.apple_runtime_available)
                            (is_true c.mlx_available) (prefers_mlx c) other left,
                      )
                    ])
          ])
    ]
