-- ===== src/Router/Hints.antt =====
-- The search for hints in a text of packages/model-router/src/index.ts. Hints are in small ASCII
-- letters, so `text.toLowerCase().includes(hint)` is a search that takes the capital ASCII letters of
-- the text for small ones.
use Prim.Native.Char.{code}
use droid_swarm.Prelude.{String, Bool, true, false, ◌&&◌, ◌||◌, nat_eq, any, List}
use droid_swarm.Prelude.Words.{lower_code}

unfoldable pub begins_with : String → String → Bool
begins_with text String.[] = true
begins_with String.[] (String.◌∷◌ h hint) = false
begins_with (String.◌∷◌ c text) (String.◌∷◌ h hint) =
    let rest = begins_with text hint in nat_eq (lower_code c) (code h) && rest

unfoldable pub includes : String → String → Bool
unfolding begins_with
includes String.[] hint = begins_with String.[] hint
includes (String.◌∷◌ c text) hint =
    let rest = includes text hint in begins_with (String.◌∷◌ c text) hint || rest

-- `hints.some((hint) => text.includes(hint))`
unfoldable pub some_hint : List String → String → Bool
some_hint hints text = any (includes text) hints
