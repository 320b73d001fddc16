-- ===== src/Prelude/Sets.antt =====
-- JavaScript's `Set` of strings: the elements stand in the order of their insertion.
use Prim.Native.Nat.{suc, ◌≤◌}
use Prim.Native.String.{String}
use mathlib.Core.Path.{◌≡◌, refl}
use mathlib.Core.Bool.{Bool, false, ◌||◌}
use mathlib.Core.List.{List, [], ◌∷◌}
use native.Mathlib.Omega.{arith}
use text.Mathlib.TextEquality.{eq_iff}
use droid_swarm.Prelude.Tests.{◌==◌, if◌then◌else◌}
use droid_swarm.Prelude.Lists.{length}

-- `s.has(x)`, and `xs.includes(x)` of an array
unfoldable pub has : List String → String → Bool
has [] x = false
has (y ∷ ys) x = y == x || has ys x

unfoldable pub append_end : List String → String → List String
append_end [] x = x ∷ []
append_end (y ∷ ys) x = y ∷ append_end ys x

-- `s.add(x)`
unfoldable pub add : List String → String → List String
unfolding has append_end
add s x = if has s x then s else append_end s x

-- `s.delete(x)`, and `xs.filter((y) => y !== x)` of an array
unfoldable pub delete : List String → String → List String
delete [] x = []
delete (y ∷ ys) x = let rest = delete ys x in if y == x then rest else y ∷ rest

-- `new Set(xs)`
unfoldable pub of_list : List String → List String → List String
unfolding add
of_list s [] = s
of_list s (x ∷ xs) = of_list (add s x) xs

-- No element stands twice.
abbrev pub IsDistinct : List String → Type 0
IsDistinct [] = Unit
IsDistinct (x ∷ xs) = (has xs x ≡ false) × IsDistinct xs

pub has-append_end : (s : List String) (x y : String) → has (append_end s x) y ≡ (has s y || x == y)
unfolding has append_end
has-append_end [] x y = ground arith
has-append_end (z ∷ s) x y = ground (arith, has-append_end s x y)

pub add-append_end : (s : List String) (x : String) → has s x ≡ false → add s x ≡ append_end s x
unfolding add
add-append_end s x new = rw new

pub has-add : (s : List String) (x y : String) → has (add s x) y ≡ (has s y || x == y)
unfolding add
has-add s x y = ground (arith, has-append_end s x y, eq_iff x y)

pub has-delete :
    (s : List String) (x y : String) → has (delete s x) y ≡ (if x == y then false else has s y)
unfolding has delete
has-delete [] x y = ground arith
has-delete (z ∷ s) x y = ground (arith, has-delete s x y, eq_iff z x, eq_iff z y, eq_iff x y)

length-append_end : (s : List String) (x : String) → length (append_end s x) ≡ suc (length s)
unfolding append_end
length-append_end [] x = refl
length-append_end (z ∷ s) x = ground (arith, length-append_end s x)

pub length-add :
    (s : List String) (x : String)
    → length (add s x) ≡ (if has s x then length s else suc (length s))
unfolding add
length-add s x = ground (arith, length-append_end s x)

pub length-delete-le : (s : List String) (x : String) → length (delete s x) ≤ length s
unfolding delete
length-delete-le [] x = omega arith
length-delete-le (z ∷ s) x = ground (arith, length-delete-le s x)

append_end-IsDistinct :
    (s : List String) (x : String) → has s x ≡ false → IsDistinct s → IsDistinct (append_end s x)
unfolding append_end has
append_end-IsDistinct [] x h d = (refl, tt)
append_end-IsDistinct (z ∷ s) x h d =
    ground (arith, append_end-IsDistinct s x, has-append_end s x z, eq_iff z x, eq_iff x z)

pub add-IsDistinct : (s : List String) (x : String) → IsDistinct s → IsDistinct (add s x)
unfolding add
add-IsDistinct s x d = ground (arith, append_end-IsDistinct s x)

pub delete-IsDistinct : (s : List String) (x : String) → IsDistinct s → IsDistinct (delete s x)
unfolding delete
delete-IsDistinct [] x d = tt
delete-IsDistinct (z ∷ s) x d = ground (arith, delete-IsDistinct s x, has-delete s x z)

pub of_list-IsDistinct : (s xs : List String) → IsDistinct s → IsDistinct (of_list s xs)
unfolding of_list
of_list-IsDistinct s [] d = d
of_list-IsDistinct s (x ∷ xs) d = of_list-IsDistinct (add s x) xs (add-IsDistinct s x d)

pub ruleset set_laws = (has-add, has-delete)
