-- ===== src/Prelude/Joined.antt =====
-- Words that are joined by single spaces are split and trimmed to themselves.
use Prim.Native.Char.{Char}
use Prim.Native.String.compare
use text.Mathlib.Text.{is_eq}
use Prim.Native.String.{String, ◌++◌}
use mathlib.Core.Path.{◌≡◌, refl, ap, ◌∙◌}
use mathlib.Core.Bool.{Bool, true, false, ◌&&◌}
use mathlib.Core.List.{List, [], ◌∷◌}
use text.Mathlib.TextLemmas.{cons-append, nil-append, append-nil}
use droid_swarm.Prelude.Tests.{◌==◌}
use droid_swarm.Prelude.Lists.{All}
use droid_swarm.Prelude.Text.{join}
use droid_swarm.Prelude.Words.{is_space, trim_start, trim_end, trim, parts_from, split_spaces}

-- No character is white space.
abbrev pub Spaceless : String → Type 0
Spaceless String.[] = Unit
Spaceless (String.◌∷◌ c s) = (is_space c ≡ false) × Spaceless s

-- A text without white space that is not empty
abbrev pub IsWord : String → Type 0
IsWord String.[] = ⊥
IsWord (String.◌∷◌ c s) = (is_space c ≡ false) × Spaceless s

parts_from-word : (w : String) → Spaceless w → parts_from false w ≡ w ∷ []
unfolding parts_from
parts_from-word String.[] h = refl
parts_from-word (String.◌∷◌ c w) h = rw (h.0, parts_from-word w h.1) refl

space-append : (rest : String) → " " ++ rest ≡ String.◌∷◌ " " rest
space-append rest = cons-append " " "" rest ∙ ap (λ s. String.◌∷◌ " " s) (nil-append rest)

-- After a word comes the rest behind the space.
parts_from-append :
    (w rest : String)
    → Spaceless w
    → parts_from false (w ++ (" " ++ rest)) ≡ w ∷ parts_from true rest
unfolding parts_from is_space
parts_from-append String.[] rest h = rw (nil-append (" " ++ rest), space-append rest) refl
parts_from-append (String.◌∷◌ c w) rest h =
    rw (cons-append c w (" " ++ rest)) (rw (h.0, parts_from-append w rest h.1) refl)

-- A gap before a word makes no difference.
parts_from-gap :
    (w rest : String) → IsWord w → parts_from true (w ++ rest) ≡ parts_from false (w ++ rest)
unfolding parts_from
parts_from-gap String.[] rest h = elim h [ ]
parts_from-gap (String.◌∷◌ c w) rest h = rw (cons-append c w rest) (rw h.0 refl)

word-Spaceless : (w : String) → IsWord w → Spaceless w
word-Spaceless String.[] h = elim h [ ]
word-Spaceless (String.◌∷◌ c w) h = h

-- The gap before the first word of a join makes no difference.
parts_from-join-gap :
    (w : String) (ws : List String)
    → IsWord w
    → parts_from true (join " " (w ∷ ws)) ≡ parts_from false (join " " (w ∷ ws))
unfolding join
parts_from-join-gap String.[] ws h = elim h [ ]
parts_from-join-gap (String.◌∷◌ c w) [] h = unfold parts_from in rw h.0 refl
parts_from-join-gap (String.◌∷◌ c w) (v ∷ vs) h =
    parts_from-gap (String.◌∷◌ c w) (" " ++ join " " (v ∷ vs)) h

-- A join of words by single spaces is split into the words.
pub split_spaces-join :
    (w : String) (ws : List String)
    → IsWord w
    → All IsWord ws
    → split_spaces (join " " (w ∷ ws)) ≡ w ∷ ws
unfolding split_spaces join
split_spaces-join w [] h hs = parts_from-word w (word-Spaceless w h)
split_spaces-join w (v ∷ vs) h hs =
    parts_from-append w (join " " (v ∷ vs)) (word-Spaceless w h)
    ∙ ap (λ l. w ∷ l) (parts_from-join-gap v vs hs.0 ∙ split_spaces-join v vs hs.0 hs.1)

and_false : (b : Bool) → (b && false) ≡ false
and_false true = refl
and_false false = refl

pub cons-eq-empty : (c : Char) (s : String) → (String.◌∷◌ c s == "") ≡ false
cons-eq-empty c s = λ i. is_eq (compare.cons-nil c s i)

append-eq-empty : (s t : String) → (t == "") ≡ false → (s ++ t == "") ≡ false
append-eq-empty String.[] t h = rw (nil-append t) h
append-eq-empty (String.◌∷◌ c s) t h = rw (cons-append c s t) (cons-eq-empty c (s ++ t))

trim_start-word : (w rest : String) → IsWord w → trim_start (w ++ rest) ≡ w ++ rest
unfolding trim_start
trim_start-word String.[] rest h = elim h [ ]
trim_start-word (String.◌∷◌ c w) rest h = rw (cons-append c w rest) (rw h.0 refl)

trim_end-word : (w : String) → Spaceless w → trim_end w ≡ w
unfolding trim_end
trim_end-word String.[] h = refl
trim_end-word (String.◌∷◌ c w) h = rw (h.0, trim_end-word w h.1) refl

-- White space that something follows is kept.
trim_end-append : (s t : String) → trim_end t ≡ t → (t == "") ≡ false → trim_end (s ++ t) ≡ s ++ t
unfolding trim_end
trim_end-append String.[] t kept some_t = rw (nil-append t) kept
trim_end-append (String.◌∷◌ c s) t kept some_t =
    rw (cons-append c s t) (
      rw (trim_end-append s t kept some_t, append-eq-empty s t some_t, and_false (is_space c)) refl)

pub word-eq-empty : (w : String) → IsWord w → (w == "") ≡ false
word-eq-empty String.[] h = elim h [ ]
word-eq-empty (String.◌∷◌ c w) h = cons-eq-empty c w

pub join-eq-empty : (w : String) (ws : List String) → IsWord w → (join " " (w ∷ ws) == "") ≡ false
unfolding join
join-eq-empty w [] h = word-eq-empty w h
join-eq-empty String.[] (v ∷ vs) h = elim h [ ]
join-eq-empty (String.◌∷◌ c w) (v ∷ vs) h =
    rw (cons-append c w (" " ++ join " " (v ∷ vs)))
      (cons-eq-empty c (w ++ (" " ++ join " " (v ∷ vs))))

pub trim_end-join :
    (w : String) (ws : List String)
    → IsWord w
    → All IsWord ws
    → trim_end (join " " (w ∷ ws)) ≡ join " " (w ∷ ws)
unfolding join
trim_end-join w [] h hs = trim_end-word w (word-Spaceless w h)
trim_end-join w (v ∷ vs) h hs =
    trim_end-append w (" " ++ join " " (v ∷ vs))
      (trim_end-append " " (join " " (v ∷ vs)) (trim_end-join v vs hs.0 hs.1)
        (join-eq-empty v vs hs.0))
      (append-eq-empty " " (join " " (v ∷ vs)) (join-eq-empty v vs hs.0))

trim_start-join :
    (w : String) (ws : List String) → IsWord w → trim_start (join " " (w ∷ ws)) ≡ join " " (w ∷ ws)
unfolding join
trim_start-join w [] h = rw (← append-nil w) (trim_start-word w "" h)
trim_start-join w (v ∷ vs) h = trim_start-word w (" " ++ join " " (v ∷ vs)) h

-- A join of words by single spaces has no white space at its ends.
pub trim-join :
    (w : String) (ws : List String)
    → IsWord w
    → All IsWord ws
    → trim (join " " (w ∷ ws)) ≡ join " " (w ∷ ws)
unfolding trim
trim-join w ws h hs = ap trim_end (trim_start-join w ws h) ∙ trim_end-join w ws h hs
