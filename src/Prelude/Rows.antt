-- ===== src/Prelude/Rows.antt =====
-- What SQL does with rows: a stable `ORDER BY`, and a loop that rewrites rows by their keys.
use Prim.Native.String.{String}
use mathlib.Core.Path.{◌≡◌, refl, sym, subst, ◌∙◌, ap}
use mathlib.Core.Logic.{◌⊎◌, inl, inr}
use mathlib.Core.Bool.{Bool, true, false}
use mathlib.Core.Option.{Option, none, some}
use mathlib.Core.List.{List, [], ◌∷◌, Memᴰ}
use mathlib.Core.List.Memᴰ
use native.Mathlib.Omega.{arith}
use text.Mathlib.TextEquality.{eq_iff}
use text.Mathlib.TextPositions.{eq_refl}
use droid_swarm.Prelude.Tests.{◌==◌, if◌then◌else◌, Bool-cases, Option-cases}
use droid_swarm.Prelude.Lists.{All, filter}
use droid_swarm.Prelude.Maps.{Map, get, put, values, get-put}

abbrev pub map_option {ℓ κ} : {A : Type ℓ} {B : Type κ} → (A → B) → Option A → Option B
map_option f none = none
map_option f (some x) = some (f x)

module _ {ℓ} {A : Type ℓ} where
  -- `before a b` when `a` has to stand before `b`
  abbrev pub insert : (A → A → Bool) → A → List A → List A
  insert before x [] = x ∷ []
  insert before x (y ∷ ys) =
      let rest = insert before x ys in if before y x then y ∷ rest else x ∷ y ∷ ys

  abbrev pub order_by : (A → A → Bool) → List A → List A
  order_by before [] = []
  order_by before (x ∷ xs) = insert before x (order_by before xs)

  insert-Mem :
      (before : A → A → Bool) (x y : A) (ys : List A)
      → (x ≡ y) ⊎ Memᴰ x ys
      → Memᴰ x (insert before y ys)
  insert-Mem before x y [] (inl e) = Memᴰ.head e
  insert-Mem before x y [] (inr h) = elim (Memᴰ.not-nil h) [ ]
  insert-Mem before x y (z ∷ ys) h =
      elim (before z y) as (λ b. Memᴰ x (if b then z ∷ insert before y ys else y ∷ z ∷ ys)) [
        | true ↦ elim h [
          | inl e ↦ Memᴰ.tail (insert-Mem before x y ys (inl e))
          | inr k ↦ elim (Memᴰ.cases_cons k) [
            | inl e ↦ Memᴰ.head e
            | inr t ↦ Memᴰ.tail (insert-Mem before x y ys (inr t))
          ]
        ]
        | false ↦ elim h [ inl e ↦ Memᴰ.head e | inr k ↦ Memᴰ.tail k ]
      ]

  pub order_by-Mem :
      (before : A → A → Bool) (x : A) (xs : List A) → Memᴰ x xs → Memᴰ x (order_by before xs)
  order_by-Mem before x [] h = h
  order_by-Mem before x (y ∷ xs) h =
      insert-Mem before x y (order_by before xs)
        (elim (Memᴰ.cases_cons h) [ inl e ↦ inl e | inr t ↦ inr (order_by-Mem before x xs t) ])

  pub filter-Mem :
      (p : A → Bool) (x : A) (xs : List A) → p x ≡ true → Memᴰ x xs → Memᴰ x (filter p xs)
  filter-Mem p x [] hp h = h
  filter-Mem p x (y ∷ xs) hp h = elim (Memᴰ.cases_cons h) [
    | inl e ↦ rw (ap p (sym e) ∙ hp) (Memᴰ.head e)
    | inr t ↦ elim (p y) as (λ b. Memᴰ x (if b then y ∷ filter p xs else filter p xs)) [
      | true ↦ Memᴰ.tail (filter-Mem p x xs hp t)
      | false ↦ filter-Mem p x xs hp t
    ]
  ]

module _ {ℓ κ} {A : Type ℓ} (P : A → Type κ) where
  insert-All :
      (before : A → A → Bool) (y : A) (ys : List A) → P y → All P ys → All P (insert before y ys)
  insert-All before y [] hy h = (hy, h)
  insert-All before y (z ∷ ys) hy h =
      elim (before z y) as (λ b. All P (if b then z ∷ insert before y ys else y ∷ z ∷ ys)) [
        | true ↦ (h.0, insert-All before y ys hy h.1)
        | false ↦ (hy, h)
      ]

  pub order_by-All : (before : A → A → Bool) (xs : List A) → All P xs → All P (order_by before xs)
  order_by-All before [] h = h
  order_by-All before (x ∷ xs) h =
      insert-All before x (order_by before xs) h.0 (order_by-All before xs h.1)

  pub filter-All : (p : A → Bool) (xs : List A) → All P xs → All P (filter p xs)
  filter-All p [] h = h
  filter-All p (x ∷ xs) h =
      elim (p x) as (λ b. All P (if b then x ∷ filter p xs else filter p xs)) [
        | true ↦ (h.0, filter-All p xs h.1)
        | false ↦ filter-All p xs h.1
      ]

  pub All-implies : {Q : A → Type κ} → ((x : A) → P x → Q x) → (xs : List A) → All P xs → All Q xs
  All-implies f [] h = h
  All-implies f (x ∷ xs) h = (f x h.0, All-implies f xs h.1)

pub members {ℓ} : {A : Type ℓ} (xs : List A) → All (λ x. Memᴰ x xs) xs
members [] = tt
members (x ∷ xs) =
    (Memᴰ.head refl, All-implies (λ y. Memᴰ y xs) (λ y m. Memᴰ.tail m) xs (members xs))

pub All-Mem {ℓ κ} : {A : Type ℓ} (P : A → Type κ) (x : A) (xs : List A) → All P xs → Memᴰ x xs → P x
All-Mem P x [] h mem = elim (Memᴰ.not-nil mem) [ ]
All-Mem P x (y ∷ ys) h mem = elim (Memᴰ.cases_cons mem) [
  | inl same ↦ subst P (sym same) h.0
  | inr later ↦ All-Mem P x ys h.1 later
]

module _ {ℓ} {A : Type ℓ} (key : A → String) where
  -- Each row stands under its key, and no key stands twice.
  abbrev pub IsTable : Map A → Type ℓ
  IsTable [] = Unit
  IsTable ((k, x) ∷ m) = (key x ≡ k) × (get m k ≡ none) × IsTable m

  pub put-IsTable : (m : Map A) (x : A) → IsTable m → IsTable (put m (key x) x)
  unfolding get put
  put-IsTable [] x h = (refl, refl, tt)
  put-IsTable ((k, y) ∷ m) x h = elim (Bool-cases (k == key x)) [
    | inl same ↦ rw same (sym ((eq_iff k (key x)).0 same), h.1, h.2)
    | inr other ↦ rw other (
      h.0,
      ground (arith, other, h, get-put m (key x) k x, eq_iff k (key x), eq_iff (key x) k),
      put-IsTable m x h.2,
    )
  ]

  -- Every row of a table is found under its key, and every row found is one of its values.
  pub values-get : (m : Map A) → IsTable m → All (λ x. get m (key x) ≡ some x) (values m)
  unfolding get
  values-get [] h = tt
  values-get ((k, x) ∷ m) h = (
    rw (h.0, eq_refl k) refl,
    All-implies (λ y. get m (key y) ≡ some y)
        (λ y found. ground (arith, found, h, eq_iff k (key y))) (values m) (values-get m h.2),
  )

  pub get-key : (m : Map A) (j : String) (x : A) → IsTable m → get m j ≡ some x → key x ≡ j
  unfolding get
  get-key [] j x table h = ground (arith, h)
  get-key ((k, y) ∷ m) j x table h = elim (Bool-cases (k == j)) [
    | inl same ↦ ground (arith, h, same, table, eq_iff k j)
    | inr other ↦ get-key m j x table.2 (ground (arith, h, other))
  ]

  pub values-Mem : (m : Map A) (j : String) (x : A) → get m j ≡ some x → Memᴰ x (values m)
  unfolding get
  values-Mem [] j x h = ground (arith, h)
  values-Mem ((k, y) ∷ m) j x h = elim (Bool-cases (k == j)) [
    | inl same ↦ Memᴰ.head (ground (arith, h, same))
    | inr other ↦ Memᴰ.tail (values-Mem m j x (ground (arith, h, other)))
  ]

-- A loop over rows whose step sets a row that is still as it was, or is done, to its new value.
module _ {ℓ} {A : Type ℓ} (key : A → String) (f : A → A) (step : Map A → A → Map A)
    (step-get : (m : Map A) (x : A)
      → (get m (key x) ≡ some x) ⊎ (get m (key x) ≡ some (f x))
      → (j : String) → get (step m x) j ≡ (if key x == j then some (f x) else get m j)) where
  abbrev pub rewrite_all : Map A → List A → Map A
  rewrite_all m [] = m
  rewrite_all m (x ∷ xs) = rewrite_all (step m x) xs

  module _ (m0 : Map A) where
    Between : String → Map A → Type ℓ
    Between j m = (get m j ≡ get m0 j) ⊎ (get m j ≡ map_option f (get m0 j))

    step-row :
        (m : Map A) (x : A)
        → get m0 (key x) ≡ some x
        → Between (key x) m
        → (j : String)
        → get (step m x) j ≡ (if key x == j then map_option f (get m0 j) else get m j)
    unfolding Between
    step-row m x start b j = elim (Bool-cases (key x == j)) [
      | inl same ↦ rw same (
          step-get m x (ground (arith, start, b)) j
          ∙ rw (same, sym ((eq_iff (key x) j).0 same), start) refl)
      | inr other ↦ rw other (step-get m x (ground (arith, start, b)) j ∙ rw other refl)
    ]

    -- What one step keeps: each row is as at the start or new, and a new row stays new.
    step-Between :
        (m : Map A) (x : A)
        → get m0 (key x) ≡ some x
        → ((j : String) → Between j m)
        → (j : String) → Between j (step m x)
    unfolding Between
    step-Between m x start b j = elim (Bool-cases (key x == j)) [
      | inl same ↦ inr (step-row m x start (b (key x)) j ∙ rw same refl)
      | inr other ↦ rw (step-row m x start (b (key x)) j, other) (b j)
    ]

    step-new :
        (m : Map A) (x : A)
        → get m0 (key x) ≡ some x
        → ((j : String) → Between j m)
        → (j : String) → (get m j ≡ map_option f (get m0 j)) ⊎ (key x ≡ j)
        → get (step m x) j ≡ map_option f (get m0 j)
    step-new m x start b j h = elim (Bool-cases (key x == j)) [
      | inl same ↦ step-row m x start (b (key x)) j ∙ rw same refl
      | inr other ↦
          step-row m x start (b (key x)) j
          ∙ rw other (elim h [ inl new ↦ new | inr e ↦ ground (arith, other, eq_iff (key x) j, e) ])
    ]

    rewrite_all-Between :
        (m : Map A) (xs : List A)
        → All (λ x. get m0 (key x) ≡ some x) xs
        → ((j : String) → Between j m)
        → (j : String) → Between j (rewrite_all m xs)
    rewrite_all-Between m [] start b j = b j
    rewrite_all-Between m (x ∷ xs) start b j =
        rewrite_all-Between (step m x) xs start.1 (step-Between m x start.0 b) j

    rewrite_all-new :
        (m : Map A) (xs : List A)
        → All (λ x. get m0 (key x) ≡ some x) xs
        → ((j : String) → Between j m)
        → (j : String) → (get m j ≡ map_option f (get m0 j)) ⊎ ((x : A) × Memᴰ x xs × (key x ≡ j))
        → get (rewrite_all m xs) j ≡ map_option f (get m0 j)
    rewrite_all-new m [] start b j (inl new) = new
    rewrite_all-new m [] start b j (inr (x, h, e)) = elim (Memᴰ.not-nil h) [ ]
    rewrite_all-new m (x ∷ xs) start b j h =
        rewrite_all-new (step m x) xs start.1 (step-Between m x start.0 b) j (elim h [
          | inl new ↦ inl (step-new m x start.0 b j (inl new))
          | inr (y, mem, e) ↦ elim (Memᴰ.cases_cons mem) [
            | inl same ↦ inl (step-new m x start.0 b j (inr (ap key (sym same) ∙ e)))
            | inr later ↦ inr (y, later, e)
          ]
        ])

    -- After the loop every row has its new value, when the rows not visited are kept by it.
    pub rewrite_all-get :
        (xs : List A)
        → All (λ x. get m0 (key x) ≡ some x) xs
        → ((j : String) (x : A) → get m0 j ≡ some x → (f x ≡ x) ⊎ (Memᴰ x xs × (key x ≡ j)))
        → (j : String) → get (rewrite_all m0 xs) j ≡ map_option f (get m0 j)
    unfolding Between
    rewrite_all-get xs start visits j =
        rewrite_all-new m0 xs start (λ i. inl refl) j
          (elim (Option-cases (get m0 j)) [
            | inl gone ↦ inl (rw gone refl)
            | inr (x, found) ↦ elim (visits j x found) [
              | inl keeps ↦ inl (rw (found, keeps) refl)
              | inr (mem, e) ↦ inr (x, mem, e)
            ]
          ])
