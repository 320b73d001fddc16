-- ===== src/Audit/Json.antt =====
-- The payloads of audit events, and `stableSerialize` of packages/shared-tracing/src/audit-logger.ts.
-- A number is held as the text that `JSON.stringify` prints for it.
use Prim.Native.Char.{Char, code}
use Prim.Native.String.{compare}
use Prim.Native.Nat.{Ordering}
use droid_swarm.Prelude.{
  ℕ, ◌-◌, ◌≡◌, refl, String, Bool, true, false, ◌<>◌, join, nat_eq, ltb, digit, if◌then◌else◌, List,
  [], ◌∷◌, map,
}

mutual
  pub data Json : Type 0 where
    undef null : Json
    bool : Bool → Json
    num : String → Json
    str : String → Json
    arr : Items → Json
    obj : Members → Json

  pub data Items : Type 0 where
    nil : Items
    cons : Json → Items → Items

  pub data Members : Type 0 where
    end : Members
    member : String → Json → Members → Members

hex_digit : ℕ → String
hex_digit n =
    if nat_eq n 10
    then "a"
    else if nat_eq n 11
    then "b"
    else if nat_eq n 12
    then "c"
    else if nat_eq n 13
    then "d"
    else if nat_eq n 14
    then "e"
    else if nat_eq n 15
    then "f"
    else digit n

-- One character inside the quotes of a JSON text
escape : Char → String
unfolding hex_digit
escape c =
    let n = code c in
    if nat_eq n 34
    then "\\\""
    else if nat_eq n 92
    then "\\\\"
    else if nat_eq n 8
    then "\\b"
    else if nat_eq n 12
    then "\\f"
    else if nat_eq n 10
    then "\\n"
    else if nat_eq n 13
    then "\\r"
    else if nat_eq n 9
    then "\\t"
    else if ltb n 16
    then "\\u000" <> hex_digit n
    else if ltb n 32
    then "\\u001" <> hex_digit (n - 16)
    else String.◌∷◌ c String.[]

escape_all : String → String
unfolding escape
escape_all String.[] = ""
escape_all (String.◌∷◌ c s) = escape c <> escape_all s

-- `JSON.stringify` of a text
unfoldable pub quote : String → String
unfolding escape_all
quote s = "\"" <> escape_all s <> "\""

insert_entry : String × String → List (String × String) → List (String × String)
insert_entry e [] = e ∷ []
insert_entry e (f ∷ rest) = elim (compare f.0 e.0) [
  | Ordering.gt ↦ e ∷ f ∷ rest
  | _ ↦ f ∷ insert_entry e rest
]

-- `Object.keys(record).sort()`, each key with the text of its value
sort_entries : List (String × String) → List (String × String)
unfolding insert_entry
sort_entries [] = []
sort_entries (e ∷ rest) = insert_entry e (sort_entries rest)

-- `JSON.stringify(key):value`
entry_text : String × String → String
unfolding quote
entry_text (key, value) = quote key <> ":" <> value

unfoldable mutual
  unfolding sort_entries entry_text quote join

  -- An undefined value is the JavaScript `undefined`, which a template literal writes out.
  pub stable_serialize : Json → String
  stable_serialize undef = "undefined"
  stable_serialize null = "null"
  stable_serialize (bool true) = "true"
  stable_serialize (bool false) = "false"
  stable_serialize (num text) = text
  stable_serialize (str text) = quote text
  stable_serialize (arr items) = "[" <> join "," (item_texts items) <> "]"
  stable_serialize (obj members) =
      "{" <> join "," (map entry_text (sort_entries (member_texts members))) <> "}"

  -- `join` writes an undefined item as nothing.
  pub item_texts : Items → List String
  item_texts nil = []
  item_texts (cons undef items) = "" ∷ item_texts items
  item_texts (cons item items) = stable_serialize item ∷ item_texts items

  pub member_texts : Members → List (String × String)
  member_texts end = []
  member_texts (member key value members) = (key, stable_serialize value) ∷ member_texts members

abbrev sample : Json
sample = obj (member "b" (num "1") (member "a" (arr (cons (str "x\"y\n") (cons undef nil))) end))

stable_serialize-sample : stable_serialize sample ≡ "{\"a\":[\"x\\\"y\\n\",],\"b\":1}"
unfolding stable_serialize
stable_serialize-sample = refl
