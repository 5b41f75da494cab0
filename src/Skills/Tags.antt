-- ===== src/Skills/Tags.antt =====
-- The tags of a skill in catalog/skills.go: `parseSkillTags`, `mergeTags` and `tagIntersection`.
pub mod Merging
use neuralgentics_broker.Prelude.{
  ℕ, zero, suc, ◌+◌, ◌-◌, ◌*◌, ◌/◌, ◌%◌, ◌^◌, ◌≤◌, ◌<◌, String, ◌≡◌, refl, sym, ap, ◌∙◌, ◌≢◌, ◌↔◌,
  ◌⊎◌, inl, inr, Bool, true, false, not, ◌&&◌, ◌||◌, Option, none, some, List, [], ◌∷◌, ◌++◌, map,
  reverse, arith, ◌==◌, eq_iff, eq_refl, ltb, leb, eqb, if◌then◌else◌, Bool-cases, Option-cases,
  is_some, Result, is_ok, ok, err, length, is_empty, keep_if, take, All, length-append,
  length-keep_if, All-keep_if, elem, elem-append, elem-keep_if, Dict, get, put, delete, keys,
  has_key, IsMap, get-put, get-delete, has_key-get, has_key-put, has_key-delete, put-IsMap,
  delete-IsMap, dict_laws, text_le, text_le_total, sort_strings, IsSorted, sort_strings-IsSorted,
  elem-sort_strings, encode, bytes, later, last_index, last_index-lt, eq_bytes, drop, starts_with,
  contains, has_suffix, one_more, index,
}
use Prim.Native.Char.{Char, code}
use neuralgentics_broker.Prelude.Int.{ℤ, pos, negsuc}
use neuralgentics_broker.Skills.{
  ScopeFile, Item, text, other_item, Value, scalar, items, other_value,
}

-- the items that are texts
abbrev pub texts : List Item → List String
texts [] = []
texts (text s ∷ xs) = s ∷ texts xs
texts (other_item ∷ xs) = texts xs

-- `strings.Split(v, ",")`
abbrev pub into_first : Char → List String → List String
into_first c [] = String.◌∷◌ c String.[] ∷ []
into_first c (p ∷ ps) = String.◌∷◌ c p ∷ ps

unfoldable pub split_commas : String → List String
split_commas String.[] = "" ∷ []
split_commas (String.◌∷◌ c s) =
    let rest = split_commas s in if eqb (code c) b',' then "" ∷ rest else into_first c rest

-- `parseSkillTags`; `trim_space` is `strings.TrimSpace`
unfoldable pub trimmed_parts : (String → String) → List String → List String
trimmed_parts trim_space [] = []
trimmed_parts trim_space (p ∷ ps) =
    let rest = trimmed_parts trim_space ps in
    if trim_space p == "" then rest else trim_space p ∷ rest

unfoldable pub parse_skill_tags : (String → String) → Dict Value → List String
unfolding split_commas trimmed_parts
parse_skill_tags trim_space fm = elim (get "tags" fm) [
  | none ↦ []
  | some (items xs) ↦ texts xs
  | some (scalar v) ↦ if v == "" then [] else trimmed_parts trim_space (split_commas v)
  | some other_value ↦ []
]

-- `tagIntersection`
unfoldable pub tag_intersection : List String → List String → List String
tag_intersection a b = keep_if (λ t. elem t b) a

-- a tag with its modifier
pub data Modifier : Type 0 where
  adds removes : String → Modifier

abbrev pub modifier_of : String → Modifier
modifier_of String.[] = adds ""
modifier_of (String.◌∷◌ c s) =
    if eqb (code c) b'-'
    then removes s
    else if eqb (code c) b'+'
    then adds s
    else adds (String.◌∷◌ c s)

-- the body of the loop over the front matter's tags: `mergedTags` and `seen`
abbrev pub Merge : Type 0
Merge = List String × List String

abbrev pub without : String → List String → List String
without t = keep_if (λ x. not (x == t))

abbrev pub apply_modifier : Merge → Modifier → Merge
apply_modifier (merged, seen) (removes t) = (without t merged, without t seen)
apply_modifier (merged, seen) (adds t) =
    if elem t seen then (merged, seen) else (merged ++ t ∷ [], t ∷ seen)

unfoldable pub merge_loop : Merge → List String → Merge
merge_loop acc [] = acc
merge_loop acc (tag ∷ tags) = merge_loop (apply_modifier acc (modifier_of tag)) tags

abbrev pub is_positive : ℤ → Bool
is_positive (pos n) = ltb 0 n
is_positive (negsuc n) = false

-- `scope.Roles[role]`
abbrev pub flatten : Option (Option (List String)) → Option (List String)
flatten none = none
flatten (some o) = o

abbrev pub yaml_tags : ScopeFile → String → Option (List String)
yaml_tags scope role = flatten (get role scope.roles)

abbrev pub or_nil : Option (List String) → List String
or_nil none = []
or_nil (some ts) = ts

abbrev pub is_named : String → Bool
is_named role = not (role == "orchestrator") && not (role == "")

-- step 2 of `mergeTags`
abbrev pub listed_scope : String → Option (List String) → List String
listed_scope role none = []
listed_scope role (some ts) = role ∷ []

abbrev pub agent_scope_of : String → ScopeFile → List String
agent_scope_of role scope =
    if is_positive scope.version && not (is_empty scope.roles)
    then (if is_named role then listed_scope role (yaml_tags scope role) else keys scope.roles)
    else keys scope.roles

-- step 5
abbrev pub checked_scope : String → Option (List String) → List String → List String → List String
checked_scope role none merged scope = scope
checked_scope role (some ts) merged scope =
    if is_named role && is_empty (tag_intersection merged ts) then [] else scope

-- `mergeTags`: the merged tags and the agent scope
abbrev pub merged_tags : List String → Option (List String) → List String
merged_tags fm_tags o = (merge_loop (or_nil o, or_nil o) fm_tags).0

unfoldable pub merge_tags : List String → String → ScopeFile → List String × List String
unfolding merge_loop tag_intersection
merge_tags fm_tags role scope =
    let o = yaml_tags scope role in
    if is_empty fm_tags then (or_nil o, agent_scope_of role scope) else (
      merged_tags fm_tags o,
      checked_scope role o (merged_tags fm_tags o) (agent_scope_of role scope),
    )
