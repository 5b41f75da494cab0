-- ===== src/Skills/FrontMatter.antt =====
-- `parseSkillFrontMatter` of catalog/skills.go: the block between two lines of dashes.
pub mod Written
use neuralgentics_broker.Prelude.{
  ℕ, zero, suc, ◌+◌, ◌-◌, ◌*◌, ◌/◌, ◌%◌, ◌^◌, ◌≤◌, ◌<◌, String, ◌≡◌, refl, sym, ap, ◌∙◌, ◌≢◌, ◌↔◌,
  ◌⊎◌, inl, inr, Bool, true, false, not, ◌&&◌, ◌||◌, Option, none, some, List, [], ◌∷◌, ◌++◌, map,
  reverse, arith, ◌==◌, eq_iff, eq_refl, ltb, leb, eqb, if◌then◌else◌, Bool-cases, Option-cases,
  is_some, Result, is_ok, ok, err, length, is_empty, keep_if, take, All, length-append,
  length-keep_if, All-keep_if, elem, elem-append, elem-keep_if, Dict, get, put, delete, keys,
  has_key, IsMap, get-put, get-delete, has_key-get, has_key-put, has_key-delete, put-IsMap,
  delete-IsMap, dict_laws, text_le, text_le_total, sort_strings, IsSorted, sort_strings-IsSorted,
  elem-sort_strings, encode, bytes, later, last_index, last_index-lt, eq_bytes, drop, starts_with,
  contains, has_suffix, one_more, index,
}
use neuralgentics_broker.Skills.{Workspace, Value}

-- the two errors
pub data FrontMatterError : Type 0 where
  not_closed not_parsed : FrontMatterError

-- `strings.TrimLeft(s, " \t\r\n")`
abbrev pub is_blank : ℕ → Bool
is_blank c = eqb c b' ' || eqb c 9 || eqb c 13 || eqb c 10

unfoldable pub trim_left : List ℕ → List ℕ
trim_left [] = []
trim_left (c ∷ s) = let rest = trim_left s in if is_blank c then rest else c ∷ s

-- a new line, and one that three dashes follow
abbrev pub newline : List ℕ
newline = 10 ∷ []

abbrev pub dashes : List ℕ
dashes = b'-' ∷ b'-' ∷ b'-' ∷ []

abbrev pub closing : List ℕ
closing = 10 ∷ dashes

abbrev pub Parsed : Type 0
Parsed = Result FrontMatterError (Dict Value × List ℕ)

abbrev pub with_body : List ℕ → Option (Dict Value) → Parsed
with_body body none = err not_parsed
with_body body (some fm) = ok (fm, body)

-- the body, from what follows the closing dashes
abbrev pub body_of : List ℕ → List ℕ
body_of [] = []
body_of (c ∷ s) = if eqb c 10 then s else c ∷ s

abbrev pub after_open : Workspace → List ℕ → Option ℕ → Parsed
after_open w s none =
    if has_suffix s dashes then with_body [] (w.yaml (take (length s - 3) s)) else err not_closed
after_open w s (some close_idx) =
    with_body (body_of (drop (close_idx + 4) s)) (w.yaml (take close_idx s))

abbrev pub after_first_line : Workspace → List ℕ → List ℕ → Option ℕ → Parsed
after_first_line w content trimmed none = ok ([], content)
after_first_line w content trimmed (some open_end) =
    let s = drop (open_end + 1) trimmed in after_open w s (index closing s)

unfoldable pub parse_skill_front_matter : Workspace → List ℕ → Parsed
unfolding trim_left starts_with index drop has_suffix
parse_skill_front_matter w content =
    let trimmed = trim_left content in
    if not (starts_with (dashes ++ newline) trimmed)
      && not (starts_with (dashes ++ 13 ∷ newline) trimmed)
    then ok ([], content)
    else after_first_line w content trimmed (index newline trimmed)
