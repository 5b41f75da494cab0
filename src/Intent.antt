-- ===== src/Intent.antt =====
-- intent/matcher.go: the tools that match an intent. The tables of Unicode and the arithmetic of
-- float64 are arguments. The text that explains a score is left out.
pub mod Sorting
pub mod Ranking
pub mod Refusals
use neuralgentics_broker.Prelude.{
  ℕ, zero, suc, ◌+◌, ◌-◌, ◌*◌, ◌/◌, ◌%◌, ◌^◌, ◌≤◌, ◌<◌, String, ◌≡◌, refl, sym, ap, ◌∙◌, ◌≢◌, ◌↔◌,
  ◌⊎◌, inl, inr, Bool, true, false, not, ◌&&◌, ◌||◌, Option, none, some, List, [], ◌∷◌, ◌++◌, map,
  reverse, arith, ◌==◌, eq_iff, eq_refl, ltb, leb, eqb, if◌then◌else◌, Bool-cases, Option-cases,
  is_some, Result, is_ok, put_at, ok, err, length, is_empty, keep_if, take, All, length-append,
  length-keep_if, All-keep_if, elem, elem-append, elem-keep_if, Dict, get, put, delete, keys,
  has_key, IsMap, get-put, get-delete, has_key-get, has_key-put, has_key-delete, put-IsMap,
  delete-IsMap, dict_laws, text_le, text_le_total, sort_strings, IsSorted, sort_strings-IsSorted,
  elem-sort_strings, encode, bytes, later, last_index, last_index-lt, eq_bytes, drop, starts_with,
  contains, has_suffix, one_more, index,
}
use Prim.Native.Char.{Char}
use neuralgentics_broker.Errors.{Outcome, no_matching_tool, below_threshold}
use neuralgentics_broker.Types.{ToolSummary}

-- `strings.ToLower`, and `unicode.IsLetter` or `unicode.IsDigit`
pub record Unicode : Type 0 where
  pub to_lower : String → String
  pub is_word : Char → Bool

-- What the matcher does with a float64: the quotient of two counts, the product of a count and 0.05,
-- the sum, `x > y` and `x == 0`.
pub record Floats (F : Type 0) : Type 0 where
  pub origin : F
  pub one : F
  pub ratio : ℕ → ℕ → F
  pub bonus : ℕ → F
  pub plus : F → F → F
  pub exceeds : F → F → Bool
  pub is_origin : F → Bool

abbrev pub stop_words : List String
stop_words =
    "the" ∷ "a" ∷ "an" ∷ "to" ∷ "for" ∷ "of" ∷ "in" ∷ "is" ∷ "it" ∷ "on" ∷ "and" ∷ "or" ∷ "with"
    ∷ "from" ∷ "by" ∷ "my" ∷ "me" ∷ "at" ∷ []

-- `current.WriteRune`
unfoldable pub write_rune : String → Char → String
write_rune String.[] c = String.◌∷◌ c String.[]
write_rune (String.◌∷◌ d s) c = String.◌∷◌ d (write_rune s c)

-- `tokenize`: the token that is written when the loop meets another rune, or the end
abbrev pub flush_token : String → List String → List String
flush_token current rest = if current == "" then rest else current ∷ rest

unfoldable pub tokenize_loop : (Char → Bool) → String → String → List String
unfolding write_rune
tokenize_loop is_word current String.[] = flush_token current []
tokenize_loop is_word current (String.◌∷◌ c s) = elim (is_word c) [
  | true ↦ tokenize_loop is_word (write_rune current c) s
  | false ↦ flush_token current (tokenize_loop is_word "" s)
]

unfoldable pub tokenize : Unicode → String → List String
unfolding tokenize_loop
tokenize u text = tokenize_loop u.is_word "" (u.to_lower text)

-- `removeStopWords`
abbrev pub or_all : List String → List String → List String
or_all tokens [] = tokens
or_all tokens (t ∷ ts) = t ∷ ts

unfoldable pub remove_stop_words : List String → List String
remove_stop_words tokens = or_all tokens (keep_if (λ t. not (elem t stop_words)) tokens)

abbrev pub doubled : List ℕ → Bool
doubled (x ∷ y ∷ rest) = eqb x y
doubled _ = false

-- the branch of `simpleStem` for "-ing", on the word without it
unfoldable pub stem_ing : List ℕ → List ℕ
unfolding has_suffix bytes
stem_ing stem =
    let short = if doubled (reverse stem) then take (length stem - 1) stem else stem in
    if has_suffix short (bytes "at") || has_suffix short (bytes "it")
    then short ++ bytes "e"
    else short

-- `simpleStem`
unfoldable pub simple_stem : List ℕ → List ℕ
unfolding has_suffix stem_ing bytes
simple_stem word =
    let n = length word in
    if has_suffix word (bytes "ing") && ltb 5 n
    then stem_ing (take (n - 3) word)
    else if has_suffix word (bytes "tion") || has_suffix word (bytes "sion")
    then take (n - 4) word
    else if has_suffix word (bytes "ness") && ltb 5 n
    then take (n - 4) word
    else if has_suffix word (bytes "ed") && ltb 4 n
    then take (n - 2) word
    else if has_suffix word (bytes "ly") && ltb 4 n
    then take (n - 2) word
    else word

-- `stemTokens`
unfoldable pub stem_tokens : List String → List (List ℕ)
unfolding simple_stem bytes
stem_tokens [] = []
stem_tokens (t ∷ ts) = simple_stem (bytes t) ∷ stem_tokens ts

-- `setA[t]`
unfoldable pub occurs : List ℕ → List (List ℕ) → Bool
unfolding eq_bytes
occurs t [] = false
occurs t (x ∷ xs) = eq_bytes x t || occurs t xs

-- the number of keys of a set made of a list
unfoldable pub size_of_set : List (List ℕ) → ℕ
unfolding occurs
size_of_set [] = 0
size_of_set (x ∷ xs) = let n = size_of_set xs in if occurs x xs then n else n + 1

unfoldable pub intersection : List (List ℕ) → List (List ℕ) → ℕ
unfolding occurs
intersection a [] = 0
intersection a (t ∷ ts) = let n = intersection a ts in if occurs t a then n + 1 else n

-- the loop of `exactNameMatchBonus`
abbrev pub any_contains : String → List String → Bool
any_contains it [] = false
any_contains it (nt ∷ nts) =
    contains (bytes nt) (bytes it) || contains (bytes it) (bytes nt) || any_contains it nts

unfoldable pub name_matches : List String → ℕ → List String → ℕ
unfolding contains bytes
name_matches names matched [] = matched
name_matches names matched (it ∷ ts) =
    let m = if elem it names then matched + 1 else matched in
    name_matches names (if eqb m 0 && any_contains it names then m + 1 else m) ts

pub record ToolMatch (F : Type 0) : Type 0 where
  pub tool : ToolSummary
  pub score : F

module _ {F : Type 0} (floats : Floats F) where
  -- `jaccardSimilarity`; the intersection is at most the length of `b`
  unfoldable pub jaccard_similarity : List (List ℕ) → List (List ℕ) → F
  unfolding size_of_set intersection
  jaccard_similarity a b =
      let both = intersection a b in
      let union = size_of_set a + length b - both in
      if eqb union 0 then floats.origin else floats.ratio both union

  unfoldable pub exact_name_match_bonus : List String → List String → F
  unfolding name_matches
  exact_name_match_bonus intent_tokens names =
      let matched = name_matches names 0 intent_tokens in
      if ltb 0 matched then floats.bonus matched else floats.origin

  -- `scoreTool`
  unfoldable pub score_tool : Unicode → List String → ToolSummary → F
  unfolding tokenize remove_stop_words stem_tokens jaccard_similarity exact_name_match_bonus
  score_tool u intent_tokens tool =
      let names = tokenize u tool.name in
      let tokens = names ++ remove_stop_words (tokenize u tool.description) in
      let score = jaccard_similarity (stem_tokens intent_tokens) (stem_tokens tokens) in
      if floats.is_origin score
      then floats.origin
      else let total = floats.plus score (exact_name_match_bonus intent_tokens names) in
        if floats.exceeds total floats.one then floats.one else total

  -- the loop of `MatchAll` over the tools
  unfoldable pub matches_of : Unicode → List String → List ToolSummary → List (ToolMatch F)
  unfolding score_tool
  matches_of u intent_tokens [] = []
  matches_of u intent_tokens (t ∷ ts) =
      let rest = matches_of u intent_tokens ts in
      let score = score_tool u intent_tokens t in
      if floats.exceeds score floats.origin then record { tool = t; score = score } ∷ rest else rest

  -- The inner loop of the sort: the sorted part stands last first, and the new element moves past
  -- each one that it exceeds.
  unfoldable pub sink_in : ToolMatch F → List (ToolMatch F) → List (ToolMatch F)
  sink_in x [] = x ∷ []
  sink_in x (y ∷ ys) =
      let rest = sink_in x ys in if floats.exceeds x.score y.score then y ∷ rest else x ∷ y ∷ ys

  -- the outer loop
  unfoldable pub sort_loop : List (ToolMatch F) → List (ToolMatch F) → List (ToolMatch F)
  unfolding sink_in
  sort_loop sorted [] = sorted
  sort_loop sorted (x ∷ xs) = sort_loop (sink_in x sorted) xs

  unfoldable pub sort_matches : List (ToolMatch F) → List (ToolMatch F)
  unfolding sort_loop
  sort_matches xs = reverse (sort_loop [] xs)

  abbrev pub limited : ℕ → List (ToolMatch F) → List (ToolMatch F)
  limited limit xs = if ltb 0 limit && ltb limit (length xs) then take limit xs else xs

  -- `MatchAll`
  unfoldable pub match_all : Unicode → List ToolSummary → String → ℕ → List (ToolMatch F)
  unfolding tokenize remove_stop_words matches_of sort_matches
  match_all u tools intent limit =
      let tokens = remove_stop_words (tokenize u intent) in
      if is_empty tokens then [] else limited limit (sort_matches (matches_of u tokens tools))

  -- `Match`
  abbrev pub best_of : F → String → List (ToolMatch F) → Outcome (ToolMatch F)
  best_of threshold intent [] = err (no_matching_tool intent)
  best_of threshold intent (best ∷ rest) =
      if floats.exceeds threshold best.score then err (below_threshold best.tool.name) else ok best

  unfoldable pub match_intent : Unicode → F → List ToolSummary → String → Outcome (ToolMatch F)
  unfolding match_all
  match_intent u threshold tools intent = best_of threshold intent (match_all u tools intent 1)
