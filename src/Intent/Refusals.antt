-- ===== src/Intent/Refusals.antt =====
-- When `Match` of intent/matcher.go returns an error.
use neuralgentics_broker.Prelude.{
  suc, String, ◌≡◌, refl, sym, ◌⊎◌, inl, inr, true, false, List, [], ◌∷◌, arith, ltb, if◌then◌else◌,
  Bool-cases, Result, ok, err, length, is_empty, All,
}
use neuralgentics_broker.Errors.{BrokerError, below_threshold}
use mathlib.Core.Path.{subst}
use neuralgentics_broker.Types.{ToolSummary}
use neuralgentics_broker.Intent.{
  Unicode, Floats, ToolMatch, tokenize, remove_stop_words, score_tool, matches_of, sort_matches,
  limited, match_all, best_of, match_intent,
}
use neuralgentics_broker.Intent.Sorting.{IsOrder, AtMost, sort_matches-All}
use neuralgentics_broker.Intent.Ranking.{IsTop, IsTop-matches_of, irreflexive, first-IsTop}

module _ {F : Type 0} (floats : Floats F) (u : Unicode) (tokens : List String) where
  -- every tool's score is below this one
  abbrev pub IsBelow : F → List ToolSummary → Type 0
  IsBelow threshold tools =
      All (λ (t : ToolSummary). floats.exceeds threshold (score_tool floats u tokens t) ≡ true)
        tools

  IsTop-IsBelow :
      (threshold s : F) (tools : List ToolSummary)
      → IsOrder floats
      → floats.exceeds threshold s ≡ true
      → IsTop floats u tokens s tools
      → IsBelow threshold tools
  IsTop-IsBelow threshold s [] order above h = tt
  IsTop-IsBelow threshold s (t ∷ ts) order above h = (
    elim (Bool-cases (floats.exceeds threshold (score_tool floats u tokens t))) [
      | inl below ↦ below
      | inr not_below ↦
          let c = order.cotrans threshold (score_tool floats u tokens t) s not_below h.0 in
          absurd (ground (arith, above, c))
    ],
    IsTop-IsBelow threshold s ts order above h.1,
  )

  refused :
      (threshold : F) (x : ToolMatch F) (e e' : BrokerError)
      → (if floats.exceeds threshold x.score then Result.err e else ok x) ≡ err e'
      → floats.exceeds threshold x.score ≡ true
  refused threshold x e e' = elim (Bool-cases (floats.exceeds threshold x.score)) [
    | inl above ↦ λ h. above
    | inr below ↦ rw below (λ h. absurd cc)
  ]

  -- the first of the sorted matches is below the threshold, or there is none
  refused-IsBelow :
      (threshold : F) (intent : String) (tools : List ToolSummary) (sorted : List (ToolMatch F))
      (e : BrokerError)
      → IsOrder floats
      → floats.exceeds threshold floats.origin ≡ true
      → sort_matches floats (matches_of floats u tokens tools) ≡ sorted
      → best_of floats threshold intent (limited floats 1 sorted) ≡ err e
      → IsBelow threshold tools
  refused-IsBelow threshold intent tools [] e order positive s h =
      let xs = matches_of floats u tokens tools in
      IsTop-IsBelow threshold floats.origin tools order positive (
        IsTop-matches_of floats u tokens floats.origin tools order
          (irreflexive floats u tokens floats.origin order)
          (sort_matches-All floats (λ m. floats.exceeds m.score floats.origin ≡ false) xs
            (subst (AtMost floats floats.origin) (sym s) tt)))
  refused-IsBelow threshold intent tools (x ∷ []) e order positive s h =
      let top = first-IsTop floats u tokens tools (x ∷ []) x [] order s refl in
      IsTop-IsBelow threshold x.score tools order
        (refused threshold x (below_threshold x.tool.name) e h) top.1
  refused-IsBelow threshold intent tools (x ∷ y ∷ ys) e order positive s h =
      let longer : ltb 1 (suc (suc (length ys))) ≡ true = ground arith in
      let top = first-IsTop floats u tokens tools (x ∷ y ∷ ys) x (y ∷ ys) order s refl in
      IsTop-IsBelow threshold x.score tools order
        (refused threshold x (below_threshold x.tool.name) e (
          subst (λ b. best_of floats threshold intent (if b then x ∷ [] else x ∷ y ∷ ys) ≡ err e)
            longer h))
        top.1

-- If the order of the scores is that of float64 values that are not NaN, the threshold is above zero and
-- `Match` returns an error, the intent has no tokens or every tool's score is below the threshold.
pub match_intent-IsBelow :
    {F : Type 0} (floats : Floats F) (u : Unicode) (threshold : F) (tools : List ToolSummary)
    (intent : String) (e : BrokerError)
    → IsOrder floats
    → floats.exceeds threshold floats.origin ≡ true
    → match_intent floats u threshold tools intent ≡ err e
    → let tokens = remove_stop_words (tokenize u intent) in
      (is_empty tokens ≡ true) ⊎ IsBelow floats u tokens threshold tools
unfolding match_intent match_all
match_intent-IsBelow floats u threshold tools intent e order positive =
    let tokens = remove_stop_words (tokenize u intent) in
    let sorted = sort_matches floats (matches_of floats u tokens tools) in
    elim (Bool-cases (is_empty tokens)) [
      | inl empty ↦ λ h. inl empty
      | inr n ↦ rw n (λ h.
          inr
            (refused-IsBelow floats u tokens threshold intent tools sorted e order positive refl h))
    ]
