-- ===== src/Intent/Ranking.antt =====
-- In which order `MatchAll` of intent/matcher.go ranks the tools, and which one `Match` returns.
use neuralgentics_broker.Prelude.{
  ℕ, suc, String, ◌≡◌, refl, sym, ap, ◌∙◌, inl, inr, true, false, ◌&&◌, List, [], ◌∷◌, arith, ltb,
  if◌then◌else◌, Bool-cases, Result, ok, length, is_empty, take, All,
}
use neuralgentics_broker.Errors.{BrokerError, below_threshold}
use mathlib.Core.Path.{subst}
use neuralgentics_broker.Types.{ToolSummary}
use neuralgentics_broker.Intent.{
  Unicode, Floats, ToolMatch, tokenize, remove_stop_words, score_tool, matches_of, sort_matches,
  limited, match_all, best_of, match_intent,
}
use neuralgentics_broker.Intent.Sorting.{
  IsOrder, AtMost, Falling, All-sort_matches, sort_matches-All, Falling-sort_matches, Falling-take,
  if-Falling,
}

-- If the order of the scores is that of float64 values that are not NaN, the matches that `MatchAll`
-- returns stand from the best score to the worst, whatever the tools, the intent and the limit.
pub match_all-Falling :
    {F : Type 0} (floats : Floats F) (u : Unicode) (tools : List ToolSummary) (intent : String)
    (limit : ℕ)
    → IsOrder floats
    → Falling floats (match_all floats u tools intent limit)
unfolding match_all
match_all-Falling floats u tools intent limit order =
    let tokens = remove_stop_words (tokenize u intent) in
    let sorted = sort_matches floats (matches_of floats u tokens tools) in
    let falls = Falling-sort_matches floats (matches_of floats u tokens tools) order in
    if-Falling floats (is_empty tokens) [] (limited floats limit sorted) tt (
      if-Falling floats (ltb 0 limit && ltb limit (length sorted)) (take limit sorted) sorted
        (Falling-take floats limit sorted falls) falls)

module _ {F : Type 0} (floats : Floats F) (u : Unicode) (tokens : List String) where
  -- a match has its tool's score, which is positive
  abbrev Scored : ToolMatch F → Type 0
  Scored m =
      (m.score ≡ score_tool floats u tokens m.tool) × (floats.exceeds m.score floats.origin ≡ true)

  Scored-matches_of : (tools : List ToolSummary) → All Scored (matches_of floats u tokens tools)
  unfolding matches_of
  Scored-matches_of [] = tt
  Scored-matches_of (t ∷ ts) =
      elim (Bool-cases (floats.exceeds (score_tool floats u tokens t) floats.origin)) [
        | inl above ↦ rw above ((refl, above), Scored-matches_of ts)
        | inr below ↦ rw below (Scored-matches_of ts)
      ]

  All-matches_of :
      (P : ToolSummary → Type 0) (tools : List ToolSummary)
      → All P tools
      → All (λ (m : ToolMatch F). P m.tool) (matches_of floats u tokens tools)
  unfolding matches_of
  All-matches_of P [] h = tt
  All-matches_of P (t ∷ ts) h =
      elim (Bool-cases (floats.exceeds (score_tool floats u tokens t) floats.origin)) [
        | inl above ↦ rw above (h.0, All-matches_of P ts h.1)
        | inr below ↦ rw below (All-matches_of P ts h.1)
      ]

  -- no tool's score is above this one
  abbrev pub IsTop : F → List ToolSummary → Type 0
  IsTop s tools =
      All (λ (t : ToolSummary). floats.exceeds (score_tool floats u tokens t) s ≡ false) tools

  pub IsTop-matches_of :
      (s : F) (tools : List ToolSummary)
      → IsOrder floats
      → floats.exceeds floats.origin s ≡ false
      → AtMost floats s (matches_of floats u tokens tools)
      → IsTop s tools
  unfolding matches_of
  IsTop-matches_of s [] order p = λ h. tt
  IsTop-matches_of s (t ∷ ts) order p =
      elim (Bool-cases (floats.exceeds (score_tool floats u tokens t) floats.origin)) [
        | inl above ↦ rw above (λ h. (h.0, IsTop-matches_of s ts order p h.1))
        | inr below ↦ rw below (λ h. (
          order.cotrans (score_tool floats u tokens t) floats.origin s below p,
          IsTop-matches_of s ts order p h,
        ))
      ]

  pub irreflexive : (s : F) → IsOrder floats → floats.exceeds s s ≡ false
  irreflexive s order = elim (Bool-cases (floats.exceeds s s)) [
    | inl above ↦ order.asym s s above
    | inr below ↦ below
  ]

  -- the first of the sorted matches
  pub first-IsTop :
      (tools : List ToolSummary) (sorted : List (ToolMatch F)) (best : ToolMatch F)
      (rest : List (ToolMatch F))
      → IsOrder floats
      → sort_matches floats (matches_of floats u tokens tools) ≡ sorted
      → sorted ≡ best ∷ rest
      → (best.score ≡ score_tool floats u tokens best.tool) × IsTop best.score tools
  first-IsTop tools sorted best rest order s e =
      let xs = matches_of floats u tokens tools in
      let scored : All Scored (best ∷ rest) =
        subst (All Scored) (s ∙ e) (All-sort_matches floats Scored xs (Scored-matches_of tools)) in
      let falls : Falling floats (best ∷ rest) =
        subst (Falling floats) (s ∙ e) (Falling-sort_matches floats xs order) in
      (
        scored.0.0,
        IsTop-matches_of best.score tools order (order.asym best.score floats.origin scored.0.1) (
            sort_matches-All floats (λ m. floats.exceeds m.score best.score ≡ false) xs
              (subst (AtMost floats best.score) (sym (s ∙ e))
                (irreflexive best.score order, falls.0))),
      )

  accepted :
      (threshold : F) (x best : ToolMatch F) (e : BrokerError)
      → (if floats.exceeds threshold x.score then Result.err e else ok x) ≡ ok best
      → (x ≡ best) × (floats.exceeds threshold best.score ≡ false)
  accepted threshold x best e = elim (Bool-cases (floats.exceeds threshold x.score)) [
    | inl above ↦ rw above (λ h. absurd cc)
    | inr below ↦ rw below (λ h.
        let e : x ≡ best = cc in
        (e, subst (λ (b : ToolMatch F). floats.exceeds threshold b.score ≡ false) e below))
  ]

  -- What `Match` makes of the sorted matches with the limit 1.
  best_of_lem :
      (threshold : F) (intent : String) (sorted : List (ToolMatch F)) (best : ToolMatch F)
      → best_of floats threshold intent (limited floats 1 sorted) ≡ ok best
      → (rest : List (ToolMatch F)) × (sorted ≡ best ∷ rest)
        × (floats.exceeds threshold best.score ≡ false)
  best_of_lem threshold intent [] best = λ h. cc
  best_of_lem threshold intent (x ∷ []) best = λ h.
      let r = accepted threshold x best (below_threshold x.tool.name) h in
      ([], ap (λ (b : ToolMatch F). b ∷ []) r.0, r.1)
  best_of_lem threshold intent (x ∷ y ∷ ys) best =
      let longer : ltb 1 (suc (suc (length ys))) ≡ true = ground arith in
      rw longer (λ h.
        let r = accepted threshold x best (below_threshold x.tool.name) h in
        (y ∷ ys, ap (λ (b : ToolMatch F). b ∷ y ∷ ys) r.0, r.1))

-- If the order of the scores is that of float64 values that are not NaN and `Match` returns a match,
-- then the match has the score of its tool, the score is not below the threshold, and no tool has a
-- higher one.
pub match_intent-IsTop :
    {F : Type 0} (floats : Floats F) (u : Unicode) (threshold : F) (tools : List ToolSummary)
    (intent : String) (best : ToolMatch F)
    → IsOrder floats
    → match_intent floats u threshold tools intent ≡ ok best
    → let tokens = remove_stop_words (tokenize u intent) in
      (best.score ≡ score_tool floats u tokens best.tool)
      × (floats.exceeds threshold best.score ≡ false)
      × IsTop floats u tokens best.score tools
unfolding match_intent match_all
match_intent-IsTop floats u threshold tools intent best order =
    let tokens = remove_stop_words (tokenize u intent) in
    let sorted = sort_matches floats (matches_of floats u tokens tools) in
    elim (Bool-cases (is_empty tokens)) [
      | inl e ↦ rw e (λ h. cc)
      | inr n ↦ rw n (λ h.
          let found = best_of_lem floats u tokens threshold intent sorted best h in
          let top = first-IsTop floats u tokens tools sorted best found.0 order refl found.1 in
          (top.0, found.2, top.1))
    ]

-- A property of the tools is one of the match's tool.
pub match_intent-All :
    {F : Type 0} (floats : Floats F) (u : Unicode) (threshold : F) (tools : List ToolSummary)
    (intent : String) (best : ToolMatch F) (P : ToolSummary → Type 0)
    → match_intent floats u threshold tools intent ≡ ok best
    → All P tools
    → P best.tool
unfolding match_intent match_all
match_intent-All {F = F} floats u threshold tools intent best P =
    let tokens = remove_stop_words (tokenize u intent) in
    let matches = matches_of floats u tokens tools in
    let sorted = sort_matches floats matches in
    elim (Bool-cases (is_empty tokens)) [
      | inl e ↦ rw e (λ h. absurd cc)
      | inr n ↦ rw n (λ h all.
          let (rest, first, above) = best_of_lem floats u tokens threshold intent sorted best h in
          let kept : All (λ (m : ToolMatch F). P m.tool) (best ∷ rest) =
            subst (All (λ (m : ToolMatch F). P m.tool)) first (
              All-sort_matches floats (λ m. P m.tool) matches
                (All-matches_of floats u tokens P tools all)) in
          kept.0)
    ]
