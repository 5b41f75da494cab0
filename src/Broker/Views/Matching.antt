-- ===== src/Broker/Views/Matching.antt =====
-- What `MatchIntent` of broker.go returns to a role.
use neuralgentics_broker.Prelude.{
  String, ◌≡◌, refl, sym, ap, ◌⊎◌, inl, inr, Bool, true, false, ◌||◌, List, [], ◌∷◌, ◌==◌,
  if◌then◌else◌, ok, err, is_empty, keep_if, All, Listed, All-Listed, Listed-All, keep_if-Listed,
  All-keep_if_tested,
}
use mathlib.Core.Path.{subst}
use neuralgentics_broker.Errors.{Outcome}
use neuralgentics_broker.Types.{ToolSummary}
use neuralgentics_broker.Access.{can_access}
use neuralgentics_broker.Registry.{get_all_tools}
use neuralgentics_broker.Intent.{
  Unicode, Floats, ToolMatch, tokenize, remove_stop_words, score_tool, match_intent,
}
use neuralgentics_broker.Intent.Sorting.{IsOrder}
use neuralgentics_broker.Intent.Ranking.{match_intent-IsTop, match_intent-All}
use neuralgentics_broker.Intent.Refusals.{match_intent-IsBelow}
use neuralgentics_broker.Broker.{Broker}
use neuralgentics_broker.Broker.Calls.{candidates}
use neuralgentics_broker.Broker.Views.{match_among, match_for_role}

abbrev is_open : Broker → String → ToolSummary → Bool
is_open b role t = role == "" || can_access b.access role t.server

-- a tool that the broker lists and that is not kept from the role
abbrev pub IsOffered : Broker → String → ToolSummary → Type 0
IsOffered b role t = Listed t (get_all_tools b.registry) × (is_open b role t ≡ true)

keep_if-true : (ts : List ToolSummary) → keep_if (λ t. true) ts ≡ ts
keep_if-true [] = refl
keep_if-true (t ∷ ts) = ap (◌∷◌ t) (keep_if-true ts)

keep_if-or :
    (v : Bool) (p : ToolSummary → Bool) (ts : List ToolSummary)
    → (if v then ts else keep_if p ts) ≡ keep_if (λ t. v || p t) ts
keep_if-or true p ts = sym (keep_if-true ts)
keep_if-or false p ts = refl

candidates_lem :
    (b : Broker) (role : String)
    → candidates b role ≡ keep_if (is_open b role) (get_all_tools b.registry)
unfolding candidates
candidates_lem b role =
    keep_if-or (role == "") (λ t. can_access b.access role t.server) (get_all_tools b.registry)

candidates-IsOffered : (b : Broker) (role : String) → All (IsOffered b role) (candidates b role)
candidates-IsOffered b role =
    let tools = get_all_tools b.registry in
    subst (All (IsOffered b role)) (sym (candidates_lem b role))
      (All-keep_if_tested (λ t. Listed t tools) (is_open b role) tools (All-Listed tools))

IsOffered-candidates :
    (b : Broker) (role : String) (t : ToolSummary)
    → IsOffered b role t
    → Listed t (candidates b role)
IsOffered-candidates b role t (listed, allowed) =
    subst (Listed t) (sym (candidates_lem b role))
      (keep_if-Listed (is_open b role) t allowed listed)

module _ {F : Type 0} (floats : Floats F) (u : Unicode) (threshold : F) where
  -- What a result says: a match has an offered tool with its score, which reaches the threshold and which
  -- no offered tool exceeds; an error says that the intent has no words or no offered tool reaches it.
  abbrev pub Verdict : Broker → String → String → Outcome (ToolMatch F) → Type 0
  Verdict b role intent (ok best) =
      let tokens = remove_stop_words (tokenize u intent) in
      IsOffered b role best.tool
      × (best.score ≡ score_tool floats u tokens best.tool)
      × (floats.exceeds threshold best.score ≡ false)
      × ((t : ToolSummary)
          → IsOffered b role t
          → floats.exceeds (score_tool floats u tokens t) best.score ≡ false)
  Verdict b role intent (err e) =
      let tokens = remove_stop_words (tokenize u intent) in
      (is_empty tokens ≡ true)
      ⊎ ((t : ToolSummary)
          → IsOffered b role t
          → floats.exceeds threshold (score_tool floats u tokens t) ≡ true)

  match_intent-Verdict :
      (b : Broker) (role intent : String) (tools : List ToolSummary) (r : Outcome (ToolMatch F))
      → IsOrder floats
      → floats.exceeds threshold floats.origin ≡ true
      → candidates b role ≡ tools
      → match_intent floats u threshold tools intent ≡ r
      → Verdict b role intent r
  match_intent-Verdict b role intent tools (ok best) order positive c h =
      let top = match_intent-IsTop floats u threshold tools intent best order h in
      let offered : All (IsOffered b role) tools =
        subst (All (IsOffered b role)) c (candidates-IsOffered b role) in
      (
        match_intent-All floats u threshold tools intent best (IsOffered b role) h offered,
        top.0,
        top.1,
        λ t o. Listed-All _ t top.2 (subst (Listed t) c (IsOffered-candidates b role t o)),
      )
  match_intent-Verdict b role intent tools (err e) order positive c h =
      elim (match_intent-IsBelow floats u threshold tools intent e order positive h) [
        | inl empty ↦ inl empty
        | inr below ↦
            inr (λ t o. Listed-All _ t below (subst (Listed t) c (IsOffered-candidates b role t o)))
      ]

  match_among-Verdict :
      (b : Broker) (role intent : String) (tools : List ToolSummary)
      → IsOrder floats
      → floats.exceeds threshold floats.origin ≡ true
      → candidates b role ≡ tools
      → Verdict b role intent (match_among floats u threshold intent tools)
  match_among-Verdict b role intent [] order positive c = inr (λ t o.
      Listed-All
        (λ x.
          floats.exceeds threshold (score_tool floats u (remove_stop_words (tokenize u intent)) x)
          ≡ true)
        t {xs = []} tt (subst (Listed t) c (IsOffered-candidates b role t o)))
  match_among-Verdict b role intent (t ∷ ts) order positive c =
      match_intent-Verdict b role intent (t ∷ ts) _ order positive c refl

-- If the order of the scores is that of float64 values that are not NaN and the threshold is above zero:
-- `MatchIntent` returns to a role a tool that is listed and that the role may access, by the server that the
-- tool names, with its score, which reaches the threshold, and no such tool scores more; or it returns an
-- error, and the intent has no words or no such tool reaches the threshold.
pub match_for_role-Verdict :
    {F : Type 0} (floats : Floats F) (u : Unicode) (threshold : F) (b : Broker)
    (role intent : String)
    → IsOrder floats
    → floats.exceeds threshold floats.origin ≡ true
    → Verdict floats u threshold b role intent (match_for_role floats u threshold b role intent)
unfolding match_for_role
match_for_role-Verdict floats u threshold b role intent order positive =
    match_among-Verdict floats u threshold b role intent (candidates b role) order positive refl
