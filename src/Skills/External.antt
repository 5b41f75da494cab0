-- ===== src/Skills/External.antt =====
-- The walks over external repositories in catalog/skills.go.
use neuralgentics_broker.Prelude.{
  ℕ, String, Bool, true, false, not, ◌&&◌, ◌||◌, Option, none, some, List, [], ◌∷◌, ◌++◌, ◌==◌, leb,
  eqb, if◌then◌else◌, length, elem, Dict, get,
}
use Prim.Native.Char.{Char, code}
use neuralgentics_broker.Skills.{
  ExternalProvenance, SkillSummary, ScopeFile, Value, DirEntry, text_of, or_else,
}
use neuralgentics_broker.Skills.Tags.{parse_skill_tags, merge_tags}
use neuralgentics_broker.Skills.Local.{
  Builder, Files, collect, collect_all, read_skill, filtered_out, entries_or_nil,
}

-- `relPath == "" || strings.HasPrefix(relPath, "..")`
abbrev pub is_outside : String → Bool
is_outside String.[] = true
is_outside (String.◌∷◌ c String.[]) = false
is_outside (String.◌∷◌ c (String.◌∷◌ d s)) = eqb (code c) b'.' && eqb (code d) b'.'

abbrev pub text_or_empty : Option String → String
text_or_empty none = ""
text_or_empty (some s) = s

-- `parseExternalSkill`
abbrev pub external_summary :
    Files
    → String
    → String
    → ExternalProvenance
    → Option (List ℕ × Dict Value)
    → Option SkillSummary
external_summary f root path provenance none = none
external_summary (w, trim_space) root path provenance (some (bs, fm)) =
    let tags = parse_skill_tags trim_space fm in
    let rel = text_or_empty (w.rel root path) in
    some (record {
      name = or_else (text_of (get "name" fm)) (w.parent_name path);
      description = or_else (text_of (get "description" fm)) "No description";
      source = "external";
      tags = tags;
      path = if is_outside rel then path else rel;
      size_bytes = length bs;
      agent_scope = tags;
      external_provenance = some provenance;
    })

-- the body of the loop over the leaves of a directory, in both walks
abbrev pub leaf_file : Files → String → String → ExternalProvenance → Option ℕ → Option SkillSummary
leaf_file f root path provenance none = none
leaf_file f root path provenance (some size) =
    external_summary f root path provenance (read_skill f.0 path)

unfoldable pub leaf_skill :
    Files → String → ExternalProvenance → String → DirEntry → Option SkillSummary
unfolding read_skill parse_skill_tags
leaf_skill f root provenance dir leaf =
    if leaf.is_dir
    then (let path = f.0.join (f.0.join dir leaf.name) "SKILL.md" in
        leaf_file f root path provenance (f.0.stat path))
    else none

-- `^[0-9]+-`
abbrev pub is_digit : Char → Bool
is_digit c = leb b'0' (code c) && leb (code c) b'9'

unfoldable pub after_digits : String → Bool
after_digits String.[] = false
after_digits (String.◌∷◌ c s) =
    let rest = after_digits s in if is_digit c then rest else eqb (code c) b'-'

unfoldable pub is_category : String → Bool
unfolding after_digits
is_category String.[] = false
is_category (String.◌∷◌ c s) = is_digit c && after_digits s

-- one category of `walkAIResearchSkills`
unfoldable pub category_skills :
    Files → String → ExternalProvenance → String → DirEntry → List SkillSummary
unfolding is_category collect leaf_skill
category_skills f root provenance repo_dir e =
    if not e.is_dir || not (is_category e.name)
    then []
    else let dir = f.0.join repo_dir e.name in
      collect (leaf_skill f root provenance dir) (entries_or_nil (f.0.read_dir dir))

-- `walkAIResearchSkills`; `none` is its error
abbrev pub categories :
    Files
    → String
    → ExternalProvenance
    → String
    → Option (List DirEntry)
    → Option (List SkillSummary)
categories f root provenance repo_dir none = none
categories f root provenance repo_dir (some es) =
    some (collect_all (category_skills f root provenance repo_dir) es)

unfoldable pub walk_ai_research_skills :
    Files → String → ExternalProvenance → String → Option (List SkillSummary)
unfolding category_skills collect_all
walk_ai_research_skills f root provenance repo_dir =
    categories f root provenance repo_dir (f.0.read_dir repo_dir)

-- `walkUIUXProMaxSkill`
unfoldable pub walk_uiux_pro_max_skill :
    Files → String → ExternalProvenance → String → List SkillSummary
unfolding leaf_skill collect
walk_uiux_pro_max_skill f root provenance repo_dir =
    let dir = f.0.join (f.0.join repo_dir ".claude") "skills" in
    collect (leaf_skill f root provenance dir) (entries_or_nil (f.0.read_dir dir))

-- the skills of one repository that `walkExternalSkills` goes through
abbrev pub repo_skills : Files → Builder → String × ExternalProvenance → List SkillSummary
repo_skills f b (repo, provenance) =
    let dir = f.0.join b.external_dir repo in
    elim (f.0.stat dir) [
      | none ↦ []
      | some size ↦
          if repo == "ui-ux-pro-max-skill"
          then walk_uiux_pro_max_skill f b.workspace_root provenance dir
          else elim (walk_ai_research_skills f b.workspace_root provenance dir) [
            | none ↦ []
            | some skills ↦ skills
          ]
    ]

-- the loop over a repository's skills: the names seen, and the skills taken
abbrev pub Taken : Type 0
Taken = List String × List SkillSummary

unfoldable pub take_skill : String → ScopeFile → Taken → SkillSummary → Taken
unfolding merge_tags filtered_out
take_skill role scope (seen, skills) s =
    if elem s.name seen
    then (seen, skills)
    else let (tags, agent_scope) = merge_tags s.tags role scope in
      if filtered_out role scope agent_scope
      then (seen, skills)
      else (s.name ∷ seen, skills ++ record s { tags = tags; agent_scope = agent_scope } ∷ [])

unfoldable pub take_skills : String → ScopeFile → Taken → List SkillSummary → Taken
unfolding take_skill
take_skills role scope acc [] = acc
take_skills role scope acc (s ∷ ss) = take_skills role scope (take_skill role scope acc s) ss

-- `walkExternalSkills`, over the repositories in the order of the map
unfoldable pub walk_external_skills :
    Files → Builder → String → ScopeFile → List String → List SkillSummary
unfolding take_skills collect_all walk_ai_research_skills walk_uiux_pro_max_skill
walk_external_skills f b role scope seen =
    (take_skills role scope (seen, []) (collect_all (repo_skills f b) b.manifest)).1
