-- ===== src/Skills/Local.antt =====
-- The walk over the workspace's own skills in catalog/skills.go, and what both walks share.
use neuralgentics_broker.Prelude.{
  ℕ, String, Bool, false, not, ◌&&◌, ◌||◌, Option, none, some, List, [], ◌∷◌, ◌++◌, eqb,
  if◌then◌else◌, ok, err, is_empty, Dict, get,
}
use Prim.Native.Char.{code}
use neuralgentics_broker.Skills.{
  ExternalProvenance, SkillSummary, ScopeFile, Value, DirEntry, Content, missing, unreadable, holds,
  Workspace, text_of, or_else,
}
use neuralgentics_broker.Skills.FrontMatter.{Parsed, parse_skill_front_matter}
use neuralgentics_broker.Skills.Tags.{parse_skill_tags, merge_tags, is_positive, is_named}

-- `catalog.Builder`, as far as skills go
pub record Builder : Type 0 where
  pub workspace_root : String
  pub external_dir : String
  pub manifest : Dict ExternalProvenance

abbrev pub Files : Type 0
Files = Workspace × (String → String)

-- the loops that skip an element or add a summary
unfoldable pub collect {ℓ κ} : {A : Type ℓ} {B : Type κ} → (A → Option B) → List A → List B
collect f [] = []
collect f (x ∷ xs) = let rest = collect f xs in elim (f x) [ none ↦ rest | some y ↦ y ∷ rest ]

unfoldable pub collect_all {ℓ κ} : {A : Type ℓ} {B : Type κ} → (A → List B) → List A → List B
collect_all f [] = []
collect_all f (x ∷ xs) = f x ++ collect_all f xs

abbrev pub front_matter_of : Parsed → Option (Dict Value)
front_matter_of (ok (fm, body)) = some fm
front_matter_of (err e) = none

abbrev pub bytes_in : Content → Option (List ℕ)
bytes_in (holds bs) = some bs
bytes_in missing = none
bytes_in unreadable = none

-- a file's bytes with its front matter, unless it cannot be read or parsed
abbrev pub parsed_file : Workspace → Option (List ℕ) → Option (List ℕ × Dict Value)
parsed_file w none = none
parsed_file w (some bs) = elim (front_matter_of (parse_skill_front_matter w bs)) [
  | none ↦ none
  | some fm ↦ some (bs, fm)
]

unfoldable pub read_skill : Workspace → String → Option (List ℕ × Dict Value)
unfolding parse_skill_front_matter
read_skill w path = parsed_file w (bytes_in (w.read_file path))

abbrev pub or_path : String → Option String → String
or_path path none = path
or_path path (some rel) = rel

-- the role filter: whether a skill with this agent scope is left out
abbrev pub no_scope_filter : ScopeFile → Bool
no_scope_filter scope = is_positive scope.version && is_empty scope.roles

unfoldable pub filtered_out : String → ScopeFile → List String → Bool
filtered_out role scope agent_scope =
    is_named role && not (no_scope_filter scope) && is_empty agent_scope

-- the rest of the body of `walkLocalSkills`, from the file's size, bytes and front matter
abbrev pub local_summary :
    Files → String → String → ScopeFile → String → String → ℕ → Dict Value → Option SkillSummary
local_summary (w, trim_space) root role scope dir path size fm =
    let (tags, agent_scope) = merge_tags (parse_skill_tags trim_space fm) role scope in
    if filtered_out role scope agent_scope
    then none
    else some (record {
      name = or_else (text_of (get "name" fm)) dir;
      description = or_else (text_of (get "description" fm)) "No description";
      source = "local";
      tags = tags;
      path = or_path path (w.rel root path);
      size_bytes = size;
      agent_scope = agent_scope;
      external_provenance = none;
    })

abbrev pub is_hidden : String → Bool
is_hidden String.[] = false
is_hidden (String.◌∷◌ c s) = eqb (code c) b'.'

abbrev pub local_file :
    Files
    → String
    → String
    → ScopeFile
    → String
    → String
    → Option ℕ
    → Option (List ℕ × Dict Value)
    → Option SkillSummary
local_file f root role scope dir path none o = none
local_file f root role scope dir path (some size) none = none
local_file f root role scope dir path (some size) (some (bs, fm)) =
    local_summary f root role scope dir path size fm

-- the body of the loop of `walkLocalSkills`
unfoldable pub local_skill :
    Files → String → String → ScopeFile → String → DirEntry → Option SkillSummary
unfolding read_skill parse_skill_tags merge_tags filtered_out
local_skill f root role scope skills_dir e =
    if not e.is_dir || is_hidden e.name
    then none
    else let w = f.0 in
      let path = w.join (w.join skills_dir e.name) "SKILL.md" in
      local_file f root role scope e.name path (w.stat path) (read_skill w path)

abbrev pub entries_or_nil : Option (List DirEntry) → List DirEntry
entries_or_nil none = []
entries_or_nil (some es) = es

-- `walkLocalSkills`
unfoldable pub walk_local_skills : Files → String → String → ScopeFile → List SkillSummary
unfolding collect local_skill
walk_local_skills f root role scope =
    let skills_dir = f.0.join (f.0.join root ".opencode") "skills" in
    collect (local_skill f root role scope skills_dir) (entries_or_nil (f.0.read_dir skills_dir))
