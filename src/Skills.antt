-- ===== src/Skills.antt =====
-- catalog/skills.go: the skills that a role is shown, from SKILL.md files in the workspace and in the
-- checkouts of external repositories. The file system, the paths, and the parsers of YAML and JSON
-- are arguments. A file's content is its bytes. Warnings on standard error are left out.
pub mod FrontMatter
pub mod Tags
pub mod Local
pub mod External
pub mod Walk
use neuralgentics_broker.Prelude.{
  ℕ, zero, suc, ◌+◌, ◌-◌, ◌*◌, ◌/◌, ◌%◌, ◌^◌, ◌≤◌, ◌<◌, String, ◌≡◌, refl, sym, ap, ◌∙◌, ◌≢◌, ◌↔◌,
  ◌⊎◌, inl, inr, Bool, true, false, not, ◌&&◌, ◌||◌, Option, none, some, List, [], ◌∷◌, ◌++◌, map,
  reverse, arith, ◌==◌, eq_iff, eq_refl, ltb, leb, eqb, if◌then◌else◌, Bool-cases, Option-cases,
  is_some, Result, is_ok, ok, err, length, is_empty, keep_if, take, All, length-append,
  length-keep_if, All-keep_if, elem, elem-append, elem-keep_if, Dict, get, put, delete, keys,
  has_key, IsMap, get-put, get-delete, has_key-get, has_key-put, has_key-delete, put-IsMap,
  delete-IsMap, dict_laws, text_le, text_le_total, sort_strings, IsSorted, sort_strings-IsSorted,
  elem-sort_strings, encode, bytes, later, last_index, last_index-lt, eq_bytes, drop, starts_with,
  contains, has_suffix, one_more, index,
}
use neuralgentics_broker.Prelude.Int.{ℤ, pos, negsuc}

pub record ExternalProvenance : Type 0 where
  pub repo : String
  pub commit_sha : String
  pub license : String
  pub attribution : String

pub record SkillSummary : Type 0 where
  pub name : String
  pub description : String
  pub source : String
  pub tags : List String
  pub path : String
  pub size_bytes : ℕ
  pub agent_scope : List String
  pub external_provenance : Option ExternalProvenance

pub record SkillCatalog : Type 0 where
  pub skills : List SkillSummary
  pub total_skills : ℕ
  pub role : String
  pub source : String

-- A role's list of tags may be nil, `none`, which a missing role has too.
pub record ScopeFile : Type 0 where
  pub version : ℤ
  pub roles : Dict (Option (List String))

-- the fields of a manifest's repository that are used
pub record ExternalRepoState : Type 0 where
  pub commit_sha : String
  pub license : String
  pub attribution : String

-- A value of a front matter, as far as the code tells them apart: a text, a list whose items are
-- texts or not, or anything else.
pub data Item : Type 0 where
  text : String → Item
  other_item : Item

pub data Value : Type 0 where
  scalar : String → Value
  items : List Item → Value
  other_value : Value

pub record DirEntry : Type 0 where
  pub name : String
  pub is_dir : Bool

-- `os.ReadFile`
pub data Content : Type 0 where
  missing unreadable : Content
  holds : List ℕ → Content

-- The file system during one call, `filepath`, and the parsers; `yaml` gives a nil map as an empty one.
pub record Workspace : Type 0 where
  pub read_dir : String → Option (List DirEntry)
  pub stat : String → Option ℕ
  pub read_file : String → Content
  pub join : String → String → String
  pub parent_name : String → String
  pub rel : String → String → Option String
  pub yaml : List ℕ → Option (Dict Value)
  pub yaml_scope : List ℕ → Option ScopeFile
  pub json_manifest : List ℕ → Option (Dict ExternalRepoState)

-- `loadExternalManifest`
abbrev pub provenances : Dict ExternalRepoState → Dict ExternalProvenance
provenances [] = []
provenances ((name, state) ∷ m) =
    (
      name,
      record {
        repo = name;
        commit_sha = state.commit_sha;
        license = state.license;
        attribution = state.attribution;
      },
    )
    ∷ provenances m

abbrev pub manifest_of : Option (Dict ExternalRepoState) → Dict ExternalProvenance
manifest_of none = []
manifest_of (some repos) = provenances repos

abbrev pub manifest_in : Workspace → Content → Dict ExternalProvenance
manifest_in w (holds bs) = manifest_of (w.json_manifest bs)
manifest_in w missing = []
manifest_in w unreadable = []

unfoldable pub load_external_manifest : Workspace → String → Dict ExternalProvenance
load_external_manifest w dir =
    if dir == "" then [] else manifest_in w (w.read_file (w.join dir "MANIFEST.json"))

-- the scope that allows all
abbrev pub open_scope : ScopeFile
open_scope = record { version = pos 1; roles = [] }

-- `LoadScope`; `none` is its error
abbrev pub scope_in : Workspace → Content → Option ScopeFile
scope_in w (holds bs) = w.yaml_scope bs
scope_in w missing = some open_scope
scope_in w unreadable = none

unfoldable pub load_scope : Workspace → String → Option ScopeFile
load_scope w dir = scope_in w (w.read_file (w.join dir "agent-skill-scope.yaml"))

-- what a value of `any` gives where a text is asked for
abbrev pub text_of : Option Value → String
text_of (some (scalar s)) = s
text_of (some (items xs)) = ""
text_of (some other_value) = ""
text_of none = ""

abbrev pub or_else : String → String → String
or_else s fallback = if s == "" then fallback else s
