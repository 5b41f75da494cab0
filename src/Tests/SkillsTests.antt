-- ===== src/Tests/SkillsTests.antt =====
-- The skills catalog at concrete inputs.
use neuralgentics_broker.Prelude.{
  ℕ, String, ◌≡◌, refl, true, false, ◌&&◌, none, some, List, [], ◌∷◌, ◌++◌, ◌==◌, eqb,
  if◌then◌else◌, ok, length, elem, Dict, index,
}
use neuralgentics_broker.Prelude.Int.{pos}
use neuralgentics_broker.Skills.{
  SkillSummary, ScopeFile, Value, scalar, holds, Workspace, load_scope,
}
use neuralgentics_broker.Skills.FrontMatter.{dashes, newline, closing, parse_skill_front_matter}
use neuralgentics_broker.Skills.FrontMatter.Written.{parse_skill_front_matter-written}
use neuralgentics_broker.Skills.Local.{Builder, Files, walk_local_skills}
use neuralgentics_broker.Skills.Walk.{build_skills, scope_or_open, names_of}
use neuralgentics_broker.Skills.Walk.Shadowing.{Distinct, build_skills-Distinct}

abbrev fields : Dict Value
fields = ("name", scalar "review") ∷ ("tags", scalar "code") ∷ []

abbrev skill_file : List ℕ
skill_file = dashes ++ (newline ++ (b'y' ∷ [] ++ (closing ++ (newline ++ b'x' ∷ []))))

-- a file with two bytes of front matter
abbrev plan_file : List ℕ
plan_file = dashes ++ (newline ++ (b'y' ∷ b'z' ∷ [] ++ (closing ++ (newline ++ b'x' ∷ []))))

abbrev scope : ScopeFile
scope = record { version = pos 1; roles = ("coder", some ("go" ∷ "rust" ∷ [])) ∷ [] }

abbrev named : String → Dict Value
named name = ("name", scalar name) ∷ ("tags", scalar "code") ∷ []

-- One local skill, and two in an external repository, one of them with the name of the local one. The scope
-- file gives the coder a list.
abbrev disk : Workspace
disk = record {
  read_dir = λ dir.
      if dir == "research"
      then some (record { name = "01-review"; is_dir = true } ∷ [])
      else if dir == "01-review"
      then some
          (record { name = "plan"; is_dir = true } ∷ record { name = "review"; is_dir = true } ∷ [])
      else some (record { name = "review"; is_dir = true } ∷ []);
  stat = λ path. some 1;
  read_file = λ path.
      if path == "scope"
      then holds []
      else if path == "plan"
      then holds plan_file
      else holds skill_file;
  join = λ dir name.
      if name == "agent-skill-scope.yaml"
      then "scope"
      else if name == "SKILL.md"
      then dir
      else name;
  parent_name = λ path. path;
  rel = λ root path. some path;
  yaml = λ bs. if eqb (length bs) 2 then some (named "plan") else some fields;
  yaml_scope = λ bs. some scope;
  json_manifest = λ bs. none;
}

abbrev builder : Builder
builder = record {
  workspace_root = "/w";
  external_dir = "/e";
  manifest =
      ("research", record { repo = "research"; commit_sha = ""; license = ""; attribution = "" })
      ∷ [];
}

abbrev files : Files
files = (disk, λ s. s)

parse_skill_front_matter-written_example :
    parse_skill_front_matter disk skill_file ≡ ok (fields, b'x' ∷ [])
unfolding index
parse_skill_front_matter-written_example =
    parse_skill_front_matter-written disk (b'y' ∷ []) (b'x' ∷ []) fields refl refl

build_skills-Distinct_example :
    let local = walk_local_skills files "/w" "coder" (scope_or_open (load_scope disk "/w")) in
    (external : List SkillSummary) × ((build_skills files builder "coder" "/w").skills
      ≡ local ++ external)
    × Distinct (names_of external)
    × ((n : String) → (elem n (names_of local) && elem n (names_of external)) ≡ false)
build_skills-Distinct_example = build_skills-Distinct files builder "coder" "/w"

-- the catalog of the example: the local skill, and the external one that is not named like it
names_of-build_skills :
    names_of (build_skills files builder "coder" "/w").skills ≡ "review" ∷ "plan" ∷ []
unfolding build_skills
names_of-build_skills = refl

names_of-walk_local_skills :
    names_of (walk_local_skills files "/w" "coder" (scope_or_open (load_scope disk "/w")))
    ≡ "review" ∷ []
unfolding walk_local_skills load_scope
names_of-walk_local_skills = refl
