-- ===== src/Skills/Walk.antt =====
-- `BuildSkills` of catalog/skills.go.
pub mod Shadowing
pub mod Filtering
use neuralgentics_broker.Prelude.{
  ℕ, zero, suc, ◌+◌, ◌-◌, ◌*◌, ◌/◌, ◌%◌, ◌^◌, ◌≤◌, ◌<◌, String, ◌≡◌, refl, sym, ap, ◌∙◌, ◌≢◌, ◌↔◌,
  ◌⊎◌, inl, inr, Bool, true, false, not, ◌&&◌, ◌||◌, Option, none, some, List, [], ◌∷◌, ◌++◌, map,
  reverse, arith, ◌==◌, eq_iff, eq_refl, ltb, leb, eqb, if◌then◌else◌, Bool-cases, Option-cases,
  is_some, Result, is_ok, ok, err, length, is_empty, keep_if, take, All, length-append,
  length-keep_if, All-keep_if, elem, elem-append, elem-keep_if, Dict, get, put, delete, keys,
  has_key, IsMap, get-put, get-delete, has_key-get, has_key-put, has_key-delete, put-IsMap,
  delete-IsMap, dict_laws, text_le, text_le_total, sort_strings, IsSorted, sort_strings-IsSorted,
  elem-sort_strings, encode, bytes, later, last_index, last_index-lt, eq_bytes, drop, starts_with,
  contains, has_suffix, one_more, index,
}
use Prim.Native.Char.{Char, code}
use neuralgentics_broker.Prelude.Int.{ℤ, pos, negsuc}
use neuralgentics_broker.Skills.{
  ExternalProvenance, SkillSummary, SkillCatalog, ScopeFile, Value, DirEntry, Content, missing,
  unreadable, holds, Workspace, load_scope, open_scope, text_of, or_else,
}
use neuralgentics_broker.Skills.FrontMatter.{Parsed, parse_skill_front_matter}
use neuralgentics_broker.Skills.Tags.{parse_skill_tags, merge_tags, is_positive, is_named}
use neuralgentics_broker.Skills.Local.{
  Builder, Files, collect, collect_all, front_matter_of, bytes_in, parsed_file, read_skill, or_path,
  no_scope_filter, filtered_out, local_summary, is_hidden, local_file, local_skill, entries_or_nil,
  walk_local_skills,
}
use neuralgentics_broker.Skills.External.{
  is_outside, text_or_empty, external_summary, leaf_file, leaf_skill, is_digit, after_digits,
  is_category, category_skills, categories, walk_ai_research_skills, walk_uiux_pro_max_skill,
  repo_skills, Taken, take_skill, take_skills, walk_external_skills,
}

abbrev pub names_of : List SkillSummary → List String
names_of [] = []
names_of (s ∷ ss) = s.name ∷ names_of ss

abbrev pub scope_or_open : Option ScopeFile → ScopeFile
scope_or_open none = open_scope
scope_or_open (some scope) = scope

-- `BuildSkills`; a builder with an external directory has a manifest, which may be empty
abbrev pub skills_in : Files → Builder → String → ScopeFile → String → List SkillSummary
skills_in f b role scope root =
    let local = walk_local_skills f root role scope in
    if b.external_dir == ""
    then local
    else local ++ walk_external_skills f b role scope (names_of local)

unfoldable pub build_skills : Files → Builder → String → String → SkillCatalog
unfolding load_scope walk_local_skills walk_external_skills
build_skills f b role root =
    let skills = skills_in f b role (scope_or_open (load_scope f.0 root)) root in
    record { skills = skills; total_skills = length skills; role = role; source = "workspace" }
