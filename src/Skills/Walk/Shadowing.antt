-- ===== src/Skills/Walk/Shadowing.antt =====
-- Which external skills `BuildSkills` adds to the local ones.
use neuralgentics_broker.Prelude.{
  String, ◌≡◌, refl, sym, ap, inl, inr, false, ◌&&◌, ◌||◌, List, [], ◌∷◌, ◌++◌, arith, ◌==◌, eq_iff,
  Bool-cases, elem, elem-append,
}
use mathlib.Core.List.{append-nil}
use neuralgentics_broker.Skills.{SkillSummary, ScopeFile, load_scope}
use neuralgentics_broker.Skills.Tags.{merge_tags}
use neuralgentics_broker.Skills.Local.{Builder, Files, filtered_out, walk_local_skills, collect_all}
use neuralgentics_broker.Skills.External.{
  take_skill, take_skills, walk_external_skills, Taken, repo_skills,
}
use neuralgentics_broker.Skills.Walk.{build_skills, names_of, scope_or_open}

abbrev pub Distinct : List String → Type 0
Distinct [] = Unit
Distinct (x ∷ xs) = (elem x xs ≡ false) × Distinct xs

Distinct-append :
    (xs : List String) (p : String) → Distinct xs → elem p xs ≡ false → Distinct (xs ++ p ∷ [])
Distinct-append [] p d n = (refl, tt)
Distinct-append (x ∷ xs) p d n =
    ground (arith, eq_iff p x, eq_iff x p, elem-append x xs (p ∷ []), Distinct-append xs p d.1)

names_of-append :
    (xs : List SkillSummary) (s : SkillSummary)
    → names_of (xs ++ s ∷ []) ≡ names_of xs ++ s.name ∷ []
names_of-append [] s = refl
names_of-append (x ∷ xs) s = ap (◌∷◌ x.name) (names_of-append xs s)

-- The names seen are those of the skills taken and those seen at the start, which are apart.
record IsFresh (start : List String) (acc : Taken) : Type 0 where
  covers : (n : String) → elem n acc.0 ≡ (elem n (names_of acc.1) || elem n start)
  distinct : Distinct (names_of acc.1)
  apart : (n : String) → (elem n start && elem n (names_of acc.1)) ≡ false

module _ (start : List String) (role : String) (scope : ScopeFile) where
  taken-IsFresh :
      (seen : List String) (skills : List SkillSummary) (s : SkillSummary)
      → elem s.name seen ≡ false
      → IsFresh start (seen, skills)
      → IsFresh start (s.name ∷ seen, skills ++ s ∷ [])
  taken-IsFresh seen skills s n h = record {
    covers = λ m.
        rw (names_of-append skills s)
          (ground (arith, h.covers m, elem-append m (names_of skills) (s.name ∷ [])));
    distinct =
        rw (names_of-append skills s)
          (Distinct-append (names_of skills) s.name h.distinct (ground (arith, h.covers s.name)));
    apart = λ m. rw (names_of-append skills s) (
        ground (
          arith,
          h.apart m,
          h.covers m,
          eq_iff s.name m,
          elem-append m (names_of skills) (s.name ∷ []),
        ));
  }

  take_skill-IsFresh :
      (acc : Taken) (s : SkillSummary)
      → IsFresh start acc
      → IsFresh start (take_skill role scope acc s)
  unfolding take_skill
  take_skill-IsFresh (seen, skills) s h = elim (Bool-cases (elem s.name seen)) [
    | inl e ↦ rw e h
    | inr n ↦ elim (Bool-cases (filtered_out role scope (merge_tags s.tags role scope).1)) [
      | inl out ↦ rw (n, out) h
      | inr shown ↦ rw (n, shown) (taken-IsFresh seen skills _ n h)
    ]
  ]

  take_skills-IsFresh :
      (acc : Taken) (ss : List SkillSummary)
      → IsFresh start acc
      → IsFresh start (take_skills role scope acc ss)
  unfolding take_skills
  take_skills-IsFresh acc [] h = h
  take_skills-IsFresh acc (s ∷ ss) h =
      take_skills-IsFresh (take_skill role scope acc s) ss (take_skill-IsFresh acc s h)

-- The external skills that `BuildSkills` lists for a role have each a name of its own, and none has the name
-- of a local skill that is listed for the role. They stand behind those local ones, which are as the walk
-- found them.
pub build_skills-Distinct :
    (f : Files) (b : Builder) (role root : String)
    → let local = walk_local_skills f root role (scope_or_open (load_scope f.0 root)) in
      (external : List SkillSummary) × ((build_skills f b role root).skills ≡ local ++ external)
      × Distinct (names_of external)
      × ((n : String) → (elem n (names_of local) && elem n (names_of external)) ≡ false)
unfolding build_skills walk_external_skills
build_skills-Distinct f b role root =
    let scope = scope_or_open (load_scope f.0 root) in
    let local = walk_local_skills f root role scope in
    let start : IsFresh (names_of local) (names_of local, []) = record {
      covers = λ n. refl;
      distinct = tt;
      apart = λ n. ground arith;
    } in
    elim (Bool-cases (b.external_dir == "")) [
      | inl none_set ↦ rw none_set ([], sym (append-nil local), tt, λ n. ground arith)
      | inr set ↦
          let acc =
            take_skills role scope (names_of local, [])
              (collect_all (repo_skills f b) b.manifest) in
          let h =
            take_skills-IsFresh (names_of local) role scope (names_of local, [])
              (collect_all (repo_skills f b) b.manifest) start in
          rw set (acc.1, refl, h.distinct, h.apart)
    ]
