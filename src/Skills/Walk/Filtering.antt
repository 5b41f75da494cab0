-- ===== src/Skills/Walk/Filtering.antt =====
-- To which roles `BuildSkills` shows a skill.
use neuralgentics_broker.Prelude.{
  ℕ, String, ◌≡◌, refl, sym, ap, ◌∙◌, inl, inr, Bool, true, false, not, ◌&&◌, ◌||◌, Option, none,
  some, List, [], ◌∷◌, arith, ◌==◌, eq_iff, eq_refl, Bool-cases, Option-cases, is_empty, keep_if,
  All, elem, elem-keep_if, Dict,
}
use neuralgentics_broker.Skills.{SkillSummary, ScopeFile, DirEntry, Value, load_scope}
use neuralgentics_broker.Skills.Tags.{
  is_positive, yaml_tags, is_named, tag_intersection, merged_tags, merge_tags, parse_skill_tags,
}
use neuralgentics_broker.Skills.Tags.Merging.{verdict, keeps_one, elem-merged_tags}
use neuralgentics_broker.Skills.Local.{
  Builder, Files, is_hidden, filtered_out, collect, local_skill, local_file, walk_local_skills,
  collect_all, entries_or_nil,
}
use neuralgentics_broker.Skills.External.{
  take_skill, take_skills, walk_external_skills, Taken, repo_skills,
}
use neuralgentics_broker.Skills.Walk.{skills_in, build_skills}

any : (String → Bool) → List String → Bool
any p [] = false
any p (t ∷ ts) = p t || any p ts

any-elem :
    (p : String → Bool) (x : String) (ts : List String)
    → elem x ts ≡ true
    → p x ≡ true
    → any p ts ≡ true
unfolding any
any-elem p x [] e h = cc
any-elem p x (t ∷ ts) e h = ground (arith, eq_iff t x, any-elem p x ts)

elem-any :
    (p : String → Bool) (ts : List String)
    → any p ts ≡ true
    → (x : String) × (elem x ts ≡ true) × (p x ≡ true)
unfolding any
elem-any p [] h = absurd (cc)
elem-any p (t ∷ ts) h = elim (Bool-cases (p t)) [
  | inl e ↦ (t, ground (arith, eq_iff t t), e)
  | inr n ↦ let (x, inside, q) = elem-any p ts (ground arith) in (x, ground arith, q)
]

is_empty-elem : (x : String) (xs : List String) → elem x xs ≡ true → is_empty xs ≡ false
is_empty-elem x [] h = cc
is_empty-elem x (y ∷ ys) h = refl

-- an element of a filtered list
first-keep_if :
    (p : String → Bool) (xs : List String)
    → is_empty (keep_if p xs) ≡ false
    → (x : String) × (elem x (keep_if p xs) ≡ true)
first-keep_if p xs = first (keep_if p xs)
  where
    first : (ys : List String) → is_empty ys ≡ false → (x : String) × (elem x ys ≡ true)
    first [] h = cc
    first (y ∷ ys) h = (y, ground (arith, eq_iff y y))

is_empty-tag_intersection :
    (a b : List String) → is_empty (tag_intersection a b) ≡ not (any (λ t. elem t a) b)
unfolding tag_intersection
is_empty-tag_intersection a b = elim (Bool-cases (any (λ t. elem t a) b)) [
  | inl some_in ↦
      let (x, in_b, in_a) = elem-any (λ t. elem t a) b some_in in
      is_empty-elem x (keep_if (λ t. elem t b) a)
        (elem-keep_if x (λ t. elem t b) a ∙ rw (in_b, in_a) refl)
      ∙ rw some_in refl
  | inr none_in ↦ elim (Bool-cases (is_empty (keep_if (λ t. elem t b) a))) [
    | inl e ↦ rw (none_in, e) refl
    | inr e ↦
        let (x, kept) = first-keep_if (λ t. elem t b) a e in
        let both : (elem x b && elem x a) ≡ true = sym (elem-keep_if x (λ t. elem t b) a) ∙ kept in
        ground (arith, any-elem (λ t. elem t a) x b)
  ]
]

All-self : (ts : List String) → All (λ (t : String). elem t ts ≡ true) ts
All-self ts = All-tail ts ts (λ x h. h)
  where
    All-tail :
        (ts us : List String)
        → ((x : String) → elem x us ≡ true → elem x ts ≡ true)
        → All (λ (t : String). elem t ts ≡ true) us
    All-tail ts [] k = tt
    All-tail ts (u ∷ us) k =
        (k u (ground (arith, eq_refl u)), All-tail ts us (λ x h. k x (ground arith)))

any-keeps_one :
    (fm_tags ts us : List String)
    → All (λ (t : String). elem t ts ≡ true) us
    → any (λ t. elem t (merged_tags fm_tags (some ts))) us ≡ keeps_one fm_tags us
unfolding any
any-keeps_one fm_tags ts [] h = refl
any-keeps_one fm_tags ts (u ∷ us) h =
    let e = elem-merged_tags fm_tags (some ts) u ∙ ap (λ (b : Bool). verdict b fm_tags u) h.0 in
    rw (e, any-keeps_one fm_tags ts us h.1) refl

-- whether a skill with these tags of its own is for a role with these tags in the scope file
abbrev pub is_for : List String → Option (List String) → Bool
is_for fm_tags none = false
is_for fm_tags (some ts) = is_empty fm_tags || keeps_one fm_tags ts

-- A scope file with a positive version and a role shows a named role a skill exactly if the file
-- lists the role, and the skill has no tags of its own or at least one of the role's tags is left
-- after them.
filtered_out-merge_tags :
    (fm_tags : List String) (role : String) (scope : ScopeFile)
    → is_named role ≡ true
    → is_positive scope.version ≡ true
    → is_empty scope.roles ≡ false
    → filtered_out role scope (merge_tags fm_tags role scope).1
      ≡ not (is_for fm_tags (yaml_tags scope role))
unfolding filtered_out merge_tags
filtered_out-merge_tags [] role scope n v r = elim (Option-cases (yaml_tags scope role)) [
  | inl absent ↦ rw (n, v, r, absent) refl
  | inr (ts, there) ↦ rw (n, v, r, there) refl
]
filtered_out-merge_tags (tag ∷ tags) role scope n v r = elim (Option-cases (yaml_tags scope role)) [
  | inl absent ↦ rw (n, v, r, absent) refl
  | inr (ts, there) ↦
      let kept =
        is_empty-tag_intersection (merged_tags (tag ∷ tags) (some ts)) ts
        ∙ ap not (any-keeps_one (tag ∷ tags) ts ts (All-self ts)) in
      elim (Bool-cases (keeps_one (tag ∷ tags) ts)) [
        | inl some_left ↦ rw (there, kept, some_left) (rw (n, v, r) refl)
        | inr none_left ↦ rw (there, kept, none_left) (rw (n, v, r) refl)
      ]
]

-- A scope file without a positive version and without roles, which an empty file is, hides every
-- skill from every named role.
filtered_out-empty_scope :
    (fm_tags : List String) (role : String) (scope : ScopeFile)
    → is_named role ≡ true
    → is_positive scope.version ≡ false
    → scope.roles ≡ []
    → filtered_out role scope (merge_tags fm_tags role scope).1 ≡ true
unfolding filtered_out merge_tags
filtered_out-empty_scope [] role scope n v r = rw (n, v, r) refl
filtered_out-empty_scope (tag ∷ tags) role scope n v r = rw (n, v, r) refl

-- what a builder takes of the local skills and the external ones, where every skill is filtered out
collect-none {ℓ κ} :
    {A : Type ℓ} {B : Type κ} (f : A → Option B) (xs : List A)
    → ((x : A) → f x ≡ none)
    → collect f xs ≡ []
unfolding collect
collect-none f [] h = refl
collect-none f (x ∷ xs) h = rw (h x, collect) (collect-none f xs h)

module _ (role : String) (scope : ScopeFile)
    (hides : (tags : List String)
      → filtered_out role scope (merge_tags tags role scope).1 ≡ true) where
  local_file-hidden :
      (f : Files) (root dir path : String) (size : Option ℕ) (file : Option (List ℕ × Dict Value))
      → local_file f root role scope dir path size file ≡ none
  local_file-hidden f root dir path none file = refl
  local_file-hidden f root dir path (some size) none = refl
  local_file-hidden f root dir path (some size) (some (bs, fm)) =
      rw (hides (parse_skill_tags f.1 fm)) refl

  local_skill-hidden :
      (f : Files) (root skills_dir : String) (e : DirEntry)
      → local_skill f root role scope skills_dir e ≡ none
  unfolding local_skill
  local_skill-hidden f root skills_dir e = elim (Bool-cases (not e.is_dir || is_hidden e.name)) [
    | inl skipped ↦ rw (skipped, local_skill) refl
    | inr looked_at ↦ rw (looked_at, local_skill) (local_file-hidden f root e.name _ _ _)
  ]

  take_skill-hidden : (acc : Taken) (s : SkillSummary) → take_skill role scope acc s ≡ acc
  unfolding take_skill
  take_skill-hidden (seen, skills) s = elim (Bool-cases (elem s.name seen)) [
    | inl e ↦ rw e refl
    | inr n ↦ rw (n, hides s.tags) refl
  ]

  take_skills-hidden : (acc : Taken) (ss : List SkillSummary) → take_skills role scope acc ss ≡ acc
  unfolding take_skills
  take_skills-hidden acc [] = refl
  take_skills-hidden acc (s ∷ ss) =
      let same : take_skill role scope acc s ≡ acc = take_skill-hidden acc s in
      rw same (take_skills-hidden acc ss)

  walk_local_skills-hidden : (f : Files) (root : String) → walk_local_skills f root role scope ≡ []
  unfolding walk_local_skills
  walk_local_skills-hidden f root =
      let dir = f.0.join (f.0.join root ".opencode") "skills" in
      collect-none (local_skill f root role scope dir) (entries_or_nil (f.0.read_dir dir))
        (local_skill-hidden f root dir)

  walk_external_skills-hidden :
      (f : Files) (b : Builder) (seen : List String) → walk_external_skills f b role scope seen ≡ []
  unfolding walk_external_skills
  walk_external_skills-hidden f b seen =
      ap (λ (t : Taken). t.1)
        (take_skills-hidden (seen, []) (collect_all (repo_skills f b) b.manifest))

  skills_in-hidden : (f : Files) (b : Builder) (root : String) → skills_in f b role scope root ≡ []
  skills_in-hidden f b root =
      rw (walk_local_skills-hidden f root, walk_external_skills-hidden f b [])
        (elim (Bool-cases (b.external_dir == "")) [ inl e ↦ rw e refl | inr n ↦ rw n refl ])

-- If the workspace's scope file has no positive version and no roles, `BuildSkills` gives a named role
-- no skill at all, local or external.
build_skills-empty_scope :
    (f : Files) (b : Builder) (role root : String) (scope : ScopeFile)
    → is_named role ≡ true
    → load_scope f.0 root ≡ some scope
    → is_positive scope.version ≡ false
    → scope.roles ≡ []
    → ((build_skills f b role root).skills ≡ []) × ((build_skills f b role root).total_skills ≡ 0)
unfolding build_skills
build_skills-empty_scope f b role root scope n l v r =
    let hides = λ (tags : List String). filtered_out-empty_scope tags role scope n v r in
    let nothing : skills_in f b role scope root ≡ [] = skills_in-hidden role scope hides f b root in
    rw (l, nothing) (refl, refl)
