-- ===== src/Skills/Tags/Merging.antt =====
-- What `mergeTags` makes of a skill's tags, and to which roles the skill is shown.
use neuralgentics_broker.Prelude.{
  String, ◌≡◌, refl, sym, ap, ◌∙◌, Bool, true, false, not, ◌&&◌, ◌||◌, Option, List, [], ◌∷◌, arith,
  ◌==◌, eq_iff, if◌then◌else◌, elem, elem-append, elem-keep_if,
}
use neuralgentics_broker.Skills.{ScopeFile}
use neuralgentics_broker.Skills.Tags.{
  Modifier, adds, removes, modifier_of, without, apply_modifier, merge_loop, yaml_tags, or_nil,
  merged_tags, merge_tags,
}

-- whether a tag is there after a modifier, and after all of them: the last that names it decides
abbrev pub decided : Bool → Modifier → String → Bool
decided there (adds x) t = if x == t then true else there
decided there (removes x) t = if x == t then false else there

abbrev pub verdict : Bool → List String → String → Bool
verdict there [] t = there
verdict there (tag ∷ tags) t = verdict (decided there (modifier_of tag) t) tags t

elem-without :
    (t x : String) (xs : List String) → elem t (without x xs) ≡ (not (x == t) && elem t xs)
elem-without t x xs = ground (arith, eq_iff t x, eq_iff x t, elem-keep_if t (λ y. not (y == x)) xs)

elem-apply_modifier :
    (merged seen : List String) (m : Modifier) (t : String)
    → ((x : String) → elem x merged ≡ elem x seen)
    → (elem t (apply_modifier (merged, seen) m).0 ≡ decided (elem t merged) m t)
      × (elem t (apply_modifier (merged, seen) m).1 ≡ decided (elem t merged) m t)
elem-apply_modifier merged seen (removes x) t k =
    ground (arith, k t, elem-without t x merged, elem-without t x seen)
elem-apply_modifier merged seen (adds x) t k =
    ground (arith, k t, elem-append t merged (x ∷ []), eq_iff x t, k x)

elem-merge_loop :
    (merged seen tags : List String) (t : String)
    → ((x : String) → elem x merged ≡ elem x seen)
    → elem t (merge_loop (merged, seen) tags).0 ≡ verdict (elem t merged) tags t
unfolding merge_loop
elem-merge_loop merged seen [] t h = refl
elem-merge_loop merged seen (tag ∷ tags) t h =
    let m = modifier_of tag in
    let acc = apply_modifier (merged, seen) m in
    elem-merge_loop acc.0 acc.1 tags t (λ x.
      (elem-apply_modifier merged seen m x h).0 ∙ sym (elem-apply_modifier merged seen m x h).1)
    ∙ ap (λ (b : Bool). verdict b tags t) (elem-apply_modifier merged seen m t h).0

pub elem-merged_tags :
    (fm_tags : List String) (o : Option (List String)) (t : String)
    → elem t (merged_tags fm_tags o) ≡ verdict (elem t (or_nil o)) fm_tags t
elem-merged_tags fm_tags o t = elem-merge_loop (or_nil o) (or_nil o) fm_tags t (λ x. refl)

-- The merged tags are the role's tags of the scope file, changed by the tags of the skill: whether a
-- tag is there is decided by the last of them that names it, `-tag` or `tag` or `+tag`, and by the
-- scope file if none does.
merge_tags-verdict :
    (fm_tags : List String) (role : String) (scope : ScopeFile) (t : String)
    → elem t (merge_tags fm_tags role scope).0
      ≡ verdict (elem t (or_nil (yaml_tags scope role))) fm_tags t
unfolding merge_tags
merge_tags-verdict [] role scope t = refl
merge_tags-verdict (tag ∷ tags) role scope t =
    elem-merged_tags (tag ∷ tags) (yaml_tags scope role) t

-- whether one of the role's tags is there after the skill's own
abbrev pub keeps_one : List String → List String → Bool
keeps_one fm_tags [] = false
keeps_one fm_tags (t ∷ ts) = verdict true fm_tags t || keeps_one fm_tags ts
