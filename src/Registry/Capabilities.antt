-- ===== src/Registry/Capabilities.antt =====
-- What `InferCapabilities` of registry.go finds.
use neuralgentics_broker.Prelude.{
  String, ◌≡◌, refl, ◌≢◌, ◌⊎◌, inl, inr, true, false, not, ◌&&◌, ◌||◌, Option, none, some, List, [],
  ◌∷◌, ◌++◌, arith, ◌==◌, eq_iff, Bool-cases, elem, elem-append,
}
use neuralgentics_broker.Types.{ToolSummary}
use neuralgentics_broker.Registry.Names.{
  split_once, first_part, fresh_part, infer_loop, infer_capabilities,
}

-- the words before the first underscore of the tools' names
abbrev pub prepend : Option String → List String → List String
prepend none ps = ps
prepend (some p) ps = p ∷ ps

abbrev pub tags : List ToolSummary → List String
tags [] = []
tags (t ∷ ts) = prepend (first_part (split_once b'_' t.name)) (tags ts)

abbrev pub Distinct : List String → Type 0
Distinct [] = Unit
Distinct (x ∷ xs) = (elem x xs ≡ false) × Distinct xs

Distinct-append :
    (xs : List String) (p : String) → Distinct xs → elem p xs ≡ false → Distinct (xs ++ p ∷ [])
Distinct-append [] p d n = (refl, tt)
Distinct-append (x ∷ xs) p d n =
    ground (arith, eq_iff p x, eq_iff x p, elem-append x xs (p ∷ []), Distinct-append xs p d.1)

-- one round: the part is taken, or it is empty or seen
abbrev Round : List String → Option String → Option String → Type 0
Round seen o none = (p : String) → o ≡ some p → ((p ≡ "") ⊎ (elem p seen ≡ true))
Round seen o (some p) = (o ≡ some p) × (p ≢ "") × (elem p seen ≡ false)

fresh_part-Round : (seen : List String) (o : Option String) → Round seen o (fresh_part seen o)
fresh_part-Round seen none = λ p e. cc
fresh_part-Round seen (some p) = elim (Bool-cases (p == "")) [
  | inl e ↦ rw e (λ q h. inl (ground (arith, eq_iff p "")))
  | inr n ↦ rw n (elim (Bool-cases (elem p seen)) [
    | inl e ↦ rw e (λ q h. inr (ground arith))
    | inr m ↦ rw m (refl, ground (arith, eq_iff p ""), m)
  ])
]

module _ (c : String) where
  elem-infer_loop :
      (seen caps : List String) (ts : List ToolSummary)
      → ((x : String) → elem x seen ≡ elem x caps)
      → elem c (infer_loop seen caps ts) ≡ (elem c caps || (not (c == "") && elem c (tags ts)))
  unfolding infer_loop
  elem-infer_loop seen caps [] same = ground arith
  elem-infer_loop seen caps (t ∷ ts) same =
      go (first_part (split_once b'_' t.name)) _
        (fresh_part-Round seen (first_part (split_once b'_' t.name)))
        (elem-infer_loop seen caps ts same)
        (λ p.
          elem-infer_loop (p ∷ seen) (caps ++ p ∷ []) ts
            (λ x. ground (arith, same x, elem-append x caps (p ∷ []))))
    where
      go :
          (o f : Option String)
          → Round seen o f
          → elem c (infer_loop seen caps ts) ≡ (elem c caps || (not (c == "") && elem c (tags ts)))
          → ((p : String)
              → elem c (infer_loop (p ∷ seen) (caps ++ p ∷ []) ts)
                ≡ (elem c (caps ++ p ∷ []) || (not (c == "") && elem c (tags ts))))
          → elem c (elim f [
            | none ↦ infer_loop seen caps ts
            | some p ↦ infer_loop (p ∷ seen) (caps ++ p ∷ []) ts
          ])
            ≡ (elem c caps || (not (c == "") && elem c (prepend o (tags ts))))
      go none none r miss hit = miss
      go (some q) none r miss hit = elim (r q refl) [
        | inl e ↦ ground (arith, eq_iff q c, eq_iff c "")
        | inr e ↦ ground (arith, eq_iff q c, same q)
      ]
      go none (some p) r miss hit = absurd (cc (r.0))
      go (some q) (some p) r miss hit =
          ground (arith, hit p, elem-append c caps (p ∷ []), eq_iff q c, eq_iff c "", eq_iff p c)

Distinct-infer_loop :
    (seen caps : List String) (ts : List ToolSummary)
    → ((x : String) → elem x seen ≡ elem x caps)
    → Distinct caps
    → Distinct (infer_loop seen caps ts)
unfolding infer_loop
Distinct-infer_loop seen caps [] same d = d
Distinct-infer_loop seen caps (t ∷ ts) same d =
    go _ (fresh_part-Round seen (first_part (split_once b'_' t.name)))
      (Distinct-infer_loop seen caps ts same d)
      (λ p fresh.
        Distinct-infer_loop (p ∷ seen) (caps ++ p ∷ []) ts
          (λ x. ground (arith, same x, elem-append x caps (p ∷ [])))
          (Distinct-append caps p d (ground (arith, same p))))
  where
    go :
        (f : Option String)
        → Round seen (first_part (split_once b'_' t.name)) f
        → Distinct (infer_loop seen caps ts)
        → ((p : String)
            → elem p seen ≡ false
            → Distinct (infer_loop (p ∷ seen) (caps ++ p ∷ []) ts))
        → Distinct (elim f [
          | none ↦ infer_loop seen caps ts
          | some p ↦ infer_loop (p ∷ seen) (caps ++ p ∷ []) ts
        ])
    go none r miss hit = miss
    go (some p) r miss hit = hit p r.2

-- The capabilities are the words before the first underscore of the tools' names, each that is not
-- empty, and each once.
infer_capabilities_lem :
    (tools : List ToolSummary)
    → Distinct (infer_capabilities tools)
      × ((c : String) → elem c (infer_capabilities tools) ≡ (not (c == "") && elem c (tags tools)))
unfolding infer_capabilities
infer_capabilities_lem tools =
    (Distinct-infer_loop [] [] tools (λ x. refl) tt, λ c. elem-infer_loop c [] [] tools (λ x. refl))
