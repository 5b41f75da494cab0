-- ===== src/Registry/Names.antt =====
-- `InferCapabilities` of registry.go, and its twin in catalog/catalog.go: the words before the first
-- underscore of the tools' names.
use neuralgentics_broker.Prelude.{
  ℕ, String, not, ◌&&◌, Option, none, some, List, [], ◌∷◌, ◌++◌, ◌==◌, eqb, if◌then◌else◌, elem,
}
use Prim.Native.Char.{Char, code}
use neuralgentics_broker.Types.{ToolSummary}

abbrev pub push : Char → List String → List String
push c [] = []
push c (p ∷ ps) = String.◌∷◌ c p ∷ ps

-- `strings.SplitN(s, sep, 2)` for a separator of one byte
unfoldable pub split_once : ℕ → String → List String
split_once sep String.[] = "" ∷ []
split_once sep (String.◌∷◌ c s) =
    let rest = split_once sep s in if eqb (code c) sep then "" ∷ s ∷ [] else push c rest

abbrev pub first_part : List String → Option String
first_part [] = none
first_part (p ∷ ps) = some p

-- the test of the loop: a part that is there, is not empty and was not seen
abbrev pub fresh_part : List String → Option String → Option String
fresh_part seen none = none
fresh_part seen (some p) = if not (p == "") && not (elem p seen) then some p else none

-- The loop of `registry.InferCapabilities`, over `seen` and `caps`.
unfoldable pub infer_loop : List String → List String → List ToolSummary → List String
infer_loop seen caps [] = caps
infer_loop seen caps (t ∷ ts) = elim (fresh_part seen (first_part (split_once b'_' t.name))) [
  | none ↦ infer_loop seen caps ts
  | some p ↦ infer_loop (p ∷ seen) (caps ++ p ∷ []) ts
]

unfoldable pub infer_capabilities : List ToolSummary → List String
unfolding infer_loop split_once
infer_capabilities tools = infer_loop [] [] tools
