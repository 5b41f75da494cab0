-- ===== src/Prelude/Texts.antt =====
-- The order of texts, and `sort.Strings`.
use Prim.Native.Char.{code}
use Prim.Native.String.{String}
use mathlib.Core.Path.{◌≡◌, refl}
use mathlib.Core.Bool.{Bool, true, false}
use mathlib.Core.List.{List, [], ◌∷◌}
use native.Mathlib.Omega.{arith}
use text.Mathlib.Text.{◌==◌}
use neuralgentics_broker.Prelude.Tests.{ltb, if◌then◌else◌}
use neuralgentics_broker.Prelude.Lists.{elem}

-- `a <= b` on texts. The bytes of UTF-8 are ordered as the code points are.
unfoldable pub text_le : String → String → Bool
text_le String.[] t = true
text_le (String.◌∷◌ c s) String.[] = false
text_le (String.◌∷◌ c s) (String.◌∷◌ d t) =
    if ltb (code c) (code d) then true else if ltb (code d) (code c) then false else text_le s t

pub text_le_total : (s t : String) → text_le s t ≡ false → text_le t s ≡ true
unfolding text_le
text_le_total String.[] t h = cc
text_le_total (String.◌∷◌ c s) String.[] h = refl
text_le_total (String.◌∷◌ c s) (String.◌∷◌ d t) h = ground (arith, text_le_total s t)

insert_sorted : String → List String → List String
insert_sorted s [] = s ∷ []
insert_sorted s (x ∷ xs) =
    let rest = insert_sorted s xs in if text_le s x then s ∷ x ∷ xs else x ∷ rest

unfoldable pub sort_strings : List String → List String
unfolding text_le insert_sorted
sort_strings [] = []
sort_strings (x ∷ xs) = insert_sorted x (sort_strings xs)

abbrev pub IsSorted : List String → Type 0
IsSorted [] = Unit
IsSorted (x ∷ []) = Unit
IsSorted (x ∷ y ∷ xs) = (text_le x y ≡ true) × IsSorted (y ∷ xs)

insert_sorted-IsSorted :
    (s : String) (xs : List String) → IsSorted xs → IsSorted (insert_sorted s xs)
unfolding insert_sorted
insert_sorted-IsSorted s [] h = tt
insert_sorted-IsSorted s (x ∷ []) h = ground (arith, text_le_total s x)
insert_sorted-IsSorted s (x ∷ y ∷ xs) h =
    ground (arith, text_le_total s x, insert_sorted-IsSorted s (y ∷ xs) h.1)

pub sort_strings-IsSorted : (xs : List String) → IsSorted (sort_strings xs)
unfolding sort_strings
sort_strings-IsSorted [] = tt
sort_strings-IsSorted (x ∷ xs) =
    insert_sorted-IsSorted x (sort_strings xs) (sort_strings-IsSorted xs)

elem-insert_sorted :
    (s x : String) (xs : List String)
    → elem s (insert_sorted x xs) ≡ (if x == s then true else elem s xs)
unfolding insert_sorted
elem-insert_sorted s x [] = refl
elem-insert_sorted s x (y ∷ ys) = ground (arith, elem-insert_sorted s x ys)

pub elem-sort_strings : (s : String) (xs : List String) → elem s (sort_strings xs) ≡ elem s xs
unfolding sort_strings
elem-sort_strings s [] = refl
elem-sort_strings s (x ∷ xs) =
    ground (arith, elem-insert_sorted s x (sort_strings xs), elem-sort_strings s xs)
