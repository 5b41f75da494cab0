-- ===== src/Prelude/Bytes.antt =====
-- The bytes of a text, in UTF-8, and positions in a list of bytes.
use Prim.Native.Nat.{ℕ, zero, suc, ◌+◌, ◌-◌, ◌/◌, ◌%◌, ◌<◌}
use mathlib.Core.Bool.{Bool, true, false, ◌&&◌, ◌||◌}
use Prim.Native.Char.{code}
use Prim.Native.String.{String}
use mathlib.Core.Path.{◌≡◌, refl}
use mathlib.Core.Option.{Option, none, some}
use mathlib.Core.List.{List, [], ◌∷◌, ◌++◌}
use native.Mathlib.Omega.{arith}
use neuralgentics_broker.Prelude.Tests.{ltb, leb, eqb, if◌then◌else◌}
use neuralgentics_broker.Prelude.Lists.{length}

abbrev pub encode : ℕ → List ℕ
encode c =
    if ltb c 0x80
    then c ∷ []
    else if ltb c 0x800
    then (0xC0 + c / 64) ∷ (0x80 + c % 64) ∷ []
    else if ltb c 0x10000
    then (0xE0 + c / 4096) ∷ (0x80 + c / 64 % 64) ∷ (0x80 + c % 64) ∷ []
    else (0xF0 + c / 262144) ∷ (0x80 + c / 4096 % 64) ∷ (0x80 + c / 64 % 64) ∷ (0x80 + c % 64) ∷ []

unfoldable pub bytes : String → List ℕ
bytes String.[] = []
bytes (String.◌∷◌ c s) = encode (code c) ++ bytes s

-- `strings.LastIndex(s, sep)` for a separator of one byte; -1 is `none`
abbrev pub later : Option ℕ → ℕ → ℕ → Option ℕ
later (some i) c sep = some (suc i)
later none c sep = if eqb c sep then some 0 else none

unfoldable pub last_index : ℕ → List ℕ → Option ℕ
last_index sep [] = none
last_index sep (c ∷ s) = later (last_index sep s) c sep

pub last_index-lt : (sep : ℕ) (s : List ℕ) {i : ℕ} → last_index sep s ≡ some i → i < length s
unfolding last_index
last_index-lt sep [] h = cc
last_index-lt sep (c ∷ s) {i} h = go (last_index sep s) (λ j e. last_index-lt sep s {i = j} e) h
  where
    go :
        (o : Option ℕ)
        → ((j : ℕ) → o ≡ some j → j < length s)
        → later o c sep ≡ some i
        → i < suc (length s)
    go none below e = ground arith
    go (some j) below e = ground (arith, below j refl)

-- `s[n:]`; equality, and tests for prefixes, suffixes and parts
unfoldable pub eq_bytes : List ℕ → List ℕ → Bool
eq_bytes [] [] = true
eq_bytes [] (y ∷ ys) = false
eq_bytes (x ∷ xs) [] = false
eq_bytes (x ∷ xs) (y ∷ ys) = eqb x y && eq_bytes xs ys

unfoldable pub drop : ℕ → List ℕ → List ℕ
drop zero xs = xs
drop (suc n) [] = []
drop (suc n) (x ∷ xs) = drop n xs

unfoldable pub starts_with : List ℕ → List ℕ → Bool
starts_with [] ys = true
starts_with (x ∷ xs) [] = false
starts_with (x ∷ xs) (y ∷ ys) = eqb x y && starts_with xs ys

-- `strings.Contains(s, sub)`
unfoldable pub contains : List ℕ → List ℕ → Bool
unfolding starts_with
contains [] sub = starts_with sub []
contains (x ∷ xs) sub = starts_with sub (x ∷ xs) || contains xs sub

unfoldable pub has_suffix : List ℕ → List ℕ → Bool
unfolding eq_bytes drop
has_suffix s suffix =
    leb (length suffix) (length s) && eq_bytes (drop (length s - length suffix) s) suffix

-- `strings.Index(s, sub)`; -1 is `none`
abbrev pub one_more : Option ℕ → Option ℕ
one_more none = none
one_more (some i) = some (suc i)

unfoldable pub index : List ℕ → List ℕ → Option ℕ
unfolding starts_with
index sub [] = if starts_with sub [] then some 0 else none
index sub (c ∷ s) =
    let later = one_more (index sub s) in if starts_with sub (c ∷ s) then some 0 else later
