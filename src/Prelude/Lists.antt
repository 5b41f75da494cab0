-- ===== src/Prelude/Lists.antt =====
-- Lists with Boolean tests and native lengths.
use Prim.Native.Nat.{ℕ, zero, suc, ◌+◌, ◌≤◌}
use Prim.Native.String.{String}
use mathlib.Core.Path.{◌≡◌, refl}
use mathlib.Core.Bool.{Bool, true, false, ◌&&◌, ◌||◌}
use mathlib.Core.List.{List, [], ◌∷◌, ◌++◌}
use native.Mathlib.Omega.{arith}
use text.Mathlib.Text.{◌==◌}
use text.Mathlib.TextEquality.{eq_iff}
use neuralgentics_broker.Prelude.Tests.{if◌then◌else◌}

module _ {ℓ} {A : Type ℓ} where
  abbrev pub length : List A → ℕ
  length [] = 0
  length (x ∷ xs) = suc (length xs)

  abbrev pub is_empty : List A → Bool
  is_empty [] = true
  is_empty (x ∷ xs) = false

  -- the loop that appends what passes a test
  abbrev pub keep_if : (A → Bool) → List A → List A
  keep_if p [] = []
  keep_if p (x ∷ xs) = let rest = keep_if p xs in if p x then x ∷ rest else rest

  abbrev pub take : ℕ → List A → List A
  take zero xs = []
  take (suc n) [] = []
  take (suc n) (x ∷ xs) = x ∷ take n xs

  abbrev pub All {κ} : (A → Type κ) → List A → Type κ
  All P [] = Unit
  All P (x ∷ xs) = P x × All P xs

  pub length-append : (xs ys : List A) → length (xs ++ ys) ≡ length xs + length ys
  length-append [] ys = omega arith
  length-append (x ∷ xs) ys = omega (arith, length-append xs ys)

  pub length-keep_if : (p : A → Bool) (xs : List A) → length (keep_if p xs) ≤ length xs
  length-keep_if p [] = omega arith
  length-keep_if p (x ∷ xs) = ground (arith, length-keep_if p xs)

  pub All-keep_if {κ} :
      (P : A → Type κ) (p : A → Bool) (xs : List A) → All P xs → All P (keep_if p xs)
  All-keep_if P p [] h = h
  All-keep_if P p (x ∷ xs) h = both (p x) (All-keep_if P p xs h.1)
    where
      both :
          (b : Bool) → All P (keep_if p xs) → All P (if b then x ∷ keep_if p xs else keep_if p xs)
      both true r = (h.0, r)
      both false r = r

  pub data Listed (a : A) : List A → Type ℓ where
    at_head : {xs : List A} → Listed a (a ∷ xs)
    in_tail : {x : A} {xs : List A} → Listed a xs → Listed a (x ∷ xs)

  All-map {κ ι} :
      (P : A → Type κ) (Q : A → Type ι)
      → ((a : A) → P a → Q a)
      → (xs : List A) → All P xs
      → All Q xs
  All-map P Q f [] h = tt
  All-map P Q f (x ∷ xs) h = (f x h.0, All-map P Q f xs h.1)

  pub All-Listed : (xs : List A) → All (λ a. Listed a xs) xs
  All-Listed [] = tt
  All-Listed (x ∷ xs) = (
    at_head,
    All-map (λ a. Listed a xs) (λ a. Listed a (x ∷ xs)) (λ a l. in_tail l) xs (All-Listed xs),
  )

  pub Listed-All {κ} : (P : A → Type κ) (a : A) {xs : List A} → All P xs → Listed a xs → P a
  Listed-All P a h at_head = h.0
  Listed-All P a h (in_tail l) = Listed-All P a h.1 l

  -- what passes a test is what is kept
  pub keep_if-Listed :
      (p : A → Bool) (a : A) {xs : List A} → p a ≡ true → Listed a xs → Listed a (keep_if p xs)
  keep_if-Listed p a h at_head = rw h at_head
  keep_if-Listed p a h (in_tail {x = x} {xs = xs} l) = by_test (p x) (keep_if-Listed p a h l)
    where
      by_test :
          (b : Bool)
          → Listed a (keep_if p xs)
          → Listed a (if b then x ∷ keep_if p xs else keep_if p xs)
      by_test true l = in_tail l
      by_test false l = l

  pub All-keep_if_tested {κ} :
      (Q : A → Type κ) (p : A → Bool) (xs : List A)
      → All Q xs
      → All (λ a. Q a × (p a ≡ true)) (keep_if p xs)
  All-keep_if_tested Q p [] h = tt
  All-keep_if_tested Q p (x ∷ xs) h = both (p x) refl (All-keep_if_tested Q p xs h.1)
    where
      both :
          (b : Bool)
          → p x ≡ b
          → All (λ a. Q a × (p a ≡ true)) (keep_if p xs)
          → All (λ a. Q a × (p a ≡ true)) (if b then x ∷ keep_if p xs else keep_if p xs)
      both true e r = ((h.0, e), r)
      both false e r = r

-- whether a text occurs in a list of texts
abbrev pub elem : String → List String → Bool
elem s [] = false
elem s (x ∷ xs) = if x == s then true else elem s xs

pub elem-append : (s : String) (xs ys : List String) → elem s (xs ++ ys) ≡ (elem s xs || elem s ys)
elem-append s [] ys = refl
elem-append s (x ∷ xs) ys = ground (arith, elem-append s xs ys)

pub elem-keep_if :
    (s : String) (p : String → Bool) (xs : List String) → elem s (keep_if p xs) ≡ (p s && elem s xs)
elem-keep_if s p [] = ground arith
elem-keep_if s p (x ∷ xs) = ground (arith, eq_iff x s, elem-keep_if s p xs)
