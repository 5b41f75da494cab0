-- ===== src/Intent/Sorting.antt =====
-- The insertion sort of `MatchAll` of intent/matcher.go.
use neuralgentics_broker.Prelude.{
  ℕ, zero, suc, ◌≡◌, inl, inr, Bool, true, false, List, [], ◌∷◌, if◌then◌else◌, Bool-cases, take,
  All,
}
use mathlib.Core.List.{reverse_aux}
use neuralgentics_broker.Intent.{Floats, ToolMatch, sink_in, sort_loop, sort_matches}

-- `>` on float64 values that are not NaN
pub record IsOrder {F : Type 0} (floats : Floats F) : Type 0 where
  pub asym : (x y : F) → floats.exceeds x y ≡ true → floats.exceeds y x ≡ false
  pub cotrans :
      (x y z : F)
      → floats.exceeds x y ≡ false
      → floats.exceeds y z ≡ false
      → floats.exceeds x z ≡ false

module _ {F : Type 0} (floats : Floats F) where
  -- none of the matches is above the score; none is below it
  abbrev pub AtMost : F → List (ToolMatch F) → Type 0
  AtMost s ms = All (λ (m : ToolMatch F). floats.exceeds m.score s ≡ false) ms

  abbrev AtLeast : F → List (ToolMatch F) → Type 0
  AtLeast s ms = All (λ (m : ToolMatch F). floats.exceeds s m.score ≡ false) ms

  abbrev pub Falling : List (ToolMatch F) → Type 0
  Falling [] = Unit
  Falling (m ∷ ms) = AtMost m.score ms × Falling ms

  abbrev Rising : List (ToolMatch F) → Type 0
  Rising [] = Unit
  Rising (m ∷ ms) = AtLeast m.score ms × Rising ms

  -- The sort has the same elements: a property of all holds before exactly if it holds after.
  module _ (P : ToolMatch F → Type 0) where
    All-sink_in :
        (x : ToolMatch F) (ys : List (ToolMatch F)) → P x → All P ys → All P (sink_in floats x ys)
    unfolding sink_in
    All-sink_in x [] p h = (p, tt)
    All-sink_in x (y ∷ ys) p h = elim (Bool-cases (floats.exceeds x.score y.score)) [
      | inl above ↦ rw above (h.0, All-sink_in x ys p h.1)
      | inr below ↦ rw below (p, h)
    ]

    sink_in-All :
        (x : ToolMatch F) (ys : List (ToolMatch F)) → All P (sink_in floats x ys) → P x × All P ys
    unfolding sink_in
    sink_in-All x [] = λ h. (h.0, tt)
    sink_in-All x (y ∷ ys) = elim (Bool-cases (floats.exceeds x.score y.score)) [
      | inl above ↦ rw above (λ h. let r = sink_in-All x ys h.1 in (r.0, (h.0, r.1)))
      | inr below ↦ rw below (λ h. h)
    ]

    All-sort_loop :
        (acc xs : List (ToolMatch F)) → All P acc → All P xs → All P (sort_loop floats acc xs)
    unfolding sort_loop
    All-sort_loop acc [] a h = a
    All-sort_loop acc (x ∷ xs) a h =
        All-sort_loop (sink_in floats x acc) xs (All-sink_in x acc h.0 a) h.1

    sort_loop-All :
        (acc xs : List (ToolMatch F)) → All P (sort_loop floats acc xs) → All P acc × All P xs
    unfolding sort_loop
    sort_loop-All acc [] h = (h, tt)
    sort_loop-All acc (x ∷ xs) h =
        let r = sort_loop-All (sink_in floats x acc) xs h in
        let s = sink_in-All x acc r.0 in (s.1, (s.0, r.1))

    All-reverse_aux :
        (xs acc : List (ToolMatch F)) → All P xs → All P acc → All P (reverse_aux xs acc)
    All-reverse_aux [] acc h a = a
    All-reverse_aux (x ∷ xs) acc h a = All-reverse_aux xs (x ∷ acc) h.1 (h.0, a)

    reverse_aux-All :
        (xs acc : List (ToolMatch F)) → All P (reverse_aux xs acc) → All P xs × All P acc
    reverse_aux-All [] acc h = (tt, h)
    reverse_aux-All (x ∷ xs) acc h = let r = reverse_aux-All xs (x ∷ acc) h in ((r.1.0, r.0), r.1.1)

    pub All-sort_matches : (xs : List (ToolMatch F)) → All P xs → All P (sort_matches floats xs)
    unfolding sort_matches
    All-sort_matches xs h =
        All-reverse_aux (sort_loop floats [] xs) [] (All-sort_loop [] xs tt h) tt

    pub sort_matches-All : (xs : List (ToolMatch F)) → All P (sort_matches floats xs) → All P xs
    unfolding sort_matches
    sort_matches-All xs h =
        (sort_loop-All [] xs (reverse_aux-All (sort_loop floats [] xs) [] h).0).1

  module _ (order : IsOrder floats) where
    AtLeast-le :
        (s t : F) (ms : List (ToolMatch F))
        → floats.exceeds s t ≡ false
        → AtLeast t ms
        → AtLeast s ms
    AtLeast-le s t [] p h = tt
    AtLeast-le s t (m ∷ ms) p h = (order.cotrans s t m.score p h.0, AtLeast-le s t ms p h.1)

    Rising-sink_in :
        (x : ToolMatch F) (ys : List (ToolMatch F)) → Rising ys → Rising (sink_in floats x ys)
    unfolding sink_in
    Rising-sink_in x [] h = (tt, tt)
    Rising-sink_in x (y ∷ ys) h = elim (Bool-cases (floats.exceeds x.score y.score)) [
      | inl above ↦ rw above (
        All-sink_in (λ m. floats.exceeds y.score m.score ≡ false) x ys
            (order.asym x.score y.score above) h.0,
        Rising-sink_in x ys h.1,
      )
      | inr below ↦ rw below ((below, AtLeast-le x.score y.score ys below h.0), h)
    ]

    Rising-sort_loop : (acc xs : List (ToolMatch F)) → Rising acc → Rising (sort_loop floats acc xs)
    unfolding sort_loop
    Rising-sort_loop acc [] h = h
    Rising-sort_loop acc (x ∷ xs) h =
        Rising-sort_loop (sink_in floats x acc) xs (Rising-sink_in x acc h)

  -- everything in the first list is at least everything in the second
  abbrev Above : List (ToolMatch F) → List (ToolMatch F) → Type 0
  Above xs acc = All (λ (x : ToolMatch F). AtMost x.score acc) xs

  Above-cons :
      (x : ToolMatch F) (xs acc : List (ToolMatch F))
      → AtLeast x.score xs
      → Above xs acc
      → Above xs (x ∷ acc)
  Above-cons x [] acc h a = tt
  Above-cons x (y ∷ ys) acc h a = ((h.0, a.0), Above-cons x ys acc h.1 a.1)

  Falling-reverse_aux :
      (xs acc : List (ToolMatch F))
      → Rising xs
      → Falling acc
      → Above xs acc
      → Falling (reverse_aux xs acc)
  Falling-reverse_aux [] acc r f a = f
  Falling-reverse_aux (x ∷ xs) acc r f a =
      Falling-reverse_aux xs (x ∷ acc) r.1 (a.0, f) (Above-cons x xs acc r.0 a.1)

  Above-nil : (xs : List (ToolMatch F)) → Above xs []
  Above-nil [] = tt
  Above-nil (x ∷ xs) = (tt, Above-nil xs)

  pub Falling-sort_matches :
      (xs : List (ToolMatch F)) → IsOrder floats → Falling (sort_matches floats xs)
  unfolding sort_matches
  Falling-sort_matches xs order =
      Falling-reverse_aux (sort_loop floats [] xs) [] (Rising-sort_loop order [] xs tt) tt
        (Above-nil (sort_loop floats [] xs))

  All-take :
      (P : ToolMatch F → Type 0) (n : ℕ) (xs : List (ToolMatch F)) → All P xs → All P (take n xs)
  All-take P zero xs h = tt
  All-take P (suc n) [] h = tt
  All-take P (suc n) (x ∷ xs) h = (h.0, All-take P n xs h.1)

  pub Falling-take : (n : ℕ) (xs : List (ToolMatch F)) → Falling xs → Falling (take n xs)
  Falling-take zero xs h = tt
  Falling-take (suc n) [] h = tt
  Falling-take (suc n) (x ∷ xs) h =
      (All-take (λ m. floats.exceeds m.score x.score ≡ false) n xs h.0, Falling-take n xs h.1)

  pub if-Falling :
      (t : Bool) (xs ys : List (ToolMatch F))
      → Falling xs
      → Falling ys
      → Falling (if t then xs else ys)
  if-Falling true xs ys p q = p
  if-Falling false xs ys p q = q
