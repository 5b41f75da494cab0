-- ===== src/Catalog/Prompt/Decimal.antt =====
-- The numbers in the prompt of catalog/prompt.go.
use neuralgentics_broker.Prelude.{
  ℕ, zero, suc, ◌+◌, ◌-◌, ◌*◌, ◌/◌, ◌%◌, ◌≤◌, ◌<◌, ◌≡◌, ap, ◌∙◌, inl, inr, List, [], ◌∷◌, arith,
  ltb, Bool-cases,
}
use neuralgentics_broker.Catalog.Prompt.{digits, decimal}

-- the number that decimal digits stand for, after one that was read before
abbrev pub number_from : ℕ → List ℕ → ℕ
number_from n [] = n
number_from n (d ∷ ds) = number_from (n * 10 + (d - 48)) ds

number_from-digits :
    (fuel n : ℕ) (acc : List ℕ) → n < fuel → number_from 0 (digits fuel n acc) ≡ number_from n acc
unfolding digits
number_from-digits zero n acc l = absurd (omega (arith, l))
number_from-digits (suc fuel) n acc l = elim (Bool-cases (ltb n 10)) [
  | inl small ↦ rw (small, number_from) (ap (λ m. number_from m acc) (omega arith))
  | inr large ↦
      let wide : 10 ≤ n = ground (arith, large) in
      let shorter : n / 10 < fuel = omega (arith, l, wide) in
      rw (large, number_from)
        (number_from-digits fuel (n / 10) ((48 + n % 10) ∷ acc) shorter
          ∙ ap (λ m. number_from m acc) (omega arith))
]

-- The digits that are written for a number stand for it: there is fuel enough for every one.
number_from-decimal : (n : ℕ) → number_from 0 (decimal n) ≡ n
unfolding decimal
number_from-decimal n = number_from-digits (suc n) n [] (omega arith)
