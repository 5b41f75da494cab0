-- ===== src/Catalog/Truncation.antt =====
-- `truncate` of catalog.go.
use neuralgentics_broker.Prelude.{
  ℕ, zero, suc, ◌+◌, ◌-◌, ◌≤◌, ◌<◌, ◌≡◌, refl, inl, inr, Option, none, some, List, [], ◌∷◌, arith,
  ltb, Bool-cases, length, take, length-append, bytes, last_index, last_index-lt,
}
use neuralgentics_broker.Catalog.{truncate, cut}

length-take-le : (n : ℕ) (s : List ℕ) → length (take n s) ≤ n
length-take-le zero s = omega arith
length-take-le (suc n) [] = omega arith
length-take-le (suc n) (x ∷ s) = omega (arith, length-take-le n s)

length-cut-le :
    (s : List ℕ) (n : ℕ) (o : Option ℕ)
    → ((i : ℕ) → o ≡ some i → i < n)
    → length (cut s n o) ≤ n + 3
unfolding bytes
length-cut-le s n none h = omega (arith, length-append (take n s) (bytes "..."), length-take-le n s)
length-cut-le s n (some i) h = elim (Bool-cases (ltb 0 i)) [
  | inl e ↦
      rw e (omega (arith, length-append (take i s) (bytes " ..."), length-take-le i s, h i refl))
  | inr e ↦ rw e (omega (arith, length-append (take n s) (bytes "..."), length-take-le n s))
]

-- The result is never longer than the limit, whatever the text and the limit.
pub length-truncate-le : (s : List ℕ) (max_len : ℕ) → length (truncate s max_len) ≤ max_len
unfolding truncate
length-truncate-le s max_len = ground (
  arith,
  length-take-le max_len s,
  length-cut-le s (max_len - 3) (last_index b' ' (take (max_len - 3) s)) (λ i h.
      omega (
        arith,
        last_index-lt b' ' (take (max_len - 3) s) {i = i} h,
        length-take-le (max_len - 3) s,
      )),
)
