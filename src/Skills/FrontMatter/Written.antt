-- ===== src/Skills/FrontMatter/Written.antt =====
-- A front matter that is written between dashes is read back.
use neuralgentics_broker.Prelude.{
  ℕ, suc, ◌+◌, ◌≡◌, refl, ap, inl, inr, none, some, List, [], ◌∷◌, ◌++◌, arith, Option-cases, ok,
  length, take, All, Dict, drop, starts_with, index,
}
use neuralgentics_broker.Skills.{Workspace, Value}
use neuralgentics_broker.Skills.FrontMatter.{parse_skill_front_matter, closing, dashes, newline}

-- dashes do not reach over a new line
starts_with-newline :
    (n : List ℕ) (xs rest : List ℕ)
    → All (λ (c : ℕ). c ≡ b'-') n
    → starts_with n (xs ++ 10 ∷ rest) ≡ starts_with n xs
unfolding starts_with
starts_with-newline [] xs rest h = refl
starts_with-newline (c ∷ n) [] rest h = rw h.0 refl
starts_with-newline (c ∷ n) (x ∷ xs) rest h = ground (arith, starts_with-newline n xs rest h.1)

drop-append : (xs ys : List ℕ) (n : ℕ) → drop (length xs + n) (xs ++ ys) ≡ drop n ys
unfolding drop
drop-append [] ys n = ground arith
drop-append (x ∷ xs) ys n =
    let e : suc (length xs) + n ≡ suc (length xs + n) = omega arith in rw e (drop-append xs ys n)

take-append : (xs ys : List ℕ) → take (length xs) (xs ++ ys) ≡ xs
take-append [] ys = refl
take-append (x ∷ xs) ys = ap (◌∷◌ x) (take-append xs ys)

index-closing :
    (fm rest : List ℕ)
    → index closing fm ≡ none
    → index closing (fm ++ (closing ++ rest)) ≡ some (length fm)
unfolding index starts_with
index-closing [] rest h = refl
index-closing (c ∷ fm) rest h = elim (Option-cases (index closing fm)) [
  | inl absent ↦ ground (
    arith,
    starts_with-newline dashes fm (dashes ++ rest) (refl, (refl, (refl, tt))),
    index-closing fm rest absent,
  )
  | inr (i, found) ↦ ground (arith, found)
]

-- The text `---`, a front matter, `---` and a body, each on a line of its own, gives back what the
-- YAML parser makes of the front matter, and the body, if no line of the front matter but the first
-- begins with `---`.
pub parse_skill_front_matter-written :
    (w : Workspace) (fm body : List ℕ) (m : Dict Value)
    → index closing fm ≡ none
    → w.yaml fm ≡ some m
    → parse_skill_front_matter w (dashes ++ (newline ++ (fm ++ (closing ++ (newline ++ body)))))
      ≡ ok (m, body)
unfolding parse_skill_front_matter drop
parse_skill_front_matter-written w fm body m h y =
    rw
      (
        index-closing fm (newline ++ body) h,
        drop-append fm (closing ++ (newline ++ body)) 4,
        take-append fm (closing ++ (newline ++ body)),
        y,
      )
      refl
