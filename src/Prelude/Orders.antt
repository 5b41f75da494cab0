-- ===== src/Prelude/Orders.antt =====
-- The orders in which a Go map may be ranged: the permutations of its entries.
use Prim.Native.Nat.{ℕ, ◌+◌, ◌≤◌}
use Prim.Native.String.{String}
use mathlib.Core.Path.{◌≡◌, refl, sym, ap, ◌∙◌}
use mathlib.Core.Bool.{false}
use mathlib.Core.List.{[], ◌∷◌, foldr, Perm}
use mathlib.Core.List.Perm
use native.Mathlib.Nat.{ℕ_set}
use native.Mathlib.Omega.{arith}
use text.Mathlib.Text.{◌==◌}
use text.Mathlib.TextEquality.{eq_iff}
use neuralgentics_broker.Prelude.Tests.{if◌then◌else◌}
use neuralgentics_broker.Prelude.Maps.{Dict, has_key, IsMap}

module _ {ℓ} {V : Type ℓ} where
  -- how often a key occurs
  abbrev add_key : String → String × V → ℕ → ℕ
  add_key k p n = (if p.0 == k then 1 else 0) + n

  abbrev count : String → Dict V → ℕ
  count k [] = 0
  count k (p ∷ m) = add_key k p (count k m)

  count-foldr : (k : String) (m : Dict V) → count k m ≡ foldr (add_key k) 0 m
  count-foldr k [] = refl
  count-foldr k (p ∷ m) = ap (add_key k p) (count-foldr k m)

  count-Perm : (k : String) {m n : Dict V} → Perm m n → count k m ≡ count k n
  count-Perm k {m} {n} p =
      count-foldr k m
      ∙ Perm.foldr-eq ℕ_set (add_key k) (λ a b x. omega arith) p 0
      ∙ sym (count-foldr k n)

  count_absent : (k : String) (m : Dict V) → has_key k m ≡ false → count k m ≡ 0
  count_absent k [] h = refl
  count_absent k ((j, v) ∷ m) h = ground (arith, eq_iff j k, eq_iff k j, count_absent k m)

  absent_count : (k : String) (m : Dict V) → count k m ≡ 0 → has_key k m ≡ false
  absent_count k [] h = refl
  absent_count k ((j, v) ∷ m) h = ground (arith, eq_iff j k, eq_iff k j, absent_count k m)

  count-le : (k : String) (m : Dict V) → IsMap m → count k m ≤ 1
  count-le k [] u = omega arith
  count-le k ((j, v) ∷ m) u = ground (arith, eq_iff j k, count_absent k m, count-le k m u.1, u.0)

  le-IsMap : (m : Dict V) → ((k : String) → count k m ≤ 1) → IsMap m
  le-IsMap [] h = tt
  le-IsMap ((j, v) ∷ m) h = (
    absent_count j m (ground (arith, h j, eq_iff j j)),
    le-IsMap m (λ k. let l = h k in omega (arith, l)),
  )

  -- in whatever order, a map holds each key once
  pub Perm-IsMap : {m n : Dict V} → Perm m n → IsMap m → IsMap n
  Perm-IsMap {m} {n} p u =
      le-IsMap n
        (λ k. let same = count-Perm k p in let l = count-le k m u in omega (arith, same, l))
