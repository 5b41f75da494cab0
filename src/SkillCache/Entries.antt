-- ===== src/SkillCache/Entries.antt =====
-- Lists of cache entries: their sizes, and what a lookup finds after a removal or an insertion.
use neuralgentics_broker.Prelude.{
  ℕ, ◌+◌, String, ◌≡◌, refl, ◌≢◌, Bool, true, false, none, some, List, [], ◌∷◌, ◌++◌, arith, ◌==◌,
  eq_iff, if◌then◌else◌, length, All,
}
use mathlib.Core.Path.{subst}
use neuralgentics_broker.SkillCache.{CacheEntry, lookup, remove}

abbrev pub sum_sizes : List CacheEntry → ℕ
sum_sizes [] = 0
sum_sizes (e ∷ es) = e.size + sum_sizes es

-- each path stands in the list once
abbrev pub Unique : List CacheEntry → Type 0
Unique [] = Unit
Unique (e ∷ es) = (lookup e.path es ≡ none) × Unique es

pub sum_sizes-append :
    (xs ys : List CacheEntry) → sum_sizes (xs ++ ys) ≡ sum_sizes xs + sum_sizes ys
sum_sizes-append [] ys = omega arith
sum_sizes-append (x ∷ xs) ys = omega (arith, sum_sizes-append xs ys)

module _ (path : String) where
  pub path-lookup :
      (es : List CacheEntry) {e : CacheEntry} → lookup path es ≡ some e → e.path ≡ path
  unfolding lookup
  path-lookup [] h = cc
  path-lookup (x ∷ es) {e} h = ground (arith, eq_iff x.path path, path-lookup es {e = e})

  pub sum_sizes-remove :
      (es : List CacheEntry) {e : CacheEntry}
      → lookup path es ≡ some e
      → sum_sizes (remove path es) + e.size ≡ sum_sizes es
  unfolding lookup remove
  sum_sizes-remove [] h = cc
  sum_sizes-remove (x ∷ es) {e} h = ground (arith, sum_sizes-remove es {e = e})

  pub length-remove :
      (es : List CacheEntry) {e : CacheEntry}
      → lookup path es ≡ some e
      → length (remove path es) + 1 ≡ length es
  unfolding lookup remove
  length-remove [] h = cc
  length-remove (x ∷ es) {e} h = ground (arith, length-remove es {e = e})

  pub remove_absent : (es : List CacheEntry) → lookup path es ≡ none → remove path es ≡ es
  unfolding lookup remove
  remove_absent [] h = refl
  remove_absent (x ∷ es) h = ground (arith, remove_absent es)

  lookup-remove_ne :
      (q : String) (es : List CacheEntry) → q ≢ path → lookup q (remove path es) ≡ lookup q es
  unfolding lookup remove
  lookup-remove_ne q [] n = refl
  lookup-remove_ne q (x ∷ es) n =
      ground (arith, eq_iff x.path path, eq_iff x.path q, lookup-remove_ne q es)

  pub lookup-remove_self : (es : List CacheEntry) → Unique es → lookup path (remove path es) ≡ none
  unfolding lookup remove
  lookup-remove_self [] u = refl
  lookup-remove_self (x ∷ es) u = ground (arith, eq_iff x.path path, lookup-remove_self es u.1)

  -- what is missing stays missing
  lookup-remove-none :
      (q : String) (es : List CacheEntry) → lookup q es ≡ none → lookup q (remove path es) ≡ none
  unfolding lookup remove
  lookup-remove-none q [] h = refl
  lookup-remove-none q (x ∷ es) h = ground (arith, lookup-remove-none q es)

  pub Unique-remove : (es : List CacheEntry) → Unique es → Unique (remove path es)
  unfolding remove
  Unique-remove [] u = tt
  Unique-remove (x ∷ es) u = ground (arith, lookup-remove-none x.path es, Unique-remove es u.1)

pub lookup-append :
    (q : String) (xs : List CacheEntry) (e : CacheEntry)
    → lookup q (xs ++ e ∷ [])
      ≡ elim (lookup q xs) [ some x ↦ some x | none ↦ (if e.path == q then some e else none) ]
unfolding lookup
lookup-append q [] e = refl
lookup-append q (x ∷ xs) e = ground (arith, lookup-append q xs e)

pub Unique-append :
    (xs : List CacheEntry) (e : CacheEntry)
    → Unique xs
    → lookup e.path xs ≡ none
    → Unique (xs ++ e ∷ [])
unfolding lookup
Unique-append [] e u h = (refl, tt)
Unique-append (x ∷ xs) e u h = ground (
  arith,
  eq_iff x.path e.path,
  eq_iff e.path x.path,
  lookup-append x.path xs e,
  Unique-append xs e u.1,
)

module _ {ℓ} (P : CacheEntry → Type ℓ) where
  pub All-remove : (path : String) (es : List CacheEntry) → All P es → All P (remove path es)
  unfolding remove
  All-remove path [] h = h
  All-remove path (x ∷ es) h = go (x.path == path) (All-remove path es h.1)
    where
      go : (b : Bool) → All P (remove path es) → All P (if b then es else x ∷ remove path es)
      go true r = h.1
      go false r = (h.0, r)

  pub All-append : (xs : List CacheEntry) (e : CacheEntry) → All P xs → P e → All P (xs ++ e ∷ [])
  All-append [] e h p = (p, tt)
  All-append (x ∷ xs) e h p = (h.0, All-append xs e h.1 p)

  pub All-lookup :
      (path : String) (es : List CacheEntry) {e : CacheEntry}
      → All P es
      → lookup path es ≡ some e
      → P e
  unfolding lookup
  All-lookup path [] h l = cc
  All-lookup path (x ∷ es) {e} h l = go (x.path == path) (All-lookup path es {e = e} h.1) l
    where
      go :
          (b : Bool)
          → (lookup path es ≡ some e → P e)
          → (if b then some x else lookup path es) ≡ some e
          → P e
      go true r l = let same : x ≡ e = cc in subst P same h.0
      go false r l = r l
