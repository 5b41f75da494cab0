-- ===== src/SkillCache/Limits.antt =====
-- `enforceLimits` of skill_cache.go against its specification: the longest run of the newest entries
-- that is within both limits.
use neuralgentics_broker.Prelude.{
  ℕ, ◌+◌, ◌≤◌, ◌<◌, String, ◌≡◌, refl, Bool, true, false, not, ◌&&◌, none, some, List, [], ◌∷◌,
  ◌++◌, arith, eq_refl, ltb, if◌then◌else◌, length, All,
}
use neuralgentics_broker.Prelude.Int.{pos, -ℤ_pos}
use neuralgentics_broker.SkillCache.{
  lookup, Cache, CacheEntry, evict_count, evict_bytes, enforce_limits,
}
use neuralgentics_broker.SkillCache.Entries.{lookup-append, Unique, sum_sizes}

-- A limit of 0 is no limit.
abbrev pub within : ℕ → ℕ → Bool
within limit n = not (ltb 0 limit && ltb limit n)

-- The entries stand oldest first: drop from the front until the rest is within both limits.
unfoldable pub newest_fitting : ℕ → ℕ → List CacheEntry → List CacheEntry
newest_fitting capacity max_bytes [] = []
newest_fitting capacity max_bytes (e ∷ es) =
    let rest = newest_fitting capacity max_bytes es in
    if within capacity (length (e ∷ es)) && within max_bytes (sum_sizes (e ∷ es))
    then e ∷ es
    else rest

by_count : ℕ → List CacheEntry → List CacheEntry
by_count capacity [] = []
by_count capacity (e ∷ es) =
    if within capacity (length (e ∷ es)) then e ∷ es else by_count capacity es

by_bytes : ℕ → List CacheEntry → List CacheEntry
by_bytes max_bytes [] = []
by_bytes max_bytes (e ∷ es) =
    if within max_bytes (sum_sizes (e ∷ es)) then e ∷ es else by_bytes max_bytes es

evict_count-by_count :
    (capacity : ℕ) (es : List CacheEntry)
    → evict_count capacity es (pos (sum_sizes es))
      ≡ (by_count capacity es, pos (sum_sizes (by_count capacity es)))
unfolding evict_count by_count
evict_count-by_count capacity [] = refl
evict_count-by_count capacity (e ∷ es) =
    ground (arith, -ℤ_pos (e.size + sum_sizes es) e.size, evict_count-by_count capacity es)

evict_bytes-by_bytes :
    (max_bytes : ℕ) (es : List CacheEntry)
    → evict_bytes max_bytes es (pos (sum_sizes es))
      ≡ (by_bytes max_bytes es, pos (sum_sizes (by_bytes max_bytes es)))
unfolding evict_bytes by_bytes
evict_bytes-by_bytes max_bytes [] = refl
evict_bytes-by_bytes max_bytes (e ∷ es) =
    ground (arith, -ℤ_pos (e.size + sum_sizes es) e.size, evict_bytes-by_bytes max_bytes es)

by_count_self :
    (capacity : ℕ) (es : List CacheEntry)
    → within capacity (length es) ≡ true
    → by_count capacity es ≡ es
unfolding by_count
by_count_self capacity [] h = refl
by_count_self capacity (e ∷ es) h = rw h

by_bytes-by_count :
    (capacity max_bytes : ℕ) (es : List CacheEntry)
    → by_bytes max_bytes (by_count capacity es) ≡ newest_fitting capacity max_bytes es
unfolding by_bytes by_count newest_fitting
by_bytes-by_count capacity max_bytes [] = refl
by_bytes-by_count capacity max_bytes (e ∷ es) =
    ground (arith, by_bytes-by_count capacity max_bytes es, by_count_self capacity es)

-- Where the byte count is the sum of the sizes, the two loops of `enforceLimits` keep the longest
-- run of the newest entries that is within both limits, with the sum of its sizes as the new count,
-- and change nothing else.
pub enforce_limits-newest_fitting :
    (c : Cache)
    → c.bytes ≡ pos (sum_sizes c.ll)
    → enforce_limits c ≡ record c {
      ll = newest_fitting c.capacity c.max_bytes c.ll;
      bytes = pos (sum_sizes (newest_fitting c.capacity c.max_bytes c.ll));
    }
unfolding enforce_limits
enforce_limits-newest_fitting c h =
    rw (h, evict_count-by_count c.capacity c.ll)
      (rw (evict_bytes-by_bytes c.max_bytes (by_count c.capacity c.ll))
        (rw (by_bytes-by_count c.capacity c.max_bytes c.ll)))

module _ (capacity max_bytes : ℕ) where
  pub newest_fitting_bounds :
      (es : List CacheEntry)
      → (0 < capacity → length (newest_fitting capacity max_bytes es) ≤ capacity)
        × (0 < max_bytes → sum_sizes (newest_fitting capacity max_bytes es) ≤ max_bytes)
  unfolding newest_fitting
  newest_fitting_bounds [] = omega arith
  newest_fitting_bounds (e ∷ es) = ground (arith, newest_fitting_bounds es)

  lookup-newest_fitting-none :
      (q : String) (es : List CacheEntry)
      → lookup q es ≡ none
      → lookup q (newest_fitting capacity max_bytes es) ≡ none
  unfolding newest_fitting lookup
  lookup-newest_fitting-none q [] h = refl
  lookup-newest_fitting-none q (e ∷ es) h = ground (arith, lookup-newest_fitting-none q es)

  pub Unique-newest_fitting :
      (es : List CacheEntry) → Unique es → Unique (newest_fitting capacity max_bytes es)
  unfolding newest_fitting
  Unique-newest_fitting [] u = u
  Unique-newest_fitting (e ∷ es) u = ground (arith, Unique-newest_fitting es u.1)

  newest_fitting_self :
      (es : List CacheEntry)
      → (0 < capacity → length es ≤ capacity)
      → (0 < max_bytes → sum_sizes es ≤ max_bytes)
      → newest_fitting capacity max_bytes es ≡ es
  unfolding newest_fitting
  newest_fitting_self [] h k = refl
  newest_fitting_self (e ∷ es) h k = ground arith

  pub All-newest_fitting {ℓ} :
      (P : CacheEntry → Type ℓ) (es : List CacheEntry)
      → All P es
      → All P (newest_fitting capacity max_bytes es)
  unfolding newest_fitting
  All-newest_fitting P [] h = h
  All-newest_fitting P (e ∷ es) h =
      choose (within capacity (length (e ∷ es)) && within max_bytes (sum_sizes (e ∷ es)))
        (All-newest_fitting P es h.1)
    where
      choose :
          (b : Bool)
          → All P (newest_fitting capacity max_bytes es)
          → All P (if b then e ∷ es else newest_fitting capacity max_bytes es)
      choose true r = h
      choose false r = r

  -- the newest entry stays, if it is not larger than the limit by itself
  pub lookup-newest_fitting_last :
      (es : List CacheEntry) (e : CacheEntry)
      → lookup e.path es ≡ none
      → within max_bytes e.size ≡ true
      → lookup e.path (newest_fitting capacity max_bytes (es ++ e ∷ [])) ≡ some e
  unfolding newest_fitting lookup
  lookup-newest_fitting_last [] e h w =
      let z : e.size + 0 ≡ e.size = omega arith in rw z (ground (arith, eq_refl e.path))
  lookup-newest_fitting_last (x ∷ es) e h w =
      ground (arith, eq_refl e.path, lookup-append e.path es e, lookup-newest_fitting_last es e)
