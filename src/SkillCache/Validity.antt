-- ===== src/SkillCache/Validity.antt =====
-- The invariant of `SkillBodyCache`, which every method keeps: each path once, a byte count that is
-- the sum of the sizes, and both limits met.
use neuralgentics_broker.Prelude.{
  ℕ, ◌+◌, ◌-◌, ◌≤◌, ◌<◌, String, ◌≡◌, refl, sym, ap, ◌∙◌, inl, inr, Option, none, some, List, [],
  ◌∷◌, ◌++◌, arith, eqb, Bool-cases, Option-cases, length, length-append,
}
use neuralgentics_broker.Prelude.Int.{◌-ℤ◌, pos, ◌+ℤ◌, +ℤ_pos, -ℤ_pos}
use neuralgentics_broker.SkillCache.{
  invalidate_found, time_or_zero, new_skill_body_cache, get, put, invalidate, invalidate_all, serve,
  miss, put_found, FileSystem, refresh, load, FileInfo, Cache, CacheEntry, lookup, remove,
  remove_element, enforce_limits,
}
use neuralgentics_broker.SkillCache.Entries.{
  sum_sizes, Unique, sum_sizes-append, path-lookup, sum_sizes-remove, length-remove,
  lookup-remove_self, Unique-remove, Unique-append,
}
use neuralgentics_broker.SkillCache.Limits.{
  enforce_limits-newest_fitting, newest_fitting_bounds, Unique-newest_fitting,
}

pub record IsValid (c : Cache) : Type 0 where
  pub unique : Unique c.ll
  pub counted : c.bytes ≡ pos (sum_sizes c.ll)
  pub few : 0 < c.capacity → length c.ll ≤ c.capacity
  pub small : 0 < c.max_bytes → sum_sizes c.ll ≤ c.max_bytes

-- the state between an insertion and `enforceLimits`
pub record IsCounted (c : Cache) : Type 0 where
  pub unique : Unique c.ll
  pub counted : c.bytes ≡ pos (sum_sizes c.ll)

enforce_limits-IsValid : (c : Cache) → IsCounted c → IsValid (enforce_limits c)
enforce_limits-IsValid c v = rw (enforce_limits-newest_fitting c v.counted) (record {
  unique = Unique-newest_fitting c.capacity c.max_bytes c.ll v.unique;
  counted = refl;
  few = (newest_fitting_bounds c.capacity c.max_bytes c.ll).0;
  small = (newest_fitting_bounds c.capacity c.max_bytes c.ll).1;
})

recount :
    (c : Cache) (hits misses : ℕ) → IsValid c → IsValid (record c { hits = hits; misses = misses })
recount c hits misses v = record {
  unique = v.unique;
  counted = v.counted;
  few = v.few;
  small = v.small;
}

-- a cached entry, found under its own path
abbrev Holds : Cache → CacheEntry → Type 0
Holds c e = lookup e.path c.ll ≡ some e

remove_element-IsValid :
    (c : Cache) (e : CacheEntry) → Holds c e → IsValid c → IsValid (remove_element c e)
unfolding remove_element
remove_element-IsValid c e h v =
    let s = sum_sizes-remove e.path c.ll {e = e} h in
    record {
      unique = Unique-remove e.path c.ll v.unique;
      counted = rw (v.counted, -ℤ_pos (sum_sizes c.ll) e.size (omega arith)) (ap pos (omega arith));
      few = λ k. omega (arith, length-remove e.path c.ll {e = e} h, v.few k);
      small = λ k. omega (arith, v.small k);
    }

-- the list with a new entry at its new end, and the count adjusted
pub insert_new :
    (c : Cache) (e : CacheEntry)
    → lookup e.path c.ll ≡ none
    → IsValid c
    → IsCounted (record c { ll = c.ll ++ e ∷ []; bytes = c.bytes +ℤ pos e.size })
insert_new c e h v = record {
  unique = Unique-append c.ll e v.unique h;
  counted =
      rw (v.counted, +ℤ_pos (sum_sizes c.ll) e.size)
        (ap pos (omega (arith, sum_sizes-append c.ll (e ∷ []))));
}

Unique-moved :
    (path : String) (es : List CacheEntry) (e : CacheEntry)
    → e.path ≡ path
    → Unique es
    → Unique (remove path es ++ e ∷ [])
Unique-moved path es e p u =
    Unique-append (remove path es) e (Unique-remove path es u) (rw p (lookup-remove_self path es u))

sum_sizes-moved :
    (path : String) (es : List CacheEntry) {old : CacheEntry} (e : CacheEntry)
    → lookup path es ≡ some old
    → sum_sizes (remove path es ++ e ∷ []) + old.size ≡ sum_sizes es + e.size
sum_sizes-moved path es {old} e h =
    omega (arith, sum_sizes-append (remove path es) (e ∷ []), sum_sizes-remove path es {e = old} h)

-- two ways to write the change of the count
swap_size : (n old new : ℕ) → old ≤ n → pos n +ℤ (pos new -ℤ pos old) ≡ pos (n - old + new)
unfolding ◌+ℤ◌ ◌-ℤ◌
swap_size n old new h = ground arith

drop_add : (n old new : ℕ) → old ≤ n → pos n -ℤ pos old +ℤ pos new ≡ pos (n - old + new)
unfolding ◌+ℤ◌ ◌-ℤ◌
drop_add n old new h = ground arith

module _ (c : Cache) (old e : CacheEntry) (h : Holds c old) (p : e.path ≡ old.path)
    (v : IsValid c) where
  old-le : old.size ≤ sum_sizes c.ll
  old-le = omega (arith, sum_sizes-remove old.path c.ll {e = old} h)

  sum-replaced : sum_sizes c.ll - old.size + e.size ≡ sum_sizes (remove old.path c.ll ++ e ∷ [])
  sum-replaced = omega (
    arith,
    sum_sizes-moved old.path c.ll {old = old} e h,
    sum_sizes-remove old.path c.ll {e = old} h,
  )

  pub replace_swap : IsCounted (record c {
    ll = remove old.path c.ll ++ e ∷ [];
    bytes = c.bytes +ℤ (pos e.size -ℤ pos old.size);
  })
  replace_swap = record {
    unique = Unique-moved old.path c.ll e p v.unique;
    counted =
        rw (v.counted, swap_size (sum_sizes c.ll) old.size e.size old-le) (ap pos sum-replaced);
  }

  pub replace_drop_add : IsCounted (record c {
    ll = remove old.path c.ll ++ e ∷ [];
    bytes = c.bytes -ℤ pos old.size +ℤ pos e.size;
  })
  replace_drop_add = record {
    unique = Unique-moved old.path c.ll e p v.unique;
    counted =
        rw (v.counted, drop_add (sum_sizes c.ll) old.size e.size old-le) (ap pos sum-replaced);
  }

-- an entry that is used moves to the new end
use-IsValid :
    (c : Cache) (e : CacheEntry)
    → Holds c e
    → IsValid c
    → IsValid (record c { ll = remove e.path c.ll ++ e ∷ [] })
use-IsValid c e h v = record {
  unique = Unique-moved e.path c.ll e refl v.unique;
  counted = v.counted ∙ ap pos (omega (arith, sum_sizes-moved e.path c.ll {old = e} e h));
  few = λ k. omega (
    arith,
    length-append (remove e.path c.ll) (e ∷ []),
    length-remove e.path c.ll {e = e} h,
    v.few k,
  );
  small = λ k. omega (arith, sum_sizes-moved e.path c.ll {old = e} e h, v.small k);
}

load-IsValid :
    (c : Cache) (path : String) (info : FileInfo) (body : Option (List ℕ))
    → lookup path c.ll ≡ none
    → IsValid c
    → IsValid (load c path info body).0
load-IsValid c path info none h v = recount c c.hits _ v
load-IsValid c path info (some body) h v =
    let e : CacheEntry = record {
      path = path;
      body = body;
      mod_time = info.mod_time;
      size = info.size;
    } in
    recount _ _ _ (enforce_limits-IsValid _ (insert_new c e h v))

refresh-IsValid :
    (c : Cache) (entry : CacheEntry) (info : FileInfo) (body : Option (List ℕ))
    → Holds c entry
    → IsValid c
    → IsValid (refresh c entry info body).0
refresh-IsValid c entry info none h v = recount _ _ _ (remove_element-IsValid c entry h v)
refresh-IsValid c entry info (some body) h v =
    let e = record entry { body = body; mod_time = info.mod_time; size = info.size } in
    recount _ _ _ (enforce_limits-IsValid _ (replace_swap c entry e h refl v))

serve-IsValid :
    (fs : FileSystem) (c : Cache) (path : String) (entry : CacheEntry) (found : Option FileInfo)
    → Holds c entry
    → IsValid c
    → IsValid (serve fs c path entry found).0
serve-IsValid fs c path entry none h v = recount _ _ _ (remove_element-IsValid c entry h v)
serve-IsValid fs c path entry (some info) h v =
    elim (Bool-cases (eqb info.mod_time entry.mod_time)) [
      | inl same ↦ rw (same, serve) (recount _ _ c.misses (use-IsValid c entry h v))
      | inr stale ↦ rw (stale, serve) (refresh-IsValid c entry info (fs.read_file path) h v)
    ]

miss-IsValid :
    (fs : FileSystem) (c : Cache) (path : String) (found : Option FileInfo)
    → lookup path c.ll ≡ none
    → IsValid c
    → IsValid (miss fs c path found).0
miss-IsValid fs c path none h v = recount c c.hits _ v
miss-IsValid fs c path (some info) h v = load-IsValid c path info (fs.read_file path) h v

-- an entry that a lookup finds is found under its own path
pub lookup-Holds :
    (c : Cache) (path : String) {e : CacheEntry} → lookup path c.ll ≡ some e → Holds c e
lookup-Holds c path {e} h = ap (λ p. lookup p c.ll) (path-lookup path c.ll {e = e} h) ∙ h

-- `Get` keeps the invariant, whatever the file system answers: missing file, changed file, failed
-- read, hit or miss, and an eviction of any number of entries.
pub get-IsValid :
    (fs : FileSystem) (c : Cache) (path : String) → IsValid c → IsValid (get fs c path).0
unfolding get
get-IsValid fs c path v = elim (Option-cases (lookup path c.ll)) [
  | inl absent ↦ rw absent (miss-IsValid fs c path (fs.stat path) absent v)
  | inr (e, there) ↦
      rw there (serve-IsValid fs c path e (fs.stat path) (lookup-Holds c path {e = e} there) v)
]

put_found-IsValid :
    (c : Cache) (e : CacheEntry) (found : Option CacheEntry)
    → lookup e.path c.ll ≡ found
    → IsValid c
    → IsValid (put_found c e found)
put_found-IsValid c e none h v = enforce_limits-IsValid _ (insert_new c e h v)
put_found-IsValid c e (some old) h v = enforce_limits-IsValid _ (
    replace_drop_add c old e (lookup-Holds c e.path {e = old} h)
      (sym (path-lookup e.path c.ll {e = old} h)) v)

-- `Put`, `Invalidate` and `InvalidateAll` keep the invariant, and a new cache has it.
pub methods-IsValid :
    (fs : FileSystem) (c : Cache) (path : String) (body : List ℕ) (capacity max_bytes : ℕ)
    → IsValid c
    → IsValid (put fs c path body)
      × IsValid (invalidate c path)
      × IsValid (invalidate_all c)
      × IsValid (new_skill_body_cache capacity max_bytes)
unfolding put invalidate invalidate_all
methods-IsValid fs c path body capacity max_bytes v = (
  put_found-IsValid c
      (record {
        path = path;
        body = body;
        mod_time = time_or_zero (fs.stat path);
        size = length body;
      })
      (lookup path c.ll) refl v,
  elim (Option-cases (lookup path c.ll)) [
    | inl absent ↦ rw (absent, invalidate_found) v
    | inr (e, there) ↦
        rw (there, invalidate_found)
          (remove_element-IsValid c e (lookup-Holds c path {e = e} there) v)
  ],
  record { unique = tt; counted = refl; few = λ _. omega arith; small = λ _. omega arith },
  record { unique = tt; counted = refl; few = λ _. omega arith; small = λ _. omega arith },
)
