-- ===== src/SkillCache/Coherence.antt =====
-- What `SkillBodyCache` returns: the content of the file, as long as a file that changes also changes
-- its modification time; and in which order `Put` and `Get` keep the entries.
use neuralgentics_broker.Prelude.{
  ℕ, String, ◌≡◌, refl, sym, ap, ◌∙◌, inl, inr, true, false, ◌||◌, Option, none, some, List, [],
  ◌∷◌, ◌++◌, arith, eqb, Bool-cases, is_some, length, All,
}
use neuralgentics_broker.SkillCache.{
  put, Cache, CacheEntry, FileInfo, FileSystem, Reply, lookup, remove, remove_element,
  enforce_limits, load, refresh, serve, miss, get_found, get, put_found, time_or_zero, put_found,
  time_or_zero,
}
use neuralgentics_broker.SkillCache.Entries.{
  lookup-remove_self, remove_absent, path-lookup, All-remove, All-append, All-lookup,
}
use neuralgentics_broker.SkillCache.Limits.{
  within, lookup-newest_fitting_last, newest_fitting, enforce_limits-newest_fitting,
  All-newest_fitting,
}
use mathlib.Core.Path.{ap₂}
use neuralgentics_broker.SkillCache.Validity.{
  insert_new, IsValid, IsCounted, replace_swap, replace_drop_add, lookup-Holds,
}

-- What a file held at each of its modification times.
abbrev pub History : Type 0
History = String → ℕ → List ℕ

-- The file system reads what the file holds at the time that `Stat` reports.
abbrev pub Follows : FileSystem → History → Type 0
Follows fs content =
    (path : String) (info : FileInfo) (body : List ℕ)
    → fs.stat path ≡ some info
    → fs.read_file path ≡ some body
    → body ≡ content path info.mod_time

abbrev pub Faithful : History → CacheEntry → Type 0
Faithful content e = e.body ≡ content e.path e.mod_time

abbrev pub Coherent : History → Cache → Type 0
Coherent content c = All (Faithful content) c.ll

-- the reply is what the file holds now, or there is none
abbrev pub Current : History → FileSystem → String → Reply → Type 0
Current content fs path none = Unit
Current content fs path (some body) =
    (info : FileInfo) × (fs.stat path ≡ some info) × (body ≡ content path info.mod_time)

module _ (content : History) where
  enforce_limits-Coherent :
      (c : Cache) → IsCounted c → Coherent content c → Coherent content (enforce_limits c)
  enforce_limits-Coherent c v h =
      rw (enforce_limits-newest_fitting c v.counted)
        (All-newest_fitting c.capacity c.max_bytes (Faithful content) c.ll h)

  -- what a branch of `Get` leaves and returns
  abbrev Good : FileSystem → String → Cache × Reply → Type 0
  Good fs path r = Coherent content r.0 × Current content fs path r.1

  module _ (fs : FileSystem) (follows : Follows fs content) (c : Cache) (path : String)
      (v : IsValid c) (h : Coherent content c) where
    load-Good :
        (info : FileInfo) (body : Option (List ℕ))
        → fs.stat path ≡ some info
        → fs.read_file path ≡ body
        → lookup path c.ll ≡ none
        → Good fs path (load c path info body)
    load-Good info none s r absent = (h, tt)
    load-Good info (some body) s r absent =
        let fresh = follows path info body s r in
        let e : CacheEntry = record {
          path = path;
          body = body;
          mod_time = info.mod_time;
          size = info.size;
        } in
        (
          enforce_limits-Coherent _ (insert_new c e absent v)
              (All-append (Faithful content) c.ll e h fresh),
          (info, s, fresh),
        )

    refresh-Good :
        (e : CacheEntry) (info : FileInfo) (body : Option (List ℕ))
        → fs.stat path ≡ some info
        → fs.read_file path ≡ body
        → lookup path c.ll ≡ some e
        → Good fs path (refresh c e info body)
    unfolding remove_element
    refresh-Good e info none s r there = (All-remove (Faithful content) e.path c.ll h, tt)
    refresh-Good e info (some body) s r there =
        let fresh = follows path info body s r in
        let e' = record e { body = body; mod_time = info.mod_time; size = info.size } in
        let p : e.path ≡ path = path-lookup path c.ll {e = e} there in
        (
          enforce_limits-Coherent _ (replace_swap c e e' (lookup-Holds c path {e = e} there) refl v)
              (All-append (Faithful content) (remove e.path c.ll) e'
                (All-remove (Faithful content) e.path c.ll h)
                (fresh ∙ ap (λ q. content q info.mod_time) (sym p))),
          (info, s, fresh),
        )

    serve-Good :
        (e : CacheEntry) (found : Option FileInfo)
        → fs.stat path ≡ found
        → lookup path c.ll ≡ some e
        → Good fs path (serve fs c path e found)
    unfolding remove_element
    serve-Good e none s there = (All-remove (Faithful content) e.path c.ll h, tt)
    serve-Good e (some info) s there = elim (Bool-cases (eqb info.mod_time e.mod_time)) [
      | inl same ↦
          let f : Faithful content e = All-lookup (Faithful content) path c.ll {e = e} h there in
          let p : e.path ≡ path = path-lookup path c.ll {e = e} there in
          let t : info.mod_time ≡ e.mod_time = ground arith in
          rw (same, serve)
            (
              All-append (Faithful content) (remove e.path c.ll) e
                  (All-remove (Faithful content) e.path c.ll h) f,
              (info, s, f ∙ ap₂ content p (sym t)),
            )
      | inr stale ↦ rw (stale, serve) (refresh-Good e info (fs.read_file path) s refl there)
    ]

    miss-Good :
        (found : Option FileInfo)
        → fs.stat path ≡ found
        → lookup path c.ll ≡ none
        → Good fs path (miss fs c path found)
    miss-Good none s absent = (h, tt)
    miss-Good (some info) s absent = load-Good info (fs.read_file path) s refl absent

    get_found-Good :
        (found : Option CacheEntry)
        → lookup path c.ll ≡ found
        → Good fs path (get_found fs c path found)
    get_found-Good none absent = miss-Good (fs.stat path) refl absent
    get_found-Good (some e) there = serve-Good e (fs.stat path) refl there

-- If a file changes its content only together with its modification time, then `Get` never returns
-- a stale body: what it returns is what the file holds at the time that `Stat` reports in this very
-- call, whenever and however the entry was cached; and the cache stays coherent for the next call.
pub get-Current :
    (content : History) (fs : FileSystem) (c : Cache) (path : String)
    → Follows fs content
    → IsValid c
    → Coherent content c
    → Coherent content (get fs c path).0 × Current content fs path (get fs c path).1
unfolding get
get-Current content fs c path follows v h =
    get_found-Good content fs follows c path v h (lookup path c.ll) refl

-- `Get` answers exactly when the file is there and is cached under its present time or can be read.
get-is_some :
    (fs : FileSystem) (c : Cache) (path : String)
    → is_some (get fs c path).1 ≡ elim (fs.stat path) [
      | none ↦ false
      | some info ↦ elim (lookup path c.ll) [
        | none ↦ is_some (fs.read_file path)
        | some e ↦ eqb info.mod_time e.mod_time || is_some (fs.read_file path)
      ]
    ]
unfolding get
get-is_some fs c path = ground arith

-- the entry that `Put` stores
abbrev pub stored : FileSystem → String → List ℕ → CacheEntry
stored fs path body = record {
  path = path;
  body = body;
  mod_time = time_or_zero (fs.stat path);
  size = length body;
}

put_found-lem :
    (c : Cache) (e : CacheEntry) (found : Option CacheEntry)
    → IsValid c
    → lookup e.path c.ll ≡ found
    → (put_found c e found).ll
      ≡ newest_fitting c.capacity c.max_bytes (remove e.path c.ll ++ e ∷ [])
put_found-lem c e none v absent =
    ap (λ (d : Cache). d.ll) (enforce_limits-newest_fitting _ (insert_new c e absent v).counted)
    ∙ ap (λ es. newest_fitting c.capacity c.max_bytes (es ++ e ∷ []))
        (sym (remove_absent e.path c.ll absent))
put_found-lem c e (some old) v there =
    let p : old.path ≡ e.path = path-lookup e.path c.ll {e = old} there in
    ap (λ (d : Cache). d.ll)
      (enforce_limits-newest_fitting _
        (replace_drop_add c old e (lookup-Holds c e.path {e = old} there) (sym p) v).counted)
    ∙ ap (λ q. newest_fitting c.capacity c.max_bytes (remove q c.ll ++ e ∷ [])) p

-- On a valid cache `Put` makes the entry the newest, in the place of the one that the path had, and
-- keeps the longest run of the newest entries within both limits: the least recently used go first.
put-newest_fitting :
    (fs : FileSystem) (c : Cache) (path : String) (body : List ℕ)
    → IsValid c
    → (put fs c path body).ll
      ≡ newest_fitting c.capacity c.max_bytes (remove path c.ll ++ stored fs path body ∷ [])
unfolding put
put-newest_fitting fs c path body v =
    put_found-lem c (stored fs path body) (lookup path c.ll) v refl

-- If the cache is valid and the body alone is within the byte limit, the entry that was put is there
-- afterwards.
lookup-put :
    (fs : FileSystem) (c : Cache) (path : String) (body : List ℕ)
    → IsValid c
    → within c.max_bytes (length body) ≡ true
    → lookup path (put fs c path body).ll ≡ some (stored fs path body)
lookup-put fs c path body v w =
    ap (lookup path) (put-newest_fitting fs c path body v)
    ∙ lookup-newest_fitting_last c.capacity c.max_bytes (remove path c.ll) (stored fs path body)
        (lookup-remove_self path c.ll v.unique) w
