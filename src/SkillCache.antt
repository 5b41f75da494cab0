-- ===== src/SkillCache.antt =====
-- catalog/skill_cache.go: `SkillBodyCache`. The list `ll` and the map `entries` always hold the same
-- elements, so they are one list here, oldest first; a key stands in it at most once. Every method
-- holds the lock for its whole body. A negative limit behaves as 0, which is no limit. The file
-- system of a call is an argument: a path is missing, or has a modification time and a size, and may
-- fail to be read.
pub mod Entries
pub mod Limits
pub mod Validity
pub mod Coherence
use neuralgentics_broker.Prelude.{
  ℕ, zero, suc, ◌+◌, ◌-◌, ◌*◌, ◌/◌, ◌%◌, ◌^◌, ◌≤◌, ◌<◌, String, ◌≡◌, refl, sym, ap, ◌∙◌, ◌≢◌, ◌↔◌,
  ◌⊎◌, inl, inr, Bool, true, false, not, ◌&&◌, ◌||◌, Option, none, some, List, [], ◌∷◌, ◌++◌, map,
  reverse, arith, ◌==◌, eq_iff, eq_refl, ltb, leb, eqb, if◌then◌else◌, Bool-cases, Option-cases,
  is_some, Result, is_ok, ok, err, length, is_empty, keep_if, take, All, length-append,
  length-keep_if, All-keep_if, elem, elem-append, elem-keep_if, Dict, delete, keys, has_key, IsMap,
  get-put, get-delete, has_key-get, has_key-put, has_key-delete, put-IsMap, delete-IsMap, dict_laws,
  text_le, text_le_total, sort_strings, IsSorted, sort_strings-IsSorted, elem-sort_strings, encode,
  later, last_index, last_index-lt,
}
use neuralgentics_broker.Prelude.Int.{ℤ, pos, ◌+ℤ◌, ◌-ℤ◌, ltb_ℤ}

pub record FileInfo : Type 0 where
  pub mod_time : ℕ
  pub size : ℕ

-- `os.Stat` and `os.ReadFile`, as they answer during one call
pub record FileSystem : Type 0 where
  pub stat : String → Option FileInfo
  pub read_file : String → Option (List ℕ)

pub record CacheEntry : Type 0 where
  pub path : String
  pub body : List ℕ
  pub mod_time : ℕ
  pub size : ℕ

pub record Cache : Type 0 where
  pub capacity : ℕ
  pub max_bytes : ℕ
  pub ll : List CacheEntry
  pub bytes : ℤ
  pub hits : ℕ
  pub misses : ℕ

abbrev pub new_skill_body_cache : ℕ → ℕ → Cache
new_skill_body_cache capacity max_bytes = record {
  capacity = capacity;
  max_bytes = max_bytes;
  ll = [];
  bytes = pos 0;
  hits = 0;
  misses = 0;
}

-- a counter of type uint64
abbrev pub bump : ℕ → ℕ
bump n = (n + 1) % 2 ^ 64

-- `c.entries[path]`
unfoldable pub lookup : String → List CacheEntry → Option CacheEntry
lookup path [] = none
lookup path (e ∷ es) = if e.path == path then some e else lookup path es

-- `c.ll.Remove(elem)` for the element with this path
unfoldable pub remove : String → List CacheEntry → List CacheEntry
remove path [] = []
remove path (e ∷ es) = let rest = remove path es in if e.path == path then es else e ∷ rest

-- `removeElement`
unfoldable pub remove_element : Cache → CacheEntry → Cache
unfolding remove ◌-ℤ◌
remove_element c e = record c { bytes = c.bytes -ℤ pos e.size; ll = remove e.path c.ll }

-- The first loop of `enforceLimits`, on the list and the bytes: while there is a limit and the list
-- is longer, the front goes.
unfoldable pub evict_count : ℕ → List CacheEntry → ℤ → List CacheEntry × ℤ
unfolding ◌-ℤ◌
evict_count capacity [] bytes = ([], bytes)
evict_count capacity (e ∷ es) bytes =
    let rest = evict_count capacity es (bytes -ℤ pos e.size) in
    if ltb 0 capacity && ltb capacity (length (e ∷ es)) then rest else (e ∷ es, bytes)

-- The second loop: while there is a limit and the bytes are above it, the front goes.
unfoldable pub evict_bytes : ℕ → List CacheEntry → ℤ → List CacheEntry × ℤ
unfolding ◌-ℤ◌
evict_bytes max_bytes [] bytes = ([], bytes)
evict_bytes max_bytes (e ∷ es) bytes =
    let rest = evict_bytes max_bytes es (bytes -ℤ pos e.size) in
    if ltb 0 max_bytes && ltb_ℤ (pos max_bytes) bytes then rest else (e ∷ es, bytes)

-- `enforceLimits`
unfoldable pub enforce_limits : Cache → Cache
unfolding evict_count evict_bytes
enforce_limits c =
    let (kept, left) = evict_count c.capacity c.ll c.bytes in
    let (ll, bytes) = evict_bytes c.max_bytes kept left in record c { ll = ll; bytes = bytes }

-- What `Get` returns: the body, or a miss.
abbrev pub Reply : Type 0
Reply = Option (List ℕ)

-- the end of `Get` where the file was not cached
abbrev pub load : Cache → String → FileInfo → Option (List ℕ) → Cache × Reply
load c path info none = (record c { misses = bump c.misses }, none)
load c path info (some body) =
    let e : CacheEntry = record {
      path = path;
      body = body;
      mod_time = info.mod_time;
      size = info.size;
    } in
    let c' = enforce_limits (record c { ll = c.ll ++ e ∷ []; bytes = c.bytes +ℤ pos e.size }) in
    (record c' { misses = bump c'.misses }, some body)

-- the branch of `Get` for a cached file with another modification time
abbrev pub refresh : Cache → CacheEntry → FileInfo → Option (List ℕ) → Cache × Reply
refresh c entry info none =
    let c' = remove_element c entry in (record c' { misses = bump c'.misses }, none)
refresh c entry info (some body) =
    let e = record entry { body = body; mod_time = info.mod_time; size = info.size } in
    let c' = enforce_limits (record c {
      ll = remove entry.path c.ll ++ e ∷ [];
      bytes = c.bytes +ℤ (pos info.size -ℤ pos entry.size);
    }) in
    (record c' { hits = bump c'.hits }, some body)

-- the branch of `Get` for a cached file, by what `os.Stat` says
abbrev pub serve : FileSystem → Cache → String → CacheEntry → Option FileInfo → Cache × Reply
serve fs c path entry none =
    let c' = remove_element c entry in (record c' { misses = bump c'.misses }, none)
serve fs c path entry (some info) = elim (eqb info.mod_time entry.mod_time) [
  | false ↦ refresh c entry info (fs.read_file path)
  | true ↦
      (record c { ll = remove entry.path c.ll ++ entry ∷ []; hits = bump c.hits }, some entry.body)
]

-- the branch of `Get` for a file that is not cached
abbrev pub miss : FileSystem → Cache → String → Option FileInfo → Cache × Reply
miss fs c path none = (record c { misses = bump c.misses }, none)
miss fs c path (some info) = load c path info (fs.read_file path)

abbrev pub get_found : FileSystem → Cache → String → Option CacheEntry → Cache × Reply
get_found fs c path none = miss fs c path (fs.stat path)
get_found fs c path (some entry) = serve fs c path entry (fs.stat path)

-- `Get`
unfoldable pub get : FileSystem → Cache → String → Cache × Reply
unfolding lookup remove remove_element enforce_limits ◌+ℤ◌ ◌-ℤ◌
get fs c path = get_found fs c path (lookup path c.ll)

-- the modification time that `Put` stores; the zero time is 0
abbrev pub time_or_zero : Option FileInfo → ℕ
time_or_zero none = 0
time_or_zero (some info) = info.mod_time

abbrev pub put_found : Cache → CacheEntry → Option CacheEntry → Cache
put_found c e none =
    enforce_limits (record c { ll = c.ll ++ e ∷ []; bytes = c.bytes +ℤ pos e.size })
put_found c e (some entry) = enforce_limits (record c {
  ll = remove entry.path c.ll ++ e ∷ [];
  bytes = c.bytes -ℤ pos entry.size +ℤ pos e.size;
})

-- `Put`; `len(body)` is the number of bytes
unfoldable pub put : FileSystem → Cache → String → List ℕ → Cache
unfolding lookup remove enforce_limits ◌+ℤ◌ ◌-ℤ◌
put fs c path body =
    let e : CacheEntry = record {
      path = path;
      body = body;
      mod_time = time_or_zero (fs.stat path);
      size = length body;
    } in
    put_found c e (lookup path c.ll)

abbrev pub invalidate_found : Cache → Option CacheEntry → Cache
invalidate_found c none = c
invalidate_found c (some e) = remove_element c e

-- `Invalidate`
unfoldable pub invalidate : Cache → String → Cache
unfolding lookup remove_element
invalidate c path = invalidate_found c (lookup path c.ll)

-- `InvalidateAll`
unfoldable pub invalidate_all : Cache → Cache
invalidate_all c = record c { ll = []; bytes = pos 0 }

pub record CacheStats : Type 0 where
  pub entries : ℕ
  pub bytes : ℤ
  pub hits : ℕ
  pub misses : ℕ

-- `Stats`
unfoldable pub stats : Cache → CacheStats
stats c = record { entries = length c.ll; bytes = c.bytes; hits = c.hits; misses = c.misses }
