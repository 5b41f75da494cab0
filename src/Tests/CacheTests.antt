-- ===== src/Tests/CacheTests.antt =====
-- The skill body cache at concrete inputs.
use neuralgentics_broker.Prelude.{
  ◌≡◌, refl, sym, ap, Option, some, [], ◌∷◌, arith, eqb, if◌then◌else◌,
}
use neuralgentics_broker.Prelude.Int.{pos}
use neuralgentics_broker.SkillCache.{
  time_or_zero, FileInfo, FileSystem, CacheEntry, Cache, lookup, enforce_limits, get as cached,
  put as put_body, invalidate, invalidate_all, new_skill_body_cache,
}
use neuralgentics_broker.SkillCache.Entries.{sum_sizes}
use neuralgentics_broker.SkillCache.Limits.{newest_fitting, enforce_limits-newest_fitting}
use neuralgentics_broker.SkillCache.Validity.{IsValid, get-IsValid, methods-IsValid}
use neuralgentics_broker.SkillCache.Coherence.{History, Follows, Coherent, Current, get-Current}

-- every file holds three bytes, and has the time 7
abbrev disk : FileSystem
disk = record {
  stat = λ path. some (record { mod_time = 7; size = 3 });
  read_file = λ path. some (1 ∷ 2 ∷ 3 ∷ []);
}

abbrev history : History
history path time = if eqb time 7 then 1 ∷ 2 ∷ 3 ∷ [] else []

disk-Follows : Follows disk history
disk-Follows path info body s r =
    let time : info.mod_time ≡ 7 = ap (λ (o : Option FileInfo). time_or_zero o) (sym s) in
    let whole : body ≡ 1 ∷ 2 ∷ 3 ∷ [] = cc in rw time whole

abbrev old_entry : CacheEntry
old_entry = record { path = "a"; body = []; mod_time = 5; size = 4 }

abbrev one_cached : Cache
one_cached = record {
  capacity = 1;
  max_bytes = 10;
  ll = old_entry ∷ [];
  bytes = pos 4;
  hits = 0;
  misses = 1;
}

abbrev two_cached : Cache
two_cached = record one_cached {
  ll = old_entry ∷ record old_entry { path = "b" } ∷ [];
  bytes = pos 8;
}

one_cached-IsValid : IsValid one_cached
unfolding lookup
one_cached-IsValid = record {
  unique = (refl, tt);
  counted = refl;
  few = λ k. omega arith;
  small = λ k. omega arith;
}

enforce_limits-newest_fitting_example : enforce_limits two_cached ≡ record two_cached {
  ll = newest_fitting 1 10 two_cached.ll;
  bytes = pos (sum_sizes (newest_fitting 1 10 two_cached.ll));
}
enforce_limits-newest_fitting_example = enforce_limits-newest_fitting two_cached refl

get-IsValid_example : IsValid (cached disk one_cached "b").0
get-IsValid_example = get-IsValid disk one_cached "b" one_cached-IsValid

methods-IsValid_example :
    IsValid (put_body disk one_cached "b" (9 ∷ []))
    × IsValid (invalidate one_cached "b")
    × IsValid (invalidate_all one_cached)
    × IsValid (new_skill_body_cache 4 100)
methods-IsValid_example = methods-IsValid disk one_cached "b" (9 ∷ []) 4 100 one_cached-IsValid

get-Current_example :
    Coherent history (cached disk one_cached "a").0
    × Current history disk "a" (cached disk one_cached "a").1
get-Current_example =
    get-Current history disk one_cached "a" disk-Follows one_cached-IsValid (refl, tt)
