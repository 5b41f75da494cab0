-- ===== src/Clients/Environment/Values.antt =====
-- What a subprocess finds in the environments of launcher/launcher.go and proxy/proxy.go.
use neuralgentics_broker.Prelude.{
  String, ◌≡◌, refl, sym, ap, ◌∙◌, inl, inr, Bool, true, false, Option, none, some, List, [], ◌∷◌,
  ◌++◌, arith, ◌==◌, eq_iff, eqb, if◌then◌else◌, Bool-cases, Dict, get, has_key, IsMap, has_key-get,
}
use neuralgentics_broker.Types.{Env}
use neuralgentics_broker.Registry.Names.{split_once}
use Prim.Native.Char.{code}
use neuralgentics_broker.Clients.Environment.{
  env_entry, append_env, command_env, is_http_only, filter_env, build_env, effective, value_of,
  or_else, value_in, has_no_equals, HasPlainKeys,
}

split_once-env_entry :
    (k v : String) → has_no_equals k ≡ true → split_once b'=' (env_entry k v) ≡ k ∷ v ∷ []
unfolding split_once env_entry
split_once-env_entry String.[] v h = refl
split_once-env_entry (String.◌∷◌ c k) v h = elim (Bool-cases (eqb (code c) b'=')) [
  | inl is_equals ↦ absurd (ground (arith, h, is_equals))
  | inr other ↦ rw (other, split_once-env_entry k v (ground (arith, h))) refl
]

or_else-none : (o : Option String) → o ≡ or_else o none
or_else-none none = refl
or_else-none (some v) = refl

or_else_assoc : (o p q : Option String) → or_else (or_else o p) q ≡ or_else o (or_else p q)
or_else_assoc none p q = refl
or_else_assoc (some v) p q = refl

value_in-append :
    (k e : String) (es : List String)
    → value_in k (es ++ e ∷ []) ≡ or_else (value_of k (split_once b'=' e)) (value_in k es)
unfolding value_in
value_in-append k e [] = or_else-none (value_of k (split_once b'=' e))
value_in-append k e (x ∷ es) = rw (value_in-append k e es) (
    or_else_assoc (value_of k (split_once b'=' e)) (value_in k es) (value_of k (split_once b'=' x)))

-- an entry that is added at the end
value_in-entry :
    (k j v : String) (es : List String)
    → has_no_equals j ≡ true
    → value_in k (es ++ env_entry j v ∷ []) ≡ (if j == k then some v else value_in k es)
value_in-entry k j v es plain =
    value_in-append k (env_entry j v) es
    ∙ ap (λ (ps : List String). or_else (value_of k ps) (value_in k es))
        (split_once-env_entry j v plain)
    ∙ by_key (j == k)
  where
    by_key :
        (b : Bool)
        → or_else (if b then some v else none) (value_in k es)
          ≡ (if b then some v else value_in k es)
    by_key true = refl
    by_key false = refl

absent : (j k : String) (m : Dict String) → has_key j m ≡ false → (j == k) ≡ true → get k m ≡ none
absent j k m h same = ground (arith, has_key-get k m, eq_iff j k, h, same)

value_in-append_env :
    (k : String) (m : Dict String) (es : List String)
    → IsMap m
    → HasPlainKeys m
    → value_in k (append_env es m) ≡ or_else (get k m) (value_in k es)
unfolding append_env
value_in-append_env k [] es u plain = refl
value_in-append_env k ((j, v) ∷ m) es u plain =
    value_in-append_env k m (es ++ env_entry j v ∷ []) u.1 plain.1
    ∙ ap (or_else (get k m)) (value_in-entry k j v es plain.0)
    ∙ elim (Bool-cases (j == k)) [
      | inl same ↦ rw (same, absent j k m u.0 same) refl
      | inr other ↦ rw other refl
    ]

-- the value that a configuration gives to a key, without those for HTTP
abbrev pub plain_value : String → Dict String → Option String
plain_value k m = if is_http_only k then none else get k m

skipped :
    (j k v : String) (m : Dict String)
    → is_http_only j ≡ true
    → plain_value k ((j, v) ∷ m) ≡ plain_value k m
skipped j k v m only = ground (arith, only, eq_iff j k)

taken :
    (j k v : String) (m : Dict String) (o : Option String)
    → has_key j m ≡ false
    → is_http_only j ≡ false
    → or_else (plain_value k m) (if j == k then some v else o)
      ≡ or_else (plain_value k ((j, v) ∷ m)) o
taken j k v m o fresh free = elim (Bool-cases (j == k)) [
  | inl same ↦ let gone = absent j k m fresh same in ground (arith, same, eq_iff j k, free, gone)
  | inr other ↦ rw other refl
]

value_in-filter_env :
    (k : String) (m : Dict String) (es : List String)
    → IsMap m
    → HasPlainKeys m
    → value_in k (filter_env es m) ≡ or_else (plain_value k m) (value_in k es)
unfolding filter_env
value_in-filter_env k [] es u plain = no_value (is_http_only k)
  where
    no_value : (b : Bool) → value_in k es ≡ or_else (if b then none else none) (value_in k es)
    no_value true = refl
    no_value false = refl
value_in-filter_env k ((j, v) ∷ m) es u plain = elim (Bool-cases (is_http_only j)) [
  | inl only ↦
      ap (λ b. value_in k (filter_env (if b then es else es ++ env_entry j v ∷ []) m)) only
      ∙ value_in-filter_env k m es u.1 plain.1
      ∙ ap (λ o. or_else o (value_in k es)) (sym (skipped j k v m only))
  | inr free ↦
      ap (λ b. value_in k (filter_env (if b then es else es ++ env_entry j v ∷ []) m)) free
      ∙ value_in-filter_env k m (es ++ env_entry j v ∷ []) u.1 plain.1
      ∙ ap (or_else (plain_value k m)) (value_in-entry k j v es plain.0)
      ∙ taken j k v m (value_in k es) u.0 free
]

abbrev pub IsPlain : Env → Type 0
IsPlain none = Unit
IsPlain (some m) = IsMap m × HasPlainKeys m

abbrev pub given : String → Env → Option String
given k none = none
given k (some m) = get k m

-- If the keys of a configuration hold no equals sign, a subprocess of `BuildCommand` finds the configuration's
-- value of each key and else that of the current environment, and one that gets its environment from
-- `buildEnv` finds the same, but for the two variables for HTTP, which the configuration does not change.
pub build_env_lem :
    (environ : List String) (env : Env) (k : String)
    → IsPlain env
    → (value_in k (effective environ (command_env environ env))
        ≡ or_else (given k env) (value_in k environ))
      × (value_in k (build_env environ env)
          ≡ or_else (if is_http_only k then none else given k env) (value_in k environ))
build_env_lem environ none k h = (refl, by_kind (is_http_only k))
  where
    by_kind :
        (b : Bool) → value_in k environ ≡ or_else (if b then none else none) (value_in k environ)
    by_kind true = refl
    by_kind false = refl
build_env_lem environ (some []) k h = (refl, value_in-filter_env k [] environ h.0 h.1)
build_env_lem environ (some ((j, v) ∷ m)) k h = (
  value_in-append_env k ((j, v) ∷ m) environ h.0 h.1,
  value_in-filter_env k ((j, v) ∷ m) environ h.0 h.1,
)
