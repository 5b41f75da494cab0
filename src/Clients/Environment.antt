-- ===== src/Clients/Environment.antt =====
-- The environment that a subprocess gets: `BuildCommand` of launcher/launcher.go and `buildEnv` of
-- proxy/proxy.go. An entry is a text `key=value`; of several entries with one key the last counts, as
-- documented of os/exec, which passes on the current environment if it is given none.
pub mod Values
use neuralgentics_broker.Prelude.{
  ℕ, zero, suc, ◌+◌, ◌-◌, ◌*◌, ◌/◌, ◌%◌, ◌^◌, ◌≤◌, ◌<◌, String, ◌≡◌, refl, sym, ap, ◌∙◌, ◌≢◌, ◌↔◌,
  ◌⊎◌, inl, inr, Bool, true, false, not, ◌&&◌, ◌||◌, Option, none, some, List, [], ◌∷◌, ◌++◌, map,
  reverse, arith, ◌==◌, eq_iff, eq_refl, ltb, leb, eqb, if◌then◌else◌, Bool-cases, Option-cases,
  is_some, Result, is_ok, put_at, ok, err, length, is_empty, keep_if, take, All, length-append,
  length-keep_if, All-keep_if, Listed, All-Listed, Listed-All, keep_if-Listed, All-keep_if_tested,
  elem, elem-append, elem-keep_if, Dict, get, put, delete, keys, has_key, IsMap, get-put,
  get-delete, has_key-get, has_key-put, has_key-delete, put-IsMap, delete-IsMap, dict_laws, text_le,
  text_le_total, sort_strings, IsSorted, sort_strings-IsSorted, elem-sort_strings, encode, bytes,
  later, last_index, last_index-lt, eq_bytes, drop, starts_with, contains, has_suffix, one_more,
  index,
}
use Prim.Native.Char.{code}
use neuralgentics_broker.Types.{Env, mcp_url}
use neuralgentics_broker.Registry.Names.{split_once}

-- `k+"="+v`
unfoldable pub env_entry : String → String → String
env_entry String.[] v = String.◌∷◌ "=" v
env_entry (String.◌∷◌ c k) v = String.◌∷◌ c (env_entry k v)

-- the loop of `BuildCommand`
unfoldable pub append_env : List String → Dict String → List String
unfolding env_entry
append_env es [] = es
append_env es ((k, v) ∷ m) = append_env (es ++ env_entry k v ∷ []) m

-- `cmd.Env` of `BuildCommand`; `none` is nil
abbrev pub command_env : List String → Env → Option (List String)
command_env environ none = none
command_env environ (some []) = none
command_env environ (some ((k, v) ∷ m)) = some (append_env environ ((k, v) ∷ m))

abbrev pub mcp_auth : String
mcp_auth = "NEURALGENTICS_MCP_AUTH"

abbrev pub is_http_only : String → Bool
is_http_only k = k == mcp_url || k == mcp_auth

-- the loop of `buildEnv`
unfoldable pub filter_env : List String → Dict String → List String
unfolding env_entry
filter_env es [] = es
filter_env es ((k, v) ∷ m) = filter_env (if is_http_only k then es else es ++ env_entry k v ∷ []) m

-- `buildEnv`; `environ` is `execEnv`
abbrev pub build_env : List String → Env → List String
build_env environ none = environ
build_env environ (some m) = filter_env environ m

-- the environment that a command starts with
abbrev pub effective : List String → Option (List String) → List String
effective environ none = environ
effective environ (some es) = es

abbrev pub value_of : String → List String → Option String
value_of k (p ∷ v ∷ []) = if p == k then some v else none
value_of k _ = none

abbrev pub or_else {ℓ} : {A : Type ℓ} → Option A → Option A → Option A
or_else (some a) o = some a
or_else none o = o

-- the value of a key in a subprocess
unfoldable pub value_in : String → List String → Option String
unfolding split_once
value_in k [] = none
value_in k (e ∷ es) = or_else (value_in k es) (value_of k (split_once b'=' e))

abbrev pub has_no_equals : String → Bool
has_no_equals String.[] = true
has_no_equals (String.◌∷◌ c s) = not (eqb (code c) b'=') && has_no_equals s

-- every key of a configuration can be told from its value
abbrev pub HasPlainKeys : Dict String → Type 0
HasPlainKeys [] = Unit
HasPlainKeys ((k, v) ∷ m) = (has_no_equals k ≡ true) × HasPlainKeys m
