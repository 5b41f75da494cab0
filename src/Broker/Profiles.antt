-- ===== src/Broker/Profiles.antt =====
-- `ExportProfile` and `ImportProfile` of broker.go: the registry as a catalog lock, and back. The JSON
-- of the lock and of the permissions is an argument.
pub mod Restoring
use neuralgentics_broker.Prelude.{
  ℕ, zero, suc, ◌+◌, ◌-◌, ◌*◌, ◌/◌, ◌%◌, ◌^◌, ◌≤◌, ◌<◌, String, ◌≡◌, refl, sym, ap, ◌∙◌, ◌≢◌, ◌↔◌,
  ◌⊎◌, inl, inr, Bool, true, false, not, ◌&&◌, ◌||◌, Option, none, some, List, [], ◌∷◌, ◌++◌, map,
  reverse, arith, ◌==◌, eq_iff, eq_refl, ltb, leb, eqb, if◌then◌else◌, Bool-cases, Option-cases,
  is_some, Result, is_ok, ok, err, length, is_empty, keep_if, take, All, length-append,
  length-keep_if, All-keep_if, elem, elem-append, elem-keep_if, Dict, get, put, delete, keys,
  has_key, IsMap, get-put, get-delete, has_key-get, has_key-put, has_key-delete, put-IsMap,
  delete-IsMap, dict_laws, text_le, text_le_total, sort_strings, IsSorted, sort_strings-IsSorted,
  elem-sort_strings, encode, bytes, later, last_index, last_index-lt, eq_bytes, drop, starts_with,
  contains, has_suffix, one_more, index,
}
use neuralgentics_broker.Types.{ServerConfig, ServerStatus}
use neuralgentics_broker.Access.{roles_snapshot}
use neuralgentics_broker.Registry.{ServerEntry, Registry, find, list}
use neuralgentics_broker.Skills.{Item, text, other_item, Value, scalar, items, other_value, text_of}
use neuralgentics_broker.Skills.Tags.{texts}
use neuralgentics_broker.Profile.{Profile, ProfileError, Codec, Output, build, export, import}
use neuralgentics_broker.Broker.{Broker}
use neuralgentics_broker.Broker.Lifecycle.{register_server}

-- one entry of the lock: a JSON object
abbrev pub LockEntry : Type 0
LockEntry = Dict Value

pub record LockCodec : Type 0 where
  pub lock_json : List LockEntry → List ℕ
  pub parse_lock : List ℕ → Option (List LockEntry)
  pub permissions_json : Dict (List String) → List ℕ

-- the host name, the time, and the bytes of provider-pref.json if it can be read
pub record Site : Type 0 where
  pub hostname : String
  pub now : String
  pub preference : Option (List ℕ)

abbrev pub texts_as_items : List String → List Item
texts_as_items [] = []
texts_as_items (s ∷ ss) = text s ∷ texts_as_items ss

-- what is written for a server; no reader looks at `running` and `tools`
abbrev pub lock_entry : String → ServerEntry → LockEntry
lock_entry name e =
    ("name", scalar name)
    ∷ ("running", other_value)
    ∷ ("tools", other_value)
    ∷ ("type", scalar e.config.type)
    ∷ ("package", scalar e.config.command)
    ∷ ("args", items (texts_as_items e.config.args))
    ∷ []

-- the loop of `ExportProfile`
abbrev pub locked : String → Option ServerEntry → List LockEntry → List LockEntry
locked name none rest = rest
locked name (some e) rest = lock_entry name e ∷ rest

unfoldable pub lock_loop : Registry → List ServerStatus → List LockEntry
lock_loop r [] = []
lock_loop r (s ∷ ss) = locked s.name (find s.name r) (lock_loop r ss)

unfoldable pub catalog_lock : Registry → List LockEntry
unfolding lock_loop list
catalog_lock r = lock_loop r (list r)

abbrev pub or_default_preference : Option (List ℕ) → List ℕ
or_default_preference none = bytes "{\"activeProvider\":\"ollama-cloud\"}"
or_default_preference (some bs) = bs

-- `ExportProfile`
unfoldable pub export_profile :
    Codec → LockCodec → Output → Site → Broker → String → String → Result ProfileError (List ℕ)
unfolding catalog_lock build export bytes
export_profile c l o site b passphrase broker_version =
    export c o
      (build site.hostname site.now (bytes "{}") (l.lock_json (catalog_lock b.registry))
        (l.permissions_json (roles_snapshot b.access)) (bytes "{}")
        (or_default_preference site.preference) broker_version)
      passphrase

-- `mcp["args"].([]any)`, and the items of it that are texts
abbrev pub args_of : Option Value → List String
args_of (some (items xs)) = texts xs
args_of (some (scalar s)) = []
args_of (some other_value) = []
args_of none = []

abbrev pub config_in : LockEntry → ServerConfig
config_in mcp = record {
  name = text_of (get "name" mcp);
  command = text_of (get "package" mcp);
  args = args_of (get "args" mcp);
  env = none;
  type = text_of (get "type" mcp);
  description = "";
  capabilities = [];
}

-- the body of the loop of `ImportProfile`; an error of `RegisterServer` is passed over
unfoldable pub restore_entry : LockEntry → Broker → Broker
unfolding register_server
restore_entry mcp b =
    let c = config_in mcp in
    if c.name == ""
    then b
    else if is_some (find c.name b.registry)
    then b
    else (register_server c b).0

unfoldable pub restore : List LockEntry → Broker → Broker
unfolding restore_entry
restore [] b = b
restore (mcp ∷ mcps) b = restore mcps (restore_entry mcp b)

-- what `ImportProfile` returns
pub data Imported : Type 0 where
  imported lock_not_parsed : Profile → Imported
  import_failed : ProfileError → Imported

abbrev pub restore_lock : Profile → Option (List LockEntry) → Broker → Broker × Imported
restore_lock p none b = (b, lock_not_parsed p)
restore_lock p (some mcps) b = (restore mcps b, imported p)

abbrev pub apply_profile : LockCodec → Result ProfileError Profile → Broker → Broker × Imported
apply_profile l (err e) b = (b, import_failed e)
apply_profile l (ok p) b = restore_lock p (l.parse_lock p.catalog) b

-- `ImportProfile`
unfoldable pub import_profile : Codec → LockCodec → List ℕ → String → Broker → Broker × Imported
unfolding restore import
import_profile c l archive passphrase b = apply_profile l (import c archive passphrase) b
