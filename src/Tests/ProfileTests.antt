-- ===== src/Tests/ProfileTests.antt =====
-- Profiles at concrete inputs.
use neuralgentics_broker.Prelude.{
  ℕ, String, ◌≡◌, refl, true, false, none, some, List, [], ◌∷◌, ◌++◌, ok,
}
use neuralgentics_broker.Registry.{ServerEntry, Registry, find}
use neuralgentics_broker.Profile.{Profile, Codec, Output, counted, files_of, signed, export, import}
use neuralgentics_broker.Profile.Archive.{expected, import-export}
use neuralgentics_broker.Broker.{Broker}
use neuralgentics_broker.Broker.Profiles.{catalog_lock, restore}
use neuralgentics_broker.Broker.Profiles.Restoring.{or_restored, find-restore-catalog_lock}

abbrev profile : Profile
profile = record {
  manifest = record {
    version = "1.0.0";
    exported_at = "";
    exported_by = "host";
    broker_version = "0.1";
    file_count = 0;
  };
  provider = [];
  catalog = [];
  permissions = [];
  opencode = [];
  pref = b'p' ∷ [];
}

-- a codec that knows this profile alone, without the files
abbrev plain : Codec
plain = record {
  profile_json = λ p. some [];
  manifest_json = λ m. [];
  parse_manifest = λ bs. some (counted profile).manifest;
  sha256 = λ bs. bs;
  hmac = λ key bs. key ++ bs;
  pack = λ fs. [];
  unpack = λ bs. none;
}

abbrev codec : Codec
codec = record plain { unpack = λ bs. some (signed plain "key" (files_of plain profile [])) }

abbrev writes : Output
writes = record { header = λ n. true; body = λ n. true; close_tar = true; close_gzip = true }

import-export_example :
    (archive : List ℕ) × (export codec writes profile "key" ≡ ok archive)
    × (import codec archive "other" ≡ expected codec profile [] "key" "other")
import-export_example =
    import-export codec writes profile "key" "other" [] refl (λ i. (refl, refl)) refl refl refl refl

abbrev server : String → String → ServerEntry
server command type = record {
  config = record {
    name = "git";
    command = command;
    args = "serve" ∷ [];
    env = none;
    type = type;
    description = "";
    capabilities = [];
  };
  process = some 1;
  tools = [];
  stdin = none;
  stdout = none;
}

abbrev registry : Registry
registry = record { servers = ("git", server "git-mcp" "stdio") ∷ ("web", server "" "http") ∷ [] }

abbrev broker : Broker
broker = record {
  registry = record { servers = [] };
  access = record { server_roles = [] };
  http_clients = [];
  proxy = record { next_id = 1; running = false };
  audit_writer = none;
  clock = 0;
}

-- the server over HTTP has no command, and is not restored
find-restore-catalog_lock_example :
    find "web" (restore (catalog_lock registry) broker).registry
    ≡ or_restored (find "web" broker.registry) "web" (find "web" registry)
find-restore-catalog_lock_example =
    find-restore-catalog_lock registry "web" broker (refl, (refl, tt))
