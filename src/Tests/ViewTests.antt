-- ===== src/Tests/ViewTests.antt =====
-- What the broker shows to a role, at concrete inputs.
use neuralgentics_broker.Prelude.{
  ℕ, ◌+◌, ◌*◌, ◌/◌, String, ◌≡◌, refl, true, none, some, List, [], ◌∷◌, arith, ltb, leb, eqb, ok,
  Dict,
}
use Prim.Native.Char.{code}
use mathlib.Core.List.{Perm}
use mathlib.Core.List.Perm
use neuralgentics_broker.Types.{ServerConfig}
use neuralgentics_broker.Access.{can_access, new_access_control}
use neuralgentics_broker.Registry.{ServerEntry, register, modify}
use neuralgentics_broker.Intent.{Unicode, Floats}
use neuralgentics_broker.Intent.Sorting.{IsOrder}
use neuralgentics_broker.Broker.{Broker}
use neuralgentics_broker.Broker.Views.{
  new_core, set_server_tools, build_server_catalog, inject_prompt, match_for_role,
}
use neuralgentics_broker.Broker.Views.Matching.{Verdict, match_for_role-Verdict}
use neuralgentics_broker.Host.{Host, error_reply, result}
use neuralgentics_broker.Broker.Keeps.{IsSound}
use neuralgentics_broker.Broker.Soundness.{Step, registers, starts, deregisters, run_steps}
use neuralgentics_broker.Broker.Views.Unseen.{ordered, run_steps-unseen}

abbrev config : String → ServerConfig
config name = record {
  name = name;
  command = name;
  args = [];
  env = none;
  type = "stdio";
  description = "a server";
  capabilities = [];
}

-- the coder may not use playwright
abbrev broker : Broker
broker =
    let b = record new_core {
      registry = register (config "webfetch") (register (config "playwright") new_core.registry);
    } in
    set_server_tools "webfetch"
      (record { server = "webfetch"; name = "fetch"; description = "fetch the page" } ∷ [])
      (set_server_tools "playwright"
        (record { server = "playwright"; name = "click"; description = "fetch page" } ∷ []) b)

-- texts of small letters; scores in whole percents
abbrev letters : Unicode
letters = record { to_lower = λ s. s; is_word = λ c. leb b'a' (code c) }

abbrev percents : Floats ℕ
percents = record {
  origin = 0;
  one = 100;
  ratio = λ i n. i * 100 / n;
  bonus = λ n. n * 5;
  plus = λ x y. x + y;
  exceeds = λ x y. ltb y x;
  is_origin = λ x. eqb x 0;
}

percents-IsOrder : IsOrder percents
percents-IsOrder = record { asym = λ x y h. ground arith; cotrans = λ x y z h k. ground arith }

match_for_role-Verdict_example : Verdict percents letters 20 broker "coder" "fetch page" (
    ok (record {
      tool = record { server = "webfetch"; name = "fetch"; description = "fetch the page" };
      score = 100;
    }))
unfolding match_for_role set_server_tools register new_access_control
match_for_role-Verdict_example =
    match_for_role-Verdict percents letters 20 broker "coder" "fetch page" percents-IsOrder refl

-- every request is answered
abbrev host : Host
host = record {
  look_path = λ s. true;
  stdin_pipe = λ n. some n;
  stdout_pipe = λ n. some n;
  start_process = λ n c. some n;
  alive = λ n p. true;
  initialize = λ n s. result tt;
  notify_initialized = λ n s. true;
  list_tools = λ n s. result (("clone", "") ∷ []);
  call_tool = λ n s t a. error_reply;
  http_initialize = λ n u. result tt;
  http_list_tools = λ n u. result [];
  http_call = λ n u t a. error_reply;
  now = λ n. n;
  digest = λ e. "sha256:";
}

broker-IsSound : IsSound broker
unfolding set_server_tools register modify
broker-IsSound = record {
  valid = record { unique = (refl, (refl, tt)); named = (refl, (refl, tt)) };
  clients = tt;
}

abbrev steps : List Step
steps =
    registers (config "github-mcp")
    ∷ starts "github-mcp"
    ∷ starts "playwright"
    ∷ deregisters "playwright"
    ∷ []

-- another order of a map
abbrev swapped : Dict ServerEntry → Dict ServerEntry
swapped [] = []
swapped (p ∷ []) = p ∷ []
swapped (p ∷ q ∷ m) = q ∷ p ∷ m

Perm-swapped : (m : Dict ServerEntry) → Perm m (swapped m)
Perm-swapped [] = Perm.rfl
Perm-swapped (p ∷ []) = Perm.rfl
Perm-swapped (p ∷ q ∷ m) = Perm.swap q p m

-- the map is ranged in the other order afterwards
run_steps-unseen_example :
    let after = swapped (run_steps host steps broker).registry.servers in
    let b = ordered after (run_steps host steps broker) in
    (before : Dict ServerEntry) × Perm broker.registry.servers before
    × (build_server_catalog b "coder" ≡ build_server_catalog (ordered before broker) "coder")
    × (inject_prompt b "coder" ≡ inject_prompt (ordered before broker) "coder")
unfolding set_server_tools register can_access new_access_control
run_steps-unseen_example =
    run_steps-unseen host broker "coder" steps
      (swapped (run_steps host steps broker).registry.servers) broker-IsSound
      (refl, (refl, (refl, (refl, tt)))) (Perm-swapped _)
