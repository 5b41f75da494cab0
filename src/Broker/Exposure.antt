-- ===== src/Broker/Exposure.antt =====
-- The record of the tools that agents asked for: `ToolExposer` of broker.go, which a memory system outside of
-- the repository implements over its own state, and the methods of the broker that use it, if it is set.
use neuralgentics_broker.Prelude.{
  ℕ, String, ◌≡◌, refl, ap, Bool, true, false, Option, none, some, List, [], arith, Result, is_ok,
  ok, err, Listed,
}

pub record ToolExposure : Type 0 where
  pub tool_server : String
  pub tool_name : String
  pub use_count : ℕ
  pub bypass_broker : Bool

-- The interface: an operation returns the state that it leaves.
pub record ToolExposer (S E : Type 0) : Type 0 where
  pub record_tool_request : String → String → String → S → S × Result E (Unit {0})
  pub increment_tool_use : String → String → String → S → S × Result E Bool
  pub get_agent_tools : String → S → Result E (List ToolExposure)

-- What broker.go says of an exposer: a request that was recorded before is ignored, and a tool that was
-- recorded is listed.
pub record IsExposer {S E : Type 0} (x : ToolExposer S E) : Type 0 where
  pub again :
      (peer server tool : String) (s t : S)
      → x.record_tool_request peer server tool s ≡ (t, ok tt)
      → x.record_tool_request peer server tool t ≡ (t, ok tt)
  pub lists :
      (peer server tool : String) (s t : S)
      → x.record_tool_request peer server tool s ≡ (t, ok tt)
      → (es : List ToolExposure) × (e : ToolExposure) × (x.get_agent_tools peer t ≡ ok es)
        × Listed e es
        × (e.tool_server ≡ server)
        × (e.tool_name ≡ tool)

-- an error of the exposer, as it is or in the text of `RegisterToolRequest`
pub data ExposureError (E : Type 0) : Type 0 where
  record_failed exposer_failed : E → ExposureError E

module _ {E : Type 0} where
  abbrev pub passed : {A : Type 0} → Result E A → Result (ExposureError E) A
  passed (ok a) = ok a
  passed (err e) = err (exposer_failed e)

  taken : Result (ExposureError E) Bool → Bool
  taken (ok b) = b
  taken (err e) = false

module _ {S E : Type 0} where
  abbrev pub recorded : S × Result E (Unit {0}) → S × Result (ExposureError E) Bool
  recorded (s, ok done) = (s, ok true)
  recorded (s, err e) = (s, err (record_failed e))

  -- `RegisterToolRequest`
  unfoldable pub register_tool_request :
      Option (ToolExposer S E) → String → String → String → S → S × Result (ExposureError E) Bool
  register_tool_request none peer server tool s = (s, ok false)
  register_tool_request (some x) peer server tool s =
      recorded (x.record_tool_request peer server tool s)

  -- `IncrementToolUseCount`
  unfoldable pub increment_tool_use_count :
      Option (ToolExposer S E) → String → String → String → S → S × Result (ExposureError E) Bool
  increment_tool_use_count none peer server tool s = (s, ok false)
  increment_tool_use_count (some x) peer server tool s =
      let (t, r) = x.increment_tool_use peer server tool s in (t, passed r)

  -- `GetDemandExpandedTools`
  unfoldable pub get_demand_expanded_tools :
      Option (ToolExposer S E) → String → S → Result (ExposureError E) (List ToolExposure)
  get_demand_expanded_tools none peer s = ok []
  get_demand_expanded_tools (some x) peer s = passed (x.get_agent_tools peer s)

  recorded-ok : (p : S × Result E (Unit {0})) (t : S) → recorded p ≡ (t, ok true) → p ≡ (t, ok tt)
  recorded-ok (s, ok done) t h = ap (λ (q : S × Result (ExposureError E) Bool). (q.0, ok tt)) h
  recorded-ok (s, err e) t h =
      let wrong = ap (λ (q : S × Result (ExposureError E) Bool). is_ok q.1) h in
      absurd (ground (arith, wrong))

  -- If the exposer, if any, is as broker.go says and a request returns true, then the same request again
  -- returns true and changes nothing, and the agent's tools have an exposure of that tool of that server.
  register_tool_request-lists :
      (o : Option (ToolExposer S E)) (peer server tool : String) (s t : S)
      → ((x : ToolExposer S E) → o ≡ some x → IsExposer x)
      → register_tool_request o peer server tool s ≡ (t, ok true)
      → (register_tool_request o peer server tool t ≡ (t, ok true))
        × ((es : List ToolExposure) × (e : ToolExposure) × (get_demand_expanded_tools o peer t
              ≡ ok es)
            × Listed e es
            × (e.tool_server ≡ server)
            × (e.tool_name ≡ tool))
  unfolding register_tool_request get_demand_expanded_tools taken
  register_tool_request-lists none peer server tool s t law h =
      let wrong = ap (λ (q : S × Result (ExposureError E) Bool). taken q.1) h in
      absurd (ground (arith, wrong))
  register_tool_request-lists (some x) peer server tool s t law h =
      let laws = law x refl in
      let first = recorded-ok (x.record_tool_request peer server tool s) t h in
      let (es, e, listed, there, same_server, same_tool) = laws.lists peer server tool s t first in
      (
        ap recorded (laws.again peer server tool s t first),
        (es, e, ap passed listed, there, same_server, same_tool),
      )
