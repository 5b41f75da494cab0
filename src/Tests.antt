-- ===== src/Tests.antt =====
-- The theorems at concrete inputs, by component.
mod AccessTests
mod ConversionTests
mod CacheTests
mod AuditTests
mod BrokerTests
mod IntentTests
mod RpcTests
mod LauncherTests
mod ViewTests
mod DemoTests
mod CuratedTests
mod SkillsTests
mod ProfileTests
mod HttpTests
