-- ===== src/Framework.antt =====
-- lib/python/satos_payload_sdk/app_framework.py: the framework for payload applications.
pub mod Stoppable
pub mod Metrics
pub mod App
pub mod Requests
pub mod Connection
mod Tests
