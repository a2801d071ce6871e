-- ===== src/Client.antt =====
-- lib/python/satos_payload_sdk/antaris_api_client.py: the remote calls between the application and
-- the payload controller, in both directions, over a channel.
pub mod Channel
pub mod Calls
pub mod Staged
pub mod Dispatch
pub mod Upload
mod Tests
