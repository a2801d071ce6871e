-- ===== src/Types.antt =====
-- lib/python/satos_payload_sdk/gen/antaris_api_types.py: the objects of the API, their texts, and the
-- conversions from and to the messages of defs/gen/proto/antaris_api.proto.
pub mod Peer
pub mod Runtime
pub mod App
pub mod Text
pub mod ToApp
pub mod ToPeer
pub mod Kinds
pub mod Fields
pub mod RoundTrip
pub mod Listing
pub mod ReturnCode
pub mod Calls
pub mod Answers
mod Tests
