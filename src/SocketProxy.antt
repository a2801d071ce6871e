-- ===== src/SocketProxy.antt =====
-- lib/proxy/proxy-agent/socket_proxy.py: the two-legged relays of the proxy agent.
pub mod Net
pub mod Pair
pub mod HalfPerma
pub mod Relay
pub mod Tunnel
pub mod Permanent
mod Tests
