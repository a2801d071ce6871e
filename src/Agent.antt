-- ===== src/Agent.antt =====
-- lib/proxy/proxy-agent/agent.py: the proxy agent between a user's machine and the payload.
pub mod Packets
pub mod HexDump
pub mod Loop
pub mod Options
