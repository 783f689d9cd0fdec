-- ===== src/Startup.antt =====
-- server/main.py: what the process does before it serves. The lock of the PID file and the wait for
-- the address of the host.
pub mod PidFile
pub mod Safety
pub mod OneServer
pub mod Claiming
pub mod HostAddress
pub mod Main
mod Tests
