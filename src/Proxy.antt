-- ===== src/Proxy.antt =====
-- mcp/proxy
mod Tests
pub mod Bridge
pub mod Schemas
pub mod Upstream
pub mod ToolMirror
pub mod Interceptor
pub mod Server
