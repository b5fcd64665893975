-- ===== src/ToolSemantics.antt =====
-- packages/coding-agent/src/tool-semantics
pub mod Patterns
pub mod Registry
pub mod Resolver
