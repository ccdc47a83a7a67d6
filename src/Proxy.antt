-- ===== src/Proxy.antt =====
-- sabah/server/openai_proxy.py: the local server in front of the model backend.
pub mod Chunks
pub mod Types
pub mod Handler
pub mod Backend
