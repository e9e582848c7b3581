-- ===== src/Auth.antt =====
-- auth: who may reach which resource.
pub mod Rules
