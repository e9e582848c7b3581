-- ===== src/HttpRule.antt =====
-- api/router/util: the path templates of google/api/http.proto. A template is split into tokens
-- and parsed (parse.go), compiled to a stack code with a constant pool (compile.go), checked when a
-- pattern is made of that code, and run on the components of a request path (runtime.go).
pub mod Types
pub mod Chars
pub mod Tokens
pub mod Parser
pub mod Compiler
pub mod Runtime
pub mod Meaning
