-- ===== src/Cypher.antt =====
-- The query language: cypher_lexer.go.
mod Tests
mod Kinds
pub mod Ast
pub mod Parser
pub mod Grammar
pub mod Params
pub mod Eval
pub mod Tokens
pub mod Lexer
pub mod Readers
pub mod Streams
pub mod Escapes
