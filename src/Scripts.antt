-- ===== src/Scripts.antt =====
-- solx-scripts: expressions, their parser and evaluation, and the interpreter of scripts.
pub mod Platform
pub mod Syntax
pub mod Parser
pub mod Values
pub mod Eval
pub mod Quotes
pub mod Stage
pub mod Lexer
pub mod Interp
pub mod Block
pub mod Program
mod Tests
