-- ===== src/Runtime.antt =====
-- runtime/: the interpreter of Java bytecode.
pub mod Word
pub mod Machine
pub mod Native
pub mod Bytecode
pub mod Steps
pub mod Compile
pub mod Branch
pub mod Verifier
pub mod Names
mod Tests
