-- ===== src/Assembler.antt =====
-- Parts of the assembler, wasmc/src/wasm: the expressions of directives, and sections.
pub mod Expression
pub mod Section
