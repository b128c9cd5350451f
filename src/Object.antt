-- ===== src/Object.antt =====
-- The object format of the assembler and the linker, wasmc/src/wasm: words made of bytes, the parts
-- of an object file, its text, and the code that writes and reads each of them.
pub mod Result
pub mod At
pub mod Words
pub mod Symbols
pub mod Relocations
pub mod Debug
pub mod Instruction
pub mod Text
pub mod Parse
