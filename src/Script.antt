-- ===== src/Script.antt =====
-- lib/script: the script number, the stack, the opcodes, key and signature encodings, and the
-- interpreter `Script.prototype.execute`.
pub mod Types
pub mod Opcodes
pub mod Num
pub mod Encoding
pub mod Stack
pub mod Interpreter
