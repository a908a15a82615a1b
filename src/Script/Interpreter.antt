-- ===== src/Script/Interpreter.antt =====
-- `Script.prototype.execute` of lib/script/script.js: the loop over the parsed opcodes with its
-- main and alternative stacks, its conditionals and its counters. The cases of the big switch stand
-- in the children Operands (stack, arithmetic and byte strings) and Checks (locks and signatures).
pub mod Context
pub mod Operands
pub mod Checks
pub mod Switch
pub mod Loop
pub mod Limits
pub mod Skips
pub mod Effects
pub mod P2pkh
pub mod Branches
mod Tests
