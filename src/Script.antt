-- ===== src/Script.antt =====
-- internal/script: closures, which are the leaves of a tapscript tree, and relative locktimes.
pub mod Txscript
pub mod Interpreter
pub mod Condition
pub mod Locktime
pub mod Closure
