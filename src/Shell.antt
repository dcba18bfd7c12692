-- ===== src/Shell.antt =====
-- 2/: the shell.
pub mod Command
pub mod AndOr
pub mod Utils
pub mod Lists
pub mod Builder
pub mod Run
pub mod Token
pub mod Stdin
pub mod Tokenizer
pub mod Grammar
pub mod Words
pub mod Rounds
pub mod Lines
pub mod Evaluator
pub mod Items
pub mod Slices
pub mod Pipes
pub mod Operators
pub mod Entries
pub mod Main
pub mod Descriptors
pub mod Pipeline
pub mod Connected
pub mod Wiring
pub mod Status
pub mod Cut
pub mod Meaning
pub mod Session
pub mod Defects
mod Tests
