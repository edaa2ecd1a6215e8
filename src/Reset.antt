-- ===== src/Reset.antt =====
-- cmd/reset/main.go: the generator of Reset methods. The packages go/types and go/ast are the data
-- types of Reset/Syntax.
pub mod Syntax
pub mod Generator
pub mod Marks
pub mod Root
pub mod Termination
pub mod Safety
pub mod Files
pub mod Typing
