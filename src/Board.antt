-- ===== src/Board.antt =====
-- assets/js/board.js: the class `Board`.
pub mod State
pub mod Rules
pub mod Placed
pub mod Moves
pub mod Undo
pub mod Lines
pub mod Answers
pub mod Generate
pub mod Try
pub mod Probe
pub mod Stalemate
pub mod Targets
pub mod Value
pub mod Game
pub mod Setup
pub mod Finish
pub mod Endless
pub mod Men
unfoldable pub use State.*
unfoldable pub use Rules.*
unfoldable pub use Moves.*
unfoldable pub use Generate.*
unfoldable pub use Try.*
