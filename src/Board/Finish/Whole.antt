-- ===== src/Board/Finish/Whole.antt =====
-- assets/js/board.js: `generateMoves`, for every piece that is shown on the board.
use cchess.Board.Answers.{Answers}
