-- ===== src/Lib.antt =====
-- cchess: the Chinese chess client under assets/js.
--
-- The client keeps a board of pieces on a 16 by 16 array, decides which moves are legal, generates
-- moves, plays them and takes them back, and reads and writes positions as FEN texts. A displayer shows
-- the board as pictures, two clocks count the players' times, a controller joins these and answers
-- clicks and the opponent's moves, and packets carry messages to a server.
--
--   Base: truth values, options, lists, integers and bits that the other files share.
--   Constants: the tables and enumerations of assets/js/constants.js.
--   Geometry: the squares and packed moves of assets/js/utils.js. Geometry/Packing and
--     Geometry/Coordinates relate the bit operations to arithmetic.
--   Board: the class `Board` of assets/js/board.js. State has the pieces, players and the board, and
--     `addPieceToBoard`, `addPiece` and `delPiece`; Rules has `legalMovePiece` and `willKillKing`;
--     Moves has `makeMove`, `undoMove`, `legalMove`, `play` and `backStep`; Generate has
--     `generateMoves`; Try has `generateAllMoves`, `noWayToMove`, `tryMovePiece` and `prompt`. The
--     other files under Board are about these: Placed, Undo and Probe about taking back, Lines and
--     Answers about the loops, Targets and Finish about the moves generated, Value, Setup and Game about the
--     values of the pieces, Men about what stands where, Stalemate about a side that is stuck, Endless
--     about a piece that goes nowhere.
--   Fen: `getPieceType` and `toFen` of assets/js/board.js, and `initFromFen` of
--     assets/js/chinese_chess.js without the pictures that it draws. Fen/Loading has the loop of both
--     loaders with any action on a piece, Scanned what it leaves on the board, and RoundTrip is about
--     loading a text of `toFen`.
--   Iccs: the texts of moves in assets/js/utils.js, whose numbers are integers here, and `playIccsMv` of
--     assets/js/board.js for those that are not negative.
--   Notation: `toChineseMove` of assets/js/board.js, the written form of a move.
--   Timer: `PlayTimer` of assets/js/chinese_chess.js. Timer/Runs is about a clock's turn.
--   Displayer: `UiDisplayer` of assets/js/displayer.js; Displayer/Motion has its animation, Pictures is
--     about what a viewer sees.
--   Chess: `ChineseChess` of assets/js/chinese_chess.js; Redraw has the operations that draw the game
--     again, Start the constructor, and Turns is about `play`. Session is about games from the
--     constructor on: `play`, clicks (Clicks), all that leads on (Lives), `backStep` (Undone)
--     and when `play` gives a game (Replies).
--   Net: assets/js/net.js. Utf8 has the texts, Packet the bytes of a packet, Messages the encoding and
--     the decoding of messages, whose fields cchess.proto names.
--   Client: what assets/js/net.js and assets/js/ui_displayer.js do with a message of the server and with a
--     button of a dialog: `reponseMessage`, the class `Net` without its socket, the dialog that is open,
--     and `updateUserInfo`. Client/Together is about two clients of one game,
--     Client/Opening about a match that begins.
--     Client/Labels has what the labels of a user and the dialog of a result say.
--   Settings: the handlers of the page's settings at the end of assets/js/chinese_chess.js, with `config`
--     and the boxes that show it.
--   QuickSort: `quickSort` of assets/js/utils.js, for any function that compares, and for items of which
--     some may be arrays: which are, and with what elements, is a parameter.
--   Tests, SessionTests, PageTests: runs and examples.
--
-- A name here is the source's in another spelling: `make_move` is `makeMove`. The pieces, which the
-- source shares between a player's list, the array and the history, stand in a store, and a
-- reference to a piece is a number. A method that changes the board takes the board and returns the
-- new one; a method that gives an answer too returns a pair.
--
-- A result `none` stands for a run of the source that gives no usable result: it throws (it reads a
-- field of null), it would go on with `NaN` (a value is read outside of the table), or a loop has
-- gone past every square of the array and does not end. The loops of `legalMovePiece` have fuel for
-- the two squares and 257 more, and the loops of `generateMoves` for 17 squares, more than the array
-- has in a line; `quickSort` has the length of its array and one, since each part is shorter.
-- Between squares on one line the target is at most as many steps away as the larger of the two
-- numbers.
--
-- The browser is modelled by what the client sees of it: an element is the record of the style
-- attributes that the code writes, a timer is an identifier that is live or not, and the sounds, message
-- boxes, animations and messages of a game are effects in a log. In Net the checksum of bytes and the
-- binary form of a message are parameters, since the code takes them from adler32.js and from generated
-- code.
--
-- Not modelled: how the page draws its dialogs and labels (the rest of ui_displayer.js), the login form,
-- the WebSocket, the generated messages and the checksum, and the C++ servers and engine.
pub mod Base
pub mod Constants
pub mod Geometry
pub mod QuickSort
pub mod Board
pub mod Fen
pub mod Iccs
pub mod Notation
pub mod Timer
pub mod Displayer
pub mod Chess
pub mod Net
pub mod Client
pub mod Settings
mod Tests
mod SessionTests
mod PageTests
