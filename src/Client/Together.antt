-- ===== src/Client/Together.antt =====
-- assets/js/net.js: two clients of one game, the messages between them relayed.
use cchess.Base.{
  if◌then◌else◌, ℕ, ◌≡◌, refl, sym, ap, ap₂, ◌∙◌, subst, Bool, true, false, List, [], ◌∷◌, Option,
  none, some, >>=-eq-some,
}
use cchess.Constants.{MoveRes, regular, capatured, general, illegal, killed, lore}
use cchess.Board.State.{Board}
use cchess.Board.Moves
use cchess.Board.Moves.{get_last_move}
use cchess.Fen.{to_fen}
use cchess.Board.Try.{try_move_piece}
use cchess.Board.Placed.{IsPlaced}
use cchess.Net.Messages.{Request, a_move_step, a_forgive_response, answer_forgive}
use cchess.Displayer
use cchess.Chess.{ChineseChess, play, back_step, switch_play_timer, taken_back}
use cchess.Chess.Turns.{Clocks, Accepted, switch_play_timer-Switched}
use cchess.Chess.Turns.Played.{Played, play-Accepted}
use cchess.Client.{
  noticed, forgive_response_label, Client, opp_forgive_request_dialog, reponse_message, press,
  press_open, step_back, response_forgive_res,
}

-- Both games of the clients, on one board.
pub record OneBoard (x y : Client) : Type 0 where
  pub game_x : ChineseChess
  pub game_y : ChineseChess
  pub found_x : x.cchess ≡ some game_x
  pub found_y : y.cchess ≡ some game_y
  pub one : game_x.board ≡ game_y.board

Accepted-board :
    (mv : ℕ) (res : MoveRes) (x x' y y' : ChineseChess)
    → x.board ≡ y.board
    → Accepted mv res x x'
    → Accepted mv res y y'
    → x'.board ≡ y'.board
Accepted-board mv res x x' y y' one ax ay =
    let px = ax.board_played in let py = ay.board_played in let same = ap (Moves.play mv) one in cc

Played-board :
    (mv : ℕ) (res : MoveRes) (x x' y y' : ChineseChess)
    → x.board ≡ y.board
    → Played mv res x x'
    → Played mv res y y'
    → x'.board ≡ y'.board
Played-board mv illegal x x' y y' one px py =
    ap (λ c. c.board) px ∙ one ∙ sym (ap (λ c. c.board) py)
Played-board mv killed x x' y y' one px py = ap (λ c. c.board) px ∙ one ∙ sym (ap (λ c. c.board) py)
Played-board mv regular x x' y y' one px py = Accepted-board mv regular x x' y y' one px py
Played-board mv capatured x x' y y' one px py = Accepted-board mv capatured x x' y y' one px py
Played-board mv general x x' y y' one px py = Accepted-board mv general x x' y y' one px py
Played-board mv lore x x' y y' one px py = Accepted-board mv lore x x' y y' one px py

abbrev cchess_of : Option Client → Option ChineseChess
cchess_of none = none
cchess_of (some c) = c.cchess

abbrev sent_of : Option Client → List Request
sent_of none = []
sent_of (some c) = c.sent

-- The clocks of a game that `play` expects.
abbrev pub Keeps : ChineseChess → Type 0
Keeps c = Clocks c.self_counts c.self_play_timer c.opp_play_timer

-- Where two clients hold games on one board, on which every piece that a square holds is shown
-- and knows that square, and the clocks of both are in order (the one that is not current is
-- stopped), and `tryMovePiece` answers: if one client plays a move and the other, told of it by
-- MOVE_STEP, gives a client, then this client's game is on the first one's new board.
pub reponse_message-play :
    (mv : ℕ) (over : Bool) (fen : List ℕ) (x x' y : ChineseChess) (c : Client) {c' : Client}
    {res : MoveRes} {tried : Board}
    → IsPlaced x.board.position
    → Keeps x
    → Keeps y
    → c.cchess ≡ some y
    → x.board ≡ y.board
    → try_move_piece mv x.board ≡ some (res, tried)
    → play mv x ≡ some x'
    → reponse_message (a_move_step over mv fen) c ≡ some c'
    → (y' : ChineseChess) × (c'.cchess ≡ some y') × (y'.board ≡ x'.board)
unfolding reponse_message
reponse_message-play mv over fen x x' y c {c'} {res} {tried} placed kx ky found one t px e =
    let (game, e1, f) = >>=-eq-some c.cchess _ e in
    let (played, e2, g) = >>=-eq-some (play mv game) _ f in
    let same_game : game ≡ y = cc in
    let py : play mv y ≡ some played = subst (λ z. play mv z ≡ some played) same_game e2 in
    let ty : try_move_piece mv y.board ≡ some (res, tried) =
      subst (λ b. try_move_piece mv b ≡ some (res, tried)) one t in
    let ay = play-Accepted mv y (subst (λ b. IsPlaced b.position) one placed) ky ty py in
    let ax = play-Accepted mv x placed kx t px in
    (played, sym (ap cchess_of g), sym (Played-board mv res x x' y played one ax ay))

abbrev answer_of : Option (ℕ × ChineseChess) → Option (ℕ × Board)
answer_of none = none
answer_of (some (mv, c)) = some (mv, c.board)

switched_board : (d : ChineseChess) → (switch_play_timer d).board ≡ d.board
switched_board d = ap (λ c. c.board) (switch_play_timer-Switched d).same

either_board :
    (t : Bool) (d e : ChineseChess) {b : Board}
    → d.board ≡ b
    → e.board ≡ b
    → (if t then d else e).board ≡ b
either_board true d e hd he = hd
either_board false d e hd he = he

back_step-board :
    (c : ChineseChess) {mv : ℕ} {c' : ChineseChess}
    → back_step c ≡ some (mv, c')
    → Moves.back_step c.board ≡ some (mv, c'.board)
unfolding back_step switch_play_timer taken_back
back_step-board c {mv} {c'} e =
    let ((mv', board), e1, f) = >>=-eq-some (Moves.back_step c.board) _ e in
    let (undone, e2, g) = >>=-eq-some (Displayer.undo_move _ _ _) _ f in
    e1
    ∙ ap (λ (b : Board). some (mv', b))
        (sym (switched_board _ ∙ either_board c.switch_animation _ _ refl refl))
    ∙ ap answer_of g

-- What `backStep` of the game does to a client.
record SteppedBack (c : Client) (answer : ℕ × List ℕ) (c' : Client) : Type 0 where
  before : ChineseChess
  after : ChineseChess
  found : c.cchess ≡ some before
  left : c'.cchess ≡ some after
  stepped : Moves.back_step before.board ≡ some (answer.0, after.board)
  text : answer.1 ≡ to_fen after.board
  quiet : c'.sent ≡ c.sent

step_back-SteppedBack :
    (c : Client) {answer : ℕ × List ℕ} {c' : Client}
    → step_back c ≡ some (answer, c')
    → SteppedBack c answer c'
unfolding step_back
step_back-SteppedBack c {answer} {c'} e =
    let (x, e1, f) = >>=-eq-some c.cchess _ e in
    let ((mv, x'), e2, g) = >>=-eq-some (back_step x) _ f in
    record {
      before = x;
      after = x';
      found = e1;
      left = sym (ap (λ o. cchess_of (stepped_of o)) g);
      stepped =
          back_step-board x e2 ∙ ap (λ (n : ℕ). some (n, x'.board)) (ap (λ o. (answer_in o).0) g);
      text = sym (ap (λ o. (answer_in o).1) g);
      quiet = sym (ap (λ o. sent_of (stepped_of o)) g);
    }
  where
    stepped_of : Option ((ℕ × List ℕ) × Client) → Option Client
    stepped_of none = none
    stepped_of (some (a, d)) = some d

    answer_in : Option ((ℕ × List ℕ) × Client) → ℕ × List ℕ
    answer_in none = (0, [])
    answer_in (some (a, d)) = a

-- Where two clients hold games on one board and one of them has the dialog open that asks to take
-- a move back: if it presses the first button and gives a client, and the other one is told of
-- the agreement, whatever its move and text, and gives a client, then both have the board of
-- `backStep` again, and the answer that is sent names the move that was taken back and the text
-- of that board.
pub response_forgive_res-press :
    (c d : Client) (mv : ℕ) (fen : List ℕ) {x y : ChineseChess} {c' d' : Client}
    → c.cchess ≡ some x
    → d.cchess ≡ some y
    → x.board ≡ y.board
    → d.dlg ≡ some opp_forgive_request_dialog
    → press true d ≡ some d'
    → reponse_message (a_forgive_response true mv fen) c ≡ some c'
    → (x' : ChineseChess) × (y' : ChineseChess) × (taken : ℕ) × (c'.cchess ≡ some x')
      × (d'.cchess ≡ some y')
      × (x'.board ≡ y'.board)
      × (Moves.back_step y.board ≡ some (taken, y'.board))
      × (d'.sent ≡ answer_forgive true taken (to_fen y'.board) ∷ d.sent)
unfolding press press_open reponse_message response_forgive_res
response_forgive_res-press c d mv fen {x} {y} {c'} {d'} hx hy one shown e f =
    let (dialog, e1, g) = >>=-eq-some d.dlg _ e in
    let same : dialog ≡ opp_forgive_request_dialog = cc in
    let asked_back = subst (λ z. press_open z true d ≡ some d') same g in
    let ((answer, back), e2, h) = >>=-eq-some (step_back d) _ asked_back in
    let ((answer', back'), e3, k) =
      >>=-eq-some (step_back (noticed (forgive_response_label true) c)) _ f in
    finish answer answer' back back' (step_back-SteppedBack d e2) (step_back-SteppedBack _ e3)
      (ap sent_of h) (ap cchess_of h) (ap cchess_of k)
  where
    some_inj : {a b : ChineseChess} → some a ≡ some b → a ≡ b
    some_inj q = cc

    board_of : Option (ℕ × Board) → Board → Board
    board_of none b = b
    board_of (some (n, b)) _ = b

    finish :
        (answer answer' : ℕ × List ℕ) (back back' : Client)
        → SteppedBack d answer back
        → SteppedBack (noticed (forgive_response_label true) c) answer' back'
        → answer_forgive true answer.0 answer.1 ∷ back.sent ≡ d'.sent
        → back.cchess ≡ d'.cchess
        → back'.cchess ≡ c'.cchess
        → (x' : ChineseChess) × (y' : ChineseChess) × (taken : ℕ) × (c'.cchess ≡ some x')
          × (d'.cchess ≡ some y')
          × (x'.board ≡ y'.board)
          × (Moves.back_step y.board ≡ some (taken, y'.board))
          × (d'.sent ≡ answer_forgive true taken (to_fen y'.board) ∷ d.sent)
    finish answer answer' back back' sd sc sent left_d left_c =
        let same_y : sd.before ≡ y = some_inj (sym sd.found ∙ hy) in
        let same_x : sc.before ≡ x = some_inj (sym sc.found ∙ hx) in
        let boards : sc.before.board ≡ sd.before.board =
          ap (λ z. z.board) same_x ∙ one ∙ sym (ap (λ z. z.board) same_y) in
        (
          sc.after,
          sd.after,
          answer.0,
          sym left_c ∙ sc.left,
          sym left_d ∙ sd.left,
          ap (λ o. board_of o y.board) (sym sc.stepped ∙ ap Moves.back_step boards ∙ sd.stepped),
          ap (λ z. Moves.back_step z.board) (sym same_y) ∙ sd.stepped,
          sym sent
              ∙ ap₂ (λ (t : List ℕ) (l : List Request). answer_forgive true answer.0 t ∷ l) sd.text
                  sd.quiet,
        )
