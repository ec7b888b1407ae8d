-- ===== src/Settings/Boxes.antt =====
-- assets/js/chinese_chess.js: the settings of `config`, of the game and of the boxes, side by side.
use cchess.Base.{
  ℕ, ◌≡◌, refl, sym, ap, ◌∙◌, subst, Bool, true, false, not, Option, none, some, ◌>>=◌, >>=-eq-some,
}
use cchess.Constants.{Side}
use cchess.Chess
use cchess.Chess.{ChineseChess, start_timer, show_prompt, mark_last_move}
use cchess.Chess.Start.{Config, create_chinese_chess}
use cchess.Client.{Client, Dialog, reponse_match}
use cchess.Net.Messages.{PlayerType, RoomType, UserInfo}
use cchess.Settings.{
  Page, configured, with_cchess, with_cchess?, Outcome, returned, threw, toggle_bk_music,
  toggle_sound_effect, toggle_prompt, toggle_animation, on_change_board_style,
  on_change_piece_style, on_change_step_records,
}
use cchess.Settings.Switches.{
  Switches, switches, config_switches, change_board_style-switches, change_piece_style-switches,
  skipped-switches, create_chinese_chess-switches,
}

-- The boxes show the settings of `config`, the music plays as it is set, and the game, where there
-- is one, has the settings of `config`.
pub record Agrees (p : Page) : Type 0 where
  pub music : (p.music_box ≡ p.bk_music) × (p.music_plays ≡ p.bk_music)
  pub sound : p.sound_box ≡ p.client.config.switch_sound_effect
  pub prompts : p.prompt_box ≡ p.client.config.switch_prompt
  pub animation : p.animation_box ≡ p.client.config.switch_animation
  pub game :
      (c : ChineseChess) → p.client.cchess ≡ some c → switches c ≡ config_switches p.client.config

-- A handler of the settings that ends, or a match that begins, and the page that it leaves.
pub data Set : Page → Page → Type 0 where
  music : {p : Page} → Set p (toggle_bk_music p)
  sound : {p p' : Page} → toggle_sound_effect p ≡ returned p' → Set p p'
  prompts : {p p' : Page} → toggle_prompt p ≡ returned p' → Set p p'
  animation : {p p' : Page} → toggle_animation p ≡ returned p' → Set p p'
  board : {p p' : Page} → (idx : ℕ) → on_change_board_style idx p ≡ returned p' → Set p p'
  pieces : {p p' : Page} → (idx : ℕ) → on_change_piece_style idx p ≡ some (returned p') → Set p p'
  steps :
      {p p' : Page}
      → (length idx : ℕ) → on_change_step_records length idx p ≡ some (returned p')
      → Set p p'
  matched :
      {p : Page} {c : Client}
      → (type : PlayerType) (room : RoomType) (opp_user : UserInfo)
      → reponse_match type room opp_user p.client ≡ some c
      → Set p (record p { client = c })

with_cchess-returned :
    (change : ChineseChess → ChineseChess) (after : Page → Page) (p : Page) {p' : Page}
    → with_cchess change after p ≡ returned p'
    → (c : ChineseChess) × (p.client.cchess ≡ some c)
      × (after (record p { client = record p.client { cchess = some (change c) } }) ≡ p')
unfolding with_cchess
with_cchess-returned change after p {p'} e = by_cchess p.client.cchess refl e
  where
    by_cchess :
        (o : Option ChineseChess)
        → p.client.cchess ≡ o
        → (elim o as (λ x. Outcome) [
          | none ↦ threw p
          | some c ↦
              returned (after (record p { client = record p.client { cchess = some (change c) } }))
        ])
          ≡ returned p'
        → (c : ChineseChess) × (p.client.cchess ≡ some c)
          × (after (record p { client = record p.client { cchess = some (change c) } }) ≡ p')
    by_cchess none h e = cc
    by_cchess (some c) h e = (c, h, cc)

with_cchess?-returned :
    (change : ChineseChess → Option ChineseChess) (p : Page) {p' : Page}
    → with_cchess? change p ≡ some (returned p')
    → (c : ChineseChess) × (p.client.cchess ≡ some c)
      × (c' : ChineseChess) × (change c ≡ some c')
      × (record p { client = record p.client { cchess = some c' } } ≡ p')
unfolding with_cchess?
with_cchess?-returned change p {p'} e = by_cchess p.client.cchess refl e
  where
    by_cchess :
        (o : Option ChineseChess)
        → p.client.cchess ≡ o
        → (elim o as (λ x. Option Outcome) [
          | none ↦ some (threw p)
          | some c ↦ change c >>= λ changed.
              some (returned (record p { client = record p.client { cchess = some changed } }))
        ])
          ≡ some (returned p')
        → (c : ChineseChess) × (p.client.cchess ≡ some c)
          × (c' : ChineseChess) × (change c ≡ some c')
          × (record p { client = record p.client { cchess = some c' } } ≡ p')
    by_cchess none h e = cc
    by_cchess (some c) h e = let (c', f, g) = >>=-eq-some (change c) _ e in (c, h, c', f, cc)

-- A game put in place of another, with those settings.
replaced :
    (c : ChineseChess) (s : Switches)
    → switches c ≡ s
    → (c' : ChineseChess) → some c ≡ some c'
    → switches c' ≡ s
replaced c s h c' e = let same : c ≡ c' = cc in subst (λ x. switches x ≡ s) same h

-- If the four boxes show the settings of `config`, the music plays as it is set, and the game,
-- where there is one, has the settings of `config`, then this stays so when one of the settings'
-- handlers ends (music, sound, prompts, animation, the styles of the board and of the pieces, the
-- list of moves), and when a match begins.
pub Set-Agrees : {p p' : Page} → Agrees p → Set p p' → Agrees p'
unfolding toggle_bk_music toggle_sound_effect toggle_prompt toggle_animation on_change_board_style
    on_change_piece_style on_change_step_records reponse_match Chess.toggle_sound_effect
    Chess.toggle_prompt Chess.toggle_animation
Set-Agrees a music = record {
  music = (refl, refl);
  sound = a.sound;
  prompts = a.prompts;
  animation = a.animation;
  game = a.game;
}
Set-Agrees {p} a (sound e) =
    let (c, h, same) = with_cchess-returned _ _ _ e in
    subst Agrees same (record {
      music = a.music;
      sound = refl;
      prompts = a.prompts;
      animation = a.animation;
      game = replaced _ _ (
          ap (λ (s : Switches). (not p.client.config.switch_sound_effect, s.1, s.2, s.3, s.4))
            (a.game c h));
    })
Set-Agrees {p} a (prompts e) =
    let (c, h, same) = with_cchess-returned _ _ _ e in
    subst Agrees same (record {
      music = a.music;
      sound = a.sound;
      prompts = refl;
      animation = a.animation;
      game = replaced _ _ (
          ap (λ (s : Switches). (s.0, not p.client.config.switch_prompt, s.2, s.3, s.4))
            (a.game c h));
    })
Set-Agrees {p} a (animation e) =
    let (c, h, same) = with_cchess-returned _ _ _ e in
    subst Agrees same (record {
      music = a.music;
      sound = a.sound;
      prompts = a.prompts;
      animation = refl;
      game = replaced _ _ (
          ap (λ (s : Switches). (s.0, s.1, not p.client.config.switch_animation, s.3, s.4))
            (a.game c h));
    })
Set-Agrees {p} a (board idx e) =
    let (c, h, same) = with_cchess-returned _ _ _ e in
    subst Agrees same (record {
      music = a.music;
      sound = a.sound;
      prompts = a.prompts;
      animation = a.animation;
      game = replaced _ _ (
          change_board_style-switches idx c
          ∙ ap (λ (s : Switches). (s.0, s.1, s.2, idx, s.4)) (a.game c h));
    })
Set-Agrees {p} a (pieces idx e) =
    let (c, h, c', f, same) = with_cchess?-returned _ _ e in
    subst Agrees same (record {
      music = a.music;
      sound = a.sound;
      prompts = a.prompts;
      animation = a.animation;
      game = replaced _ _ (
          change_piece_style-switches idx c f
          ∙ ap (λ (s : Switches). (s.0, s.1, s.2, s.3, idx)) (a.game c h));
    })
Set-Agrees {p} a (steps length idx e) =
    let (c, h, c', f, same) = with_cchess?-returned _ _ e in
    subst Agrees same (record {
      music = a.music;
      sound = a.sound;
      prompts = a.prompts;
      animation = a.animation;
      game = replaced _ _ (skipped-switches idx _ _ c f ∙ a.game c h);
    })
Set-Agrees {p} a (matched {c = client} type room opp_user e) =
    let (c, f, g) = >>=-eq-some (create_chinese_chess _ _ _ none none) _ e in
    by_client (sym (ap (client_of p.client) g)) (create_chinese_chess-switches _ _ _ none none f)
  where
    client_of : Client → Option Client → Client
    client_of c none = c
    client_of c (some x) = x

    by_client :
        {c : ChineseChess} {side : Side} {opp : Option UserInfo} {dlg : Option Dialog}
        → client ≡ record p.client {
          config = record p.client.config { side = side };
          opp_user = opp;
          cchess = some c;
          dlg = dlg;
        }
        → switches c ≡ config_switches p.client.config
        → Agrees (record p { client = client })
    by_client h s =
        subst (λ x. Agrees (record p { client = x })) (sym h)
          (record {
            music = a.music;
            sound = a.sound;
            prompts = a.prompts;
            animation = a.animation;
            game = replaced _ _ s;
          })

-- Where there is no game, and the boxes show the settings of `config`, each of the handlers of
-- sound, prompts and animation throws, and leaves a page on which the box shows the opposite of
-- the setting.
pub toggle_sound_effect-threw :
    (p : Page)
    → Agrees p
    → p.client.cchess ≡ none
    → ((q : Page) × (toggle_sound_effect p ≡ threw q)
        × (q.sound_box ≡ not q.client.config.switch_sound_effect))
      × ((q : Page) × (toggle_prompt p ≡ threw q)
          × (q.prompt_box ≡ not q.client.config.switch_prompt))
      × ((q : Page) × (toggle_animation p ≡ threw q)
          × (q.animation_box ≡ not q.client.config.switch_animation))
unfolding toggle_sound_effect toggle_prompt toggle_animation with_cchess
toggle_sound_effect-threw p a h =
    let config : Config = p.client.config in
    (
      (
        configured (record config { switch_sound_effect = not config.switch_sound_effect }) p,
        rw h refl,
        a.sound ∙ sym (twice _),
      ),
      (
        configured (record config { switch_prompt = not config.switch_prompt }) p,
        rw h refl,
        a.prompts ∙ sym (twice _),
      ),
      (
        configured (record config { switch_animation = not config.switch_animation }) p,
        rw h refl,
        a.animation ∙ sym (twice _),
      ),
    )
  where
    twice : (b : Bool) → not (not b) ≡ b
    twice true = refl
    twice false = refl
