-- ===== src/Timer.antt =====
-- assets/js/chinese_chess.js: `PlayTimer`, the clock of one player, and the texts of its labels. The
-- browser's timers are the identifiers that are live; a live interval ticks and a live timeout
-- expires whenever the browser runs it.
pub mod Runs
use cchess.Base.{
  ℕ, zero, suc, ◌+◌, ◌-◌, ◌*◌, ◌/◌, ◌%◌, Bool, true, false, List, [], ◌∷◌, ◌++◌, Option, none, some,
  ltb, ◌==◌, if◌then◌else◌,
}
use cchess.Base.Int.{ℤ, pos, negsuc, sub_ℕ, ◌-ℤ◌}

pub record TimeInfo : Type 0 where
  pub game_time : ℕ
  pub step_time : ℕ
  pub game_spend_time : ℕ
  pub step_spend_time : ℕ

-- `QUICKLY_PATTERN_TIME` and `SLOWLY_PATTERN_TIME`
abbrev pub quickly_pattern_time : TimeInfo
quickly_pattern_time = record {
  game_time = 10 * 60;
  step_time = 60;
  game_spend_time = 0;
  step_spend_time = 0;
}

abbrev pub slowly_pattern_time : TimeInfo
slowly_pattern_time = record {
  game_time = 20 * 60;
  step_time = 3 * 60;
  game_spend_time = 0;
  step_spend_time = 0;
}

-- `counts` and `alarms` are the live intervals and timeouts of this clock, and `issued` how many
-- identifiers it was given. The labels show the times that are left.
pub record PlayTimer : Type 0 where
  pub game_time : ℕ
  pub step_time : ℕ
  pub game_left_time : ℤ
  pub step_left_time : ℤ
  pub count_timer : Option ℕ
  pub inner_timer : Option ℕ
  pub counts : List ℕ
  pub alarms : List ℕ
  pub issued : ℕ
  pub game_label : ℤ
  pub step_label : ℤ
  pub progress : Bool

-- The constructor.
unfoldable pub create_play_timer : TimeInfo → PlayTimer
create_play_timer info =
    let game_left : ℤ = sub_ℕ info.game_time info.game_spend_time in
    let step_left : ℤ = sub_ℕ info.step_time info.step_spend_time in
    record {
      game_time = info.game_time;
      step_time = info.step_time;
      game_left_time = game_left;
      step_left_time = step_left;
      count_timer = none;
      inner_timer = none;
      counts = [];
      alarms = [];
      issued = 0;
      game_label = game_left;
      step_label = step_left;
      progress = false;
    }

-- `clearInterval` and `clearTimeout`; an unknown identifier is ignored.
unfoldable pub without : ℕ → List ℕ → List ℕ
without id [] = []
without id (live ∷ rest) = if live == id then without id rest else live ∷ without id rest

abbrev pub cleared : Option ℕ → List ℕ → List ℕ
cleared none live = live
cleared (some id) live = without id live

-- `displayTimeOnLabel` on both labels.
abbrev pub display_times : PlayTimer → PlayTimer
display_times t = record t { game_label = t.game_left_time; step_label = t.step_left_time }

-- `count`
unfoldable pub count : PlayTimer → PlayTimer
count t = record t {
  count_timer = some t.issued;
  counts = t.issued ∷ t.counts;
  issued = t.issued + 1;
}

-- The function that the interval runs.
unfoldable pub tick : PlayTimer → PlayTimer
tick t = display_times (record t {
  step_left_time = t.step_left_time -ℤ pos 1;
  game_left_time = t.game_left_time -ℤ pos 1;
})

-- `start`
unfoldable pub start : PlayTimer → PlayTimer
start t =
    let counted : PlayTimer = count (record t { progress = true }) in
    record counted {
      inner_timer = some counted.issued;
      alarms = counted.issued ∷ counted.alarms;
      issued = counted.issued + 1;
    }

-- The function that the timeout `id` runs; the callback is null.
unfoldable pub expire : ℕ → PlayTimer → PlayTimer
expire id t = display_times (record t {
  progress = false;
  counts = cleared t.count_timer t.counts;
  alarms = without id t.alarms;
  step_left_time = pos t.step_time;
})

-- `pause`
unfoldable pub pause : PlayTimer → PlayTimer
pause t = display_times (record t {
  progress = false;
  counts = cleared t.count_timer t.counts;
  alarms = cleared t.inner_timer t.alarms;
  step_left_time = pos t.step_time;
})

-- A number that is not negative, as its digits.
unfoldable pub decimal : ℕ → ℕ → List ℕ
decimal zero n = []
decimal (suc size) n =
    let higher = decimal size (n / 10) in
    if ltb n 10 then (b'0' + n) ∷ [] else higher ++ ((b'0' + n % 10) ∷ [])

-- `twoNumberString`, for numbers of at most ten digits.
unfoldable pub two_number_string : ℕ → List ℕ
two_number_string num = if ltb num 10 then b'0' ∷ decimal 10 num else decimal 10 num

-- `timeToString`, and what `displayTimeOnLabel` writes for a time that is not negative.
unfoldable pub time_to_string : ℕ → ℕ → List ℕ
time_to_string min sec = two_number_string min ++ (b' ' ∷ b':' ∷ b' ' ∷ two_number_string sec)

unfoldable pub label_text : ℕ → List ℕ
label_text time = let min : ℕ = time / 60 in time_to_string min (time - min * 60)
