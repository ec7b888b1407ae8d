-- ===== src/Timer/Runs.antt =====
-- assets/js/chinese_chess.js: the clock through its turns.
use cchess.Base.{
  ℕ, suc, ◌+◌, ◌≡◌, ◌⊎◌, inl, inr, refl, ap, true, List, [], ◌∷◌, Option, none, some, ◌==◌, ==_iff,
}
use cchess.Base.Int.{pos, ◌-ℤ◌, int_laws}
use cchess.Timer.{
  PlayTimer, TimeInfo, create_play_timer, without, cleared, count, tick, start, expire, pause,
}

-- No timer of the browser runs for the clock.
pub record IsStopped (t : PlayTimer) : Type 0 where
  pub no_counts : t.counts ≡ []
  pub no_alarms : t.alarms ≡ []

-- One interval and one timeout run for it, and it knows which.
pub record IsRunning (t : PlayTimer) : Type 0 where
  pub interval : ℕ
  pub timeout : ℕ
  pub one_count : t.counts ≡ interval ∷ []
  pub one_alarm : t.alarms ≡ timeout ∷ []
  pub known_count : t.count_timer ≡ some interval
  pub known_alarm : t.inner_timer ≡ some timeout

pub create_play_timer-IsStopped : (info : TimeInfo) → IsStopped (create_play_timer info)
unfolding create_play_timer
create_play_timer-IsStopped info = record { no_counts = refl; no_alarms = refl }

pub start-IsRunning : (t : PlayTimer) → IsStopped t → IsRunning (start t)
unfolding start count
start-IsRunning t s = record {
  interval = t.issued;
  timeout = t.issued + 1;
  one_count = rw s.no_counts refl;
  one_alarm = rw s.no_alarms refl;
  known_count = refl;
  known_alarm = refl;
}

without-own : (id : ℕ) → without id (id ∷ []) ≡ []
unfolding without
without-own id = let same : (id == id) ≡ true = (==_iff id id).1 refl in rw same refl

-- What the clock may go through during a turn: seconds pass, and the step's time may run out.
pub data Turn (first : PlayTimer) : PlayTimer → Type 0 where
  started : Turn first (start first)
  ticked :
      {t : PlayTimer} (id : ℕ) (rest : List ℕ)
      → Turn first t
      → t.counts ≡ id ∷ rest
      → Turn first (tick t)
  expired :
      {t : PlayTimer} (id : ℕ) (rest : List ℕ)
      → Turn first t
      → t.alarms ≡ id ∷ rest
      → Turn first (expire id t)

-- The seconds that passed in the turn.
abbrev pub seconds : {first t : PlayTimer} → Turn first t → ℕ
seconds started = 0
seconds (ticked id rest turn e) = suc (seconds turn)
seconds (expired id rest turn e) = seconds turn

-- The clock in a turn after `n` seconds.
record During (first t : PlayTimer) (n : ℕ) : Type 0 where
  game : t.game_left_time ≡ first.game_left_time -ℤ pos n
  limit : t.step_time ≡ first.step_time
  live : IsRunning t ⊎ IsStopped t

tick-IsRunning : (t : PlayTimer) → IsRunning t → IsRunning (tick t)
unfolding tick
tick-IsRunning t r = record {
  interval = r.interval;
  timeout = r.timeout;
  one_count = r.one_count;
  one_alarm = r.one_alarm;
  known_count = r.known_count;
  known_alarm = r.known_alarm;
}

expire-IsStopped :
    (id : ℕ) (rest : List ℕ) (t : PlayTimer)
    → t.alarms ≡ id ∷ rest
    → IsRunning t
    → IsStopped (expire id t)
unfolding expire
expire-IsStopped id rest t e r =
    let same : r.timeout ≡ id = cc (r.one_alarm) in
    record {
      no_counts = rw (r.known_count, r.one_count) (without-own r.interval);
      no_alarms = rw (r.one_alarm, same) (without-own id);
    }

Turn-During :
    {first t : PlayTimer} → IsStopped first → (turn : Turn first t) → During first t (seconds turn)
unfolding start count tick expire
Turn-During {first} s started = record {
  game = omega int_laws;
  limit = refl;
  live = inl (start-IsRunning first s);
}
Turn-During s (ticked {t} id rest turn e) =
    let d = Turn-During s turn in
    record {
      game = rw d.game (omega int_laws);
      limit = d.limit;
      live = elim d.live [ inl r ↦ inl (tick-IsRunning t r) | inr r ↦ cc (r.no_counts, e) ];
    }
Turn-During s (expired {t} id rest turn e) =
    let d = Turn-During s turn in
    record {
      game = d.game;
      limit = d.limit;
      live = elim d.live [
        | inl r ↦ inr (expire-IsStopped id rest t e r)
        | inr r ↦ cc (r.no_alarms, e)
      ];
    }

pub pause-IsStopped : (t : PlayTimer) → IsRunning t ⊎ IsStopped t → IsStopped (pause t)
unfolding pause
pause-IsStopped t (inl r) = record {
  no_counts = rw (r.known_count, r.one_count) (without-own r.interval);
  no_alarms = rw (r.known_alarm, r.one_alarm) (without-own r.timeout);
}
pause-IsStopped t (inr s) = record {
  no_counts = rw s.no_counts (gone t.count_timer);
  no_alarms = rw s.no_alarms (gone t.inner_timer);
}
  where
    gone : (o : Option ℕ) → cleared o [] ≡ []
    gone none = refl
    gone (some id) = unfold without in refl

-- For a clock with no browser timer running that is started, and then ticks and expires while its
-- timers live, `pause` leaves no interval and no timeout running, resets the time of the step,
-- and leaves the time of the game less one second for each tick.
pub pause-Turn :
    {first t : PlayTimer}
    → IsStopped first
    → (turn : Turn first t)
    → IsStopped (pause t)
      × ((pause t).step_left_time ≡ pos first.step_time)
      × ((pause t).game_left_time ≡ first.game_left_time -ℤ pos (seconds turn))
unfolding pause
pause-Turn {t} s turn =
    let d = Turn-During s turn in (pause-IsStopped t d.live, ap pos d.limit, d.game)
