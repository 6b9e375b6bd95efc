-- ===== src/Scheduler/Stops.antt =====
-- When the scheduler stops, and what it has done by then.
use npm_sentinel.Base.{◌≡◌, refl, ap, Bool, true, false, ◌||◌, List, [], ◌∷◌, ◌++◌, map, All}
use npm_sentinel.Core.Exceptions.{ok}
use npm_sentinel.Scheduler.{
  Round, LogLine, scheduler_started, scheduler_stopped, running_on, returned, tick_line, then_line,
  scheduler_loop, run_scheduler,
}

abbrev pub is_requested : Round → Bool
is_requested r = r.requested_in_tick || r.requested_in_wait

abbrev pub lines_of : List Round → List LogLine
lines_of rounds = map (λ r. tick_line r.tick) rounds

loop_stops :
    (before : List Round) (last : Round) (after : List Round)
    → All (λ r. is_requested r ≡ false) before
    → is_requested last ≡ true
    → scheduler_loop false (before ++ last ∷ after)
      ≡ (lines_of (before ++ last ∷ []) ++ scheduler_stopped ∷ [], returned)
unfolding scheduler_loop
loop_stops [] last after h requested = rw requested refl
loop_stops (r ∷ rs) last after (h, hs) requested =
    rw h (ap (then_line (tick_line r.tick)) (loop_stops rs last after hs requested))

loop_goes_on :
    (rounds : List Round)
    → All (λ r. is_requested r ≡ false) rounds
    → scheduler_loop false rounds ≡ (lines_of rounds, running_on)
unfolding scheduler_loop
loop_goes_on [] h = refl
loop_goes_on (r ∷ rs) (h, hs) = rw h (ap (then_line (tick_line r.tick)) (loop_goes_on rs hs))

-- If the database answers and no shutdown is requested before the loop: as long as none is requested in a round, the
-- scheduler runs on, with a tick for each round; the first round in which one is requested is the last one, with its
-- tick, and then the scheduler returns, whatever its ticks came to.
pub run_scheduler-stops :
    (before : List Round) (last : Round) (after : List Round)
    → All (λ r. is_requested r ≡ false) before
    → is_requested last ≡ true
    → (run_scheduler (ok tt) false before ≡ (scheduler_started ∷ lines_of before, running_on))
      × (run_scheduler (ok tt) false (before ++ last ∷ after) ≡ (
        scheduler_started ∷ lines_of (before ++ last ∷ []) ++ scheduler_stopped ∷ [],
        returned,
      ))
unfolding run_scheduler
run_scheduler-stops before last after h requested = (
  ap (then_line scheduler_started) (loop_goes_on before h),
  ap (then_line scheduler_started) (loop_stops before last after h requested),
)
