-- ===== src/Pool/Registry/Schedule.antt =====
-- The goroutines by a schedule: who makes the next step, and what the environment decides.
use orcacommon.Common.{ℕ, ◌≡◌, refl, Option, none, some, List, [], ◌∷◌}
use orcacommon.Pool.Registry.Threads.{Pc, Choice, step, World, after, Reached, moved}
use orcacommon.Pool.Registry.{Store}

abbrev pub apply_step : Option (Pc × Store) → ℕ → World → World
apply_step none t w = w
apply_step (some r) t w = after t r.0 r.1 w

-- A goroutine that cannot go on is passed over.
unfoldable pub run : List (ℕ × Choice) → World → World
run [] w = w
run ((t, c) ∷ schedule) w = run schedule (apply_step (step c (w.threads t) w.store) t w)

apply_step-Reached :
    (w : World) (c : Choice) (t : ℕ) (r : Option (Pc × Store))
    → step c (w.threads t) w.store ≡ r
    → Reached w
    → Reached (apply_step r t w)
apply_step-Reached w c t none e h = h
apply_step-Reached w c t (some (pc, s)) e h = moved c t pc s h e

-- What a schedule comes to is reached.
pub run-Reached : (schedule : List (ℕ × Choice)) (w : World) → Reached w → Reached (run schedule w)
unfolding run
run-Reached [] w h = h
run-Reached ((t, c) ∷ schedule) w h =
    run-Reached schedule (apply_step (step c (w.threads t) w.store) t w)
      (apply_step-Reached w c t (step c (w.threads t) w.store) refl h)
