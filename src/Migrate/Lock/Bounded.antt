-- ===== src/Migrate/Lock/Bounded.antt =====
-- The loop ends, and does not give up early.
use orcacommon.Common.{
  ℕ, suc, zero, ◌+◌, ◌*◌, ◌≤◌, ◌<◌, ◌≡◌, refl, ltb, ltb→lt, true, false, none, some, arith,
  Bool-cases, Option-cases, inl, inr, ◌⊎◌,
}
use orcacommon.Migrate.Lock.{
  max_wait, poll, LockResult, locked, query_failed, timed_out, out_of_fuel, World, acquire,
  acquire_advisory_lock,
}

-- Time does not run backwards, and the wait between two queries is not shorter than the interval.
pub record IsClocked {S : Type 0} (world : World S) : Type 0 where
  pub query_takes : (s : S) → world.clock s ≤ world.clock (world.query s).1
  pub sleep_takes : (s : S) → world.clock s + poll ≤ world.clock (world.sleep s)

module _ {S : Type 0} (world : World S) where
  -- The rounds that end without the lock, before the deadline.
  pub data Waited (deadline : ℕ) : S → S → Type 0 where
    here : {s : S} → Waited deadline s s
    again :
        {s end : S}
        → (world.query s).0 ≡ some false
        → world.clock (world.query s).1 ≤ deadline
        → Waited deadline (world.sleep (world.query s).1) end
        → Waited deadline s end

  -- How the last round ends.
  abbrev pub Ended : ℕ → S → LockResult → Type 0
  Ended deadline s locked = (world.query s).0 ≡ some true
  Ended deadline s query_failed = (world.query s).0 ≡ none
  Ended deadline s timed_out =
      ((world.query s).0 ≡ some false) × (deadline < world.clock (world.query s).1)
  Ended deadline s out_of_fuel = ⊥

  abbrev pub Ends : ℕ → S → LockResult × S → Type 0
  Ends deadline s (result, end) =
      (last : S) × Waited deadline s last
      × Ended deadline last result
      × (end ≡ (world.query last).1)

  ltb-false_le : (a b : ℕ) → ltb a b ≡ false → b ≤ a
  ltb-false_le a b h = ground arith

  continued :
      (deadline fuel : ℕ) (s : S)
      → (world.query s).0 ≡ some false
      → ltb deadline (world.clock (world.query s).1) ≡ false
      → Ends deadline
          (world.sleep (world.query s).1)
          (acquire world deadline fuel (world.sleep (world.query s).1))
      → Ends deadline s (acquire world deadline (suc fuel) s)
  unfolding acquire
  continued deadline fuel s e early (last, waited, ended, same) =
      rw (e, acquire, early) (last, again e (ltb-false_le deadline _ early) waited, ended, same)

  no_time :
      (deadline : ℕ) (s : S)
      → IsClocked world
      → ltb deadline (world.clock (world.query s).1) ≡ false
      → ¬ (deadline < world.clock s + 0 * poll)
  no_time deadline s c early enough =
      let le : world.clock (world.query s).1 ≤ deadline = ltb-false_le deadline _ early in
      let takes : world.clock s ≤ world.clock (world.query s).1 = c.query_takes s in omega arith

  time_left :
      (deadline fuel : ℕ) (s : S)
      → IsClocked world
      → deadline < world.clock s + suc fuel * poll
      → deadline < world.clock (world.sleep (world.query s).1) + fuel * poll
  time_left deadline fuel s c enough =
      let takes : world.clock s ≤ world.clock (world.query s).1 = c.query_takes s in
      let waits : world.clock (world.query s).1 + poll
          ≤ world.clock (world.sleep (world.query s).1) =
        c.sleep_takes (world.query s).1 in
      omega arith

  -- A round ends the loop, or the lock is not there and there is time left.
  round_cases :
      (deadline fuel : ℕ) (s : S)
      → Ends deadline s (acquire world deadline (suc fuel) s)
        ⊎ (((world.query s).0 ≡ some false)
            × (ltb deadline (world.clock (world.query s).1) ≡ false))
  unfolding acquire
  round_cases deadline fuel s = elim (Option-cases (world.query s).0) [
    | inl e ↦ inl (rw (e, acquire) (s, here, e, refl))
    | inr (true, e) ↦ inl (rw (e, acquire) (s, here, e, refl))
    | inr (false, e) ↦ elim (Bool-cases (ltb deadline (world.clock (world.query s).1))) [
      | inl late ↦ inl (rw (e, acquire, late) (s, here, (e, ltb→lt deadline _ late), refl))
      | inr early ↦ inr (e, early)
    ]
  ]

  acquire-Ends :
      (deadline fuel : ℕ) (s : S)
      → IsClocked world
      → deadline < world.clock s + fuel * poll
      → Ends deadline s (acquire world deadline (suc fuel) s)
  acquire-Ends deadline zero s c enough = elim (round_cases deadline zero s) [
    | inl ended ↦ ended
    | inr (e, early) ↦ absurd (no_time deadline s c early enough)
  ]
  acquire-Ends deadline (suc fuel) s c enough = elim (round_cases deadline (suc fuel) s) [
    | inl ended ↦ ended
    | inr (e, early) ↦ continued deadline (suc fuel) s e early (
        acquire-Ends deadline fuel (world.sleep (world.query s).1) c
          (time_left deadline fuel s c enough))
  ]

  -- If a query does not turn the clock back and a wait is as long as the poll interval, the loop ends
  -- with the lock, with an error of a query, or because more than 30 seconds have passed without
  -- the lock: it never runs on, and it never gives up earlier.
  pub acquire_bounded :
      (s : S) → IsClocked world → Ends (world.clock s + max_wait) s (acquire_advisory_lock world s)
  unfolding acquire_advisory_lock
  acquire_bounded s c = acquire-Ends (world.clock s + max_wait) 61 s c (omega arith)
