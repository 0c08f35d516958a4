-- ===== src/Migrate/Lock.antt =====
-- postgres/migrate.go: `acquireAdvisoryLock`. `query` asks for the lock and `sleep` waits for the
-- poll interval; both change the world `S`, whose clock counts nanoseconds. The loop runs on fuel.
pub mod Bounded
use orcacommon.Common.{
  ℕ, suc, zero, ◌+◌, ◌*◌, ltb, if◌then◌else◌, Bool, true, false, Option, none, some,
}

abbrev pub max_wait : ℕ
max_wait = 30 * 1000000000

abbrev pub poll : ℕ
poll = 500 * 1000000

pub data LockResult : Type 0 where
  locked : LockResult
  query_failed : LockResult
  timed_out : LockResult
  out_of_fuel : LockResult

-- What the loop calls: the query gives `none` for an error.
pub record World (S : Type 0) : Type 0 where
  pub clock : S → ℕ
  pub query : S → Option Bool × S
  pub sleep : S → S

module _ {S : Type 0} (world : World S) where
  -- The loop, with its deadline.
  unfoldable pub acquire : ℕ → ℕ → S → LockResult × S
  acquire deadline zero s = (out_of_fuel, s)
  acquire deadline (suc fuel) s =
      let (answer, asked) = world.query s in
      elim answer [
        | none ↦ (query_failed, asked)
        | some held ↦ elim held [
          | true ↦ (locked, asked)
          | false ↦ elim (ltb deadline (world.clock asked)) [
            | true ↦ (timed_out, asked)
            | false ↦ acquire deadline fuel (world.sleep asked)
          ]
        ]
      ]

  -- `acquireAdvisoryLock`; 62 rounds are enough.
  unfoldable pub acquire_advisory_lock : S → LockResult × S
  acquire_advisory_lock s = acquire (world.clock s + max_wait) 62 s
