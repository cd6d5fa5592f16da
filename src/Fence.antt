-- ===== src/Fence.antt =====
-- `LifecycleFence` of crates/remtene-application/src/ports.rs: the barrier that a shutdown closes
-- and waits for. Each method holds the mutex for its whole body; waking the waiters is left to the
-- scheduler, which may run a waiter whenever its condition holds.
pub mod Quiescence
use rem_tene_public.Base.{ℕ, ◌+◌, ◌-◌, Bool, true, false, Option, none, some, ◌==◌, if◌then◌else◌}

-- `LifecycleFenceState`; `in_flight` counts the guards that are held.
pub record Fence : Type 0 where
  pub is_open : Bool
  pub in_flight : ℕ

unfoldable pub new : Fence
new = record { is_open = true; in_flight = 0 }

-- The new state, and whether a guard was given.
unfoldable pub begin_commit : Fence → Fence × Bool
begin_commit f = if f.is_open then (record f { in_flight = f.in_flight + 1 }, true) else (f, false)

unfoldable pub invalidate : Fence → Fence
invalidate f = record f { is_open = false }

-- `CommitGuard::drop`; `saturating_sub` is the subtraction of ℕ.
unfoldable pub end_commit : Fence → Fence
end_commit f = record f { in_flight = f.in_flight - 1 }

-- The test of `LifecycleQuiescence::poll`.
unfoldable pub is_quiescent : Fence → Bool
is_quiescent f = f.in_flight == 0
