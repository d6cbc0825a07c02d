-- ===== src/Reactor/Timer.antt =====
-- The timer of core/reactor.c: its interval, and how often its callback runs.
use edgeflow_energy_gateway.Common.{
  ℕ, ◌+◌, ◌*◌, ◌<◌, ◌≡◌, refl, Bool-cases, ◌⊎◌, inl, inr, List, [], ◌∷◌, ◌==◌, arith,
}
use edgeflow_energy_gateway.Reactor.{
  Epoll, Reactor, Waited, ready, interrupted, failed, tv_sec, tv_nsec, handle_events,
  reactor_run_once, reactor_max_events,
}

-- The two fields of the timer say the interval exactly: the nanoseconds stay below a second, and
-- both are 0, which would disarm the timer, only for an interval of 0.
pub timer-interval :
    (interval_ms : ℕ)
    → (tv_sec interval_ms * 1000000000 + tv_nsec interval_ms ≡ interval_ms * 1000000)
      × (tv_nsec interval_ms < 1000000000)
      × (tv_sec interval_ms + tv_nsec interval_ms ≡ 0 → interval_ms ≡ 0)
timer-interval interval_ms = grind arith

pub Waited-cases :
    (a : Waited) → ((fds : List ℕ) × (a ≡ ready fds)) ⊎ ((a ≡ interrupted) ⊎ (a ≡ failed))
Waited-cases (ready fds) = inl (fds, refl)
Waited-cases interrupted = inr (inl refl)
Waited-cases failed = inr (inr refl)

-- What every call of the callback keeps of the state, whatever the world is, the reactor keeps.
module _ {W S : Type 0} (os : Epoll W) (cb : S → W → S × W) (Kept : S → Type 0)
    (keeps : (s : S) (w : W) → Kept s → Kept (cb s w).0) where
  handle_events-Kept :
      (r : Reactor) (fds : List ℕ) (s : S) (w : W) → Kept s → Kept (handle_events os cb r fds s w).0
  unfolding handle_events
  handle_events-Kept r [] s w k = k
  handle_events-Kept r (fd ∷ fds) s w k =
      let (expired, w₁) = os.read_expirations r.timer_fd w in
      let called = keeps s w₁ k in
      elim (Bool-cases (fd == r.timer_fd)) [
        | inr other ↦ rw (other, handle_events) (handle_events-Kept r fds s w k)
        | inl timer ↦ elim (Bool-cases expired) [
          | inr quiet ↦ rw (timer, quiet, handle_events) (handle_events-Kept r fds s w₁ k)
          | inl fired ↦ elim (Bool-cases r.armed) [
            | inr unset ↦ rw (timer, fired, unset, handle_events) (handle_events-Kept r fds s w₁ k)
            | inl armed ↦
                rw (timer, fired, armed, handle_events)
                  (handle_events-Kept r fds (cb s w₁).0 (cb s w₁).1 called)
          ]
        ]
      ]

  pub run_once-Kept :
      (timeout_ms : ℕ) (r : Reactor) (s : S) (w : W)
      → Kept s
      → Kept (reactor_run_once os cb timeout_ms r s w).1
  unfolding reactor_run_once
  run_once-Kept timeout_ms r s w k =
      let w₁ = (os.wait r.epfd reactor_max_events timeout_ms w).1 in
      elim (Bool-cases r.running) [
        | inr stopped ↦ rw (stopped, reactor_run_once) k
        | inl running ↦ elim (Waited-cases (os.wait r.epfd reactor_max_events timeout_ms w).0) [
          | inl (fds, e) ↦ rw (running, e, reactor_run_once) (handle_events-Kept r fds s w₁ k)
          | inr (inl e) ↦ rw (running, e, reactor_run_once) k
          | inr (inr e) ↦ rw (running, e, reactor_run_once) k
        ]
      ]
