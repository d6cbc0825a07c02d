-- ===== src/Reactor/Descriptors.antt =====
-- The descriptors that core/reactor.c takes and gives back, on its error paths too.
use edgeflow_energy_gateway.Common.{
  ℕ, ◌+◌, ◌*◌, ◌≤◌, ◌≡◌, refl, ◌∙◌, Bool, true, false, Bool-cases, none, some, Option-cases, inl,
  inr, held, arith, List, [], ◌∷◌, ◌==◌,
}
use edgeflow_energy_gateway.Reactor.{
  Epoll, Reactor, tv_sec, tv_nsec, handle_events, reactor_run_once, reactor_add_timer_ms,
  reactor_max_events, watch_timer, make_timer, reactor_init, reactor_destroy,
}
use edgeflow_energy_gateway.Reactor.Timer.{Waited-cases}

-- `open_fds w` counts the descriptors that have been made and not yet closed.
pub record CountsDescriptors {W : Type 0} (os : Epoll W) (open_fds : W → ℕ) : Type 0 where
  pub created :
      (w : W) (fd : ℕ) → (os.create w).0 ≡ some fd → open_fds (os.create w).1 ≡ open_fds w + 1
  pub not_created : (w : W) → (os.create w).0 ≡ none → open_fds (os.create w).1 ≡ open_fds w
  pub timer_created :
      (w : W) (fd : ℕ)
      → (os.create_timer w).0 ≡ some fd
      → open_fds (os.create_timer w).1 ≡ open_fds w + 1
  pub timer_not_created :
      (w : W) → (os.create_timer w).0 ≡ none → open_fds (os.create_timer w).1 ≡ open_fds w
  pub open_fds-add : (epfd fd : ℕ) (w : W) → open_fds (os.add epfd fd w).1 ≡ open_fds w
  pub open_fds-set_timer : (fd s ns : ℕ) (w : W) → open_fds (os.set_timer fd s ns w).1 ≡ open_fds w
  pub open_fds-wait : (epfd n ms : ℕ) (w : W) → open_fds (os.wait epfd n ms w).1 ≡ open_fds w
  pub open_fds-read : (fd : ℕ) (w : W) → open_fds (os.read_expirations fd w).1 ≡ open_fds w
  pub open_fds-close : (fd : ℕ) (w : W) → 1 ≤ open_fds w → open_fds (os.close fd w) + 1 ≡ open_fds w

module _ {W : Type 0} (os : Epoll W) (open_fds : W → ℕ)
    (counts : CountsDescriptors os open_fds) where
  open_fds-watch_timer :
      (epfd fd before : ℕ) (w : W)
      → open_fds w ≡ before + 2
      → let (r, w') = watch_timer os epfd fd w in open_fds w' ≡ before + 2 * held r
  unfolding watch_timer
  open_fds-watch_timer epfd fd before w h =
      let w₁ = (os.add epfd fd w).1 in
      ground (
        arith,
        h,
        counts.open_fds-add epfd fd w,
        counts.open_fds-close fd w₁,
        counts.open_fds-close epfd (os.close fd w₁),
      )

  open_fds-make_timer :
      (epfd before : ℕ) (w : W)
      → open_fds w ≡ before + 1
      → let (r, w') = make_timer os epfd w in open_fds w' ≡ before + 2 * held r
  unfolding make_timer
  open_fds-make_timer epfd before w h =
      let w₁ = (os.create_timer w).1 in
      elim (Option-cases (os.create_timer w).0) [
        | inl e ↦
            rw (e, make_timer)
              (omega (arith, h, counts.timer_not_created w e, counts.open_fds-close epfd w₁))
        | inr (fd, e) ↦
            rw (e, make_timer)
              (open_fds-watch_timer epfd fd before w₁
                (omega (arith, h, counts.timer_created w fd e)))
      ]

  -- A call of `reactor_init` leaves two descriptors open if it gives a reactor, and none if it
  -- fails, whichever of its calls that is.
  pub open_fds-reactor_init :
      (memory : Bool) (w : W)
      → let (r, w') = reactor_init os memory w in open_fds w' ≡ open_fds w + 2 * held r
  unfolding reactor_init
  open_fds-reactor_init false w = omega arith
  open_fds-reactor_init true w = elim (Option-cases (os.create w).0) [
    | inl e ↦ rw (e, reactor_init) (omega (arith, counts.not_created w e))
    | inr (fd, e) ↦
        rw (e, reactor_init)
          (open_fds-make_timer fd (open_fds w) (os.create w).1 (counts.created w fd e))
  ]

  -- `reactor_destroy` closes both.
  pub open_fds-reactor_destroy :
      (r : Reactor) (before : ℕ) (w : W)
      → open_fds w ≡ before + 2
      → open_fds (reactor_destroy os r w) ≡ before
  unfolding reactor_destroy
  open_fds-reactor_destroy r before w h = omega (
    arith,
    h,
    counts.open_fds-close r.timer_fd w,
    counts.open_fds-close r.epfd (os.close r.timer_fd w),
  )

  pub open_fds-add_timer_ms :
      (interval_ms : ℕ) (r : Reactor) (w : W)
      → open_fds (reactor_add_timer_ms os interval_ms r w).2 ≡ open_fds w
  unfolding reactor_add_timer_ms
  open_fds-add_timer_ms interval_ms r w =
      ground
        (arith, counts.open_fds-set_timer r.timer_fd (tv_sec interval_ms) (tv_nsec interval_ms) w)

  module _ {S : Type 0} (cb : S → W → S × W)
      (leaves : (s : S) (w : W) → open_fds (cb s w).1 ≡ open_fds w) where
    open_fds-handle_events :
        (r : Reactor) (fds : List ℕ) (s : S) (w : W)
        → open_fds (handle_events os cb r fds s w).1 ≡ open_fds w
    unfolding handle_events
    open_fds-handle_events r [] s w = refl
    open_fds-handle_events r (fd ∷ fds) s w =
        let (expired, w₁) = os.read_expirations r.timer_fd w in
        let read = counts.open_fds-read r.timer_fd w in
        elim (Bool-cases (fd == r.timer_fd)) [
          | inr other ↦ rw (other, handle_events) (open_fds-handle_events r fds s w)
          | inl timer ↦ elim (Bool-cases expired) [
            | inr quiet ↦
                rw (timer, quiet, handle_events) (open_fds-handle_events r fds s w₁ ∙ read)
            | inl fired ↦ elim (Bool-cases r.armed) [
              | inr unset ↦
                  rw (timer, fired, unset, handle_events) (open_fds-handle_events r fds s w₁ ∙ read)
              | inl armed ↦
                  rw (timer, fired, armed, handle_events)
                    (open_fds-handle_events r fds (cb s w₁).0 (cb s w₁).1 ∙ leaves s w₁ ∙ read)
            ]
          ]
        ]

    pub open_fds-run_once :
        (timeout_ms : ℕ) (r : Reactor) (s : S) (w : W)
        → open_fds (reactor_run_once os cb timeout_ms r s w).2 ≡ open_fds w
    unfolding reactor_run_once
    open_fds-run_once timeout_ms r s w =
        let w₁ = (os.wait r.epfd reactor_max_events timeout_ms w).1 in
        let waited = counts.open_fds-wait r.epfd reactor_max_events timeout_ms w in
        elim (Bool-cases r.running) [
          | inr stopped ↦ rw (stopped, reactor_run_once) refl
          | inl running ↦ elim (Waited-cases (os.wait r.epfd reactor_max_events timeout_ms w).0) [
            | inl (fds, e) ↦
                rw (running, e, reactor_run_once) (open_fds-handle_events r fds s w₁ ∙ waited)
            | inr (inl e) ↦ rw (running, e, reactor_run_once) waited
            | inr (inr e) ↦ rw (running, e, reactor_run_once) waited
          ]
        ]
