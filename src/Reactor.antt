-- ===== src/Reactor.antt =====
-- core/reactor.h and core/reactor.c: one periodic timer behind epoll. `Epoll` stands for the
-- operating system's calls.
pub mod Descriptors
pub mod Timer
use edgeflow_energy_gateway.Common.{
  ℕ, ◌*◌, ◌/◌, ◌%◌, Bool, true, false, Option, none, some, List, [], ◌∷◌, ◌==◌, if◌then◌else◌,
}

-- The answer of epoll_wait: the descriptors that are ready, EINTR, or another error.
pub data Waited : Type 0 where
  ready : List ℕ → Waited
  interrupted : Waited
  failed : Waited

pub record Epoll (W : Type 0) : Type 0 where
  -- epoll_create1 and timerfd_create
  pub create : W → Option ℕ × W
  pub create_timer : W → Option ℕ × W
  -- epoll_ctl with EPOLL_CTL_ADD and EPOLLIN
  pub add : ℕ → ℕ → W → Bool × W
  -- timerfd_settime with these seconds and nanoseconds for the first expiration and the interval
  pub set_timer : ℕ → ℕ → ℕ → W → Bool × W
  -- at most so many events within so many milliseconds
  pub wait : ℕ → ℕ → ℕ → W → Waited × W
  -- whether a read of the eight bytes of a timer gives any
  pub read_expirations : ℕ → W → Bool × W
  pub close : ℕ → W → W

-- `struct reactor`; `armed` says that the callback of the timer is not NULL.
pub record Reactor : Type 0 where
  pub epfd : ℕ
  pub timer_fd : ℕ
  pub armed : Bool
  pub running : Bool

abbrev pub reactor_max_events : ℕ
reactor_max_events = 8

-- The seconds and nanoseconds of an interval.
abbrev pub tv_sec : ℕ → ℕ
tv_sec interval_ms = interval_ms / 1000

abbrev pub tv_nsec : ℕ → ℕ
tv_nsec interval_ms = interval_ms % 1000 * 1000000

abbrev pub reactor_stop : Reactor → Reactor
reactor_stop r = record r { running = false }

module _ {W : Type 0} (os : Epoll W) where
  -- From the timer's descriptor on.
  unfoldable pub watch_timer : ℕ → ℕ → W → Option Reactor × W
  watch_timer epfd timer_fd w =
      let (added, w₁) = os.add epfd timer_fd w in
      if added
      then (some (record { epfd = epfd; timer_fd = timer_fd; armed = false; running = true }), w₁)
      else (none, os.close epfd (os.close timer_fd w₁))

  -- From the descriptor of epoll on.
  unfoldable pub make_timer : ℕ → W → Option Reactor × W
  unfolding watch_timer
  make_timer epfd w = elim (os.create_timer w).0 [
    | none ↦ (none, os.close epfd (os.create_timer w).1)
    | some timer_fd ↦ watch_timer epfd timer_fd (os.create_timer w).1
  ]

  -- `memory` says that `calloc` succeeds.
  unfoldable pub reactor_init : Bool → W → Option Reactor × W
  unfolding make_timer
  reactor_init false w = (none, w)
  reactor_init true w = elim (os.create w).0 [
    | none ↦ (none, (os.create w).1)
    | some epfd ↦ make_timer epfd (os.create w).1
  ]

  unfoldable pub reactor_destroy : Reactor → W → W
  reactor_destroy r w = os.close r.epfd (os.close r.timer_fd w)

  unfoldable pub reactor_add_timer_ms : ℕ → Reactor → W → Bool × Reactor × W
  reactor_add_timer_ms interval_ms r w =
      let (set, w₁) = os.set_timer r.timer_fd (tv_sec interval_ms) (tv_nsec interval_ms) w in
      if interval_ms == 0 then (false, r, w) else (set, record r { armed = true }, w₁)

  -- `cb` is the callback, on the state that its `user_data` points to.
  module _ {S : Type 0} (cb : S → W → S × W) where
    unfoldable pub handle_events : Reactor → List ℕ → S → W → S × W
    handle_events r [] s w = (s, w)
    handle_events r (fd ∷ fds) s w =
        let (expired, w₁) = os.read_expirations r.timer_fd w in
        let (s₁, w₂) = cb s w₁ in
        let called : S × W = if r.armed then (s₁, w₂) else (s, w₁) in
        let after : S × W = if expired then called else (s, w₁) in
        let next : S × W = if fd == r.timer_fd then after else (s, w) in
        handle_events r fds next.0 next.1

    -- True for 0.
    unfoldable pub reactor_run_once : ℕ → Reactor → S → W → Bool × S × W
    unfolding handle_events
    reactor_run_once timeout_ms r s w =
        let w₁ = (os.wait r.epfd reactor_max_events timeout_ms w).1 in
        let waited : Bool × S × W = elim (os.wait r.epfd reactor_max_events timeout_ms w).0 [
          | failed ↦ (false, s, w₁)
          | interrupted ↦ (true, s, w₁)
          | ready fds ↦ let (s', w') = handle_events r fds s w₁ in (true, s', w')
        ] in
        if r.running then waited else (false, s, w)
