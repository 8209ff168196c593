-- ===== src/Blk/Worker.antt =====
-- The orders in which the two threads of a block device in tools/virtio/devices/blk/virtio_blk.c may run,
-- and the handshake of `virtio_blk_reset`.
use hvisor_tool.Base.{◌≡◌, ◌≢◌, ◌⊎◌, inl, inr, refl, Bool, true, false, arith}
use hvisor_tool.Blk.Threads.{
  WorkerAt, waiting, asleep, decided, draining, parked, rechecking, exited, MainAt, idle, resetting,
  sleeping, reinitializing, closed, Threads, wake_main, WorkerStep, wakes, sleeps, parks, passes,
  stays, resumes, drains, loops, exits, MainStep, notifies, asks, waits, granted, reinitialized,
  closes, joined, Step, by_worker, by_main, worker_stirs, main_stirs,
}

pub data Reach (s : Threads) : Threads → Type 0 where
  start : Reach s s
  later : {t u : Threads} → Reach s t → Step t u → Reach s u

-- As `start_blk_worker` leaves them.
abbrev pub started : Threads
started = record {
  close = false;
  reset = false;
  worker_paused = false;
  worker = waiting;
  main = idle;
}

-- The worker is in the wait of a reset.
abbrev pub InPause : WorkerAt → Type 0
InPause w = (w ≡ parked) ⊎ (w ≡ rechecking)

-- The main thread is in the wait of `virtio_blk_reset`.
abbrev pub InReset : MainAt → Type 0
InReset m = (m ≡ resetting) ⊎ (m ≡ sleeping)

pub record Inv (s : Threads) : Type 0 where
  pub paused : s.worker_paused ≡ true → InPause s.worker
  pub parked_paused : s.worker ≡ parked → s.worker_paused ≡ true
  pub held : s.main ≡ reinitializing → InPause s.worker × (s.reset ≡ true) × (s.close ≡ false)
  pub asked : InReset s.main → (s.reset ≡ true) × (s.close ≡ false)
  pub awake : InReset s.main → s.worker ≢ asleep
  pub unpaused : s.main ≡ sleeping → s.worker_paused ≡ false
  pub not_closing : s.main ≡ idle → s.close ≡ false
  pub joined_after : s.main ≡ closed → s.worker ≡ exited
  pub gone : s.worker ≡ exited → s.close ≡ true
  pub last : s.worker ≡ draining true → s.close ≡ true
  pub copied : (was_reset : Bool) → s.worker ≡ decided true was_reset → s.close ≡ true

WorkerStep-Inv : (s t : Threads) → WorkerStep s t → Inv s → Inv t
WorkerStep-Inv s t (wakes empty e h) v = ground (
  arith, v.paused, v.parked_paused, v.held, v.asked, v.awake, v.unpaused, v.not_closing,
  v.joined_after, v.gone, v.last,
)
WorkerStep-Inv s t (sleeps e c h) v = ground (
  arith, v.paused, v.parked_paused, v.held, v.asked, v.awake, v.unpaused, v.not_closing,
  v.joined_after, v.gone, v.last,
)
WorkerStep-Inv s t (parks e h c) v = ground (
  arith, v.paused, v.parked_paused, v.held, v.asked, v.awake, v.unpaused, v.not_closing,
  v.joined_after, v.gone, v.last,
)
WorkerStep-Inv s t (passes e h) v = ground (
  arith, v.paused, v.parked_paused, v.held, v.asked, v.awake, v.unpaused, v.not_closing,
  v.joined_after, v.gone, v.last,
)
WorkerStep-Inv s t (stays e h c) v = ground (
  arith, v.paused, v.parked_paused, v.held, v.asked, v.awake, v.unpaused, v.not_closing,
  v.joined_after, v.gone, v.last,
)
WorkerStep-Inv s t (resumes e h) v = ground (
  arith, v.paused, v.parked_paused, v.held, v.asked, v.awake, v.unpaused, v.not_closing,
  v.joined_after, v.gone, v.last,
)
WorkerStep-Inv s t (drains closing b e h) v = ground (
  arith,
  v.paused,
  v.parked_paused,
  v.held,
  v.asked,
  v.awake,
  v.unpaused,
  v.not_closing,
  v.joined_after,
  v.gone,
  v.last,
  v.copied b,
)
WorkerStep-Inv s t (loops e) v = ground (
  arith, v.paused, v.parked_paused, v.held, v.asked, v.awake, v.unpaused, v.not_closing,
  v.joined_after, v.gone, v.last,
)
WorkerStep-Inv s t (exits e) v = ground (
  arith, v.paused, v.parked_paused, v.held, v.asked, v.awake, v.unpaused, v.not_closing,
  v.joined_after, v.gone, v.last,
)

MainStep-Inv : (s t : Threads) → MainStep s t → Inv s → Inv t
MainStep-Inv s t (notifies e) v = ground (
  arith, v.paused, v.parked_paused, v.held, v.asked, v.awake, v.unpaused, v.not_closing,
  v.joined_after, v.gone, v.last,
)
MainStep-Inv s t (asks e) v = ground (
  arith, v.paused, v.parked_paused, v.held, v.asked, v.awake, v.unpaused, v.not_closing,
  v.joined_after, v.gone, v.last,
)
MainStep-Inv s t (waits e h) v = ground (
  arith, v.paused, v.parked_paused, v.held, v.asked, v.awake, v.unpaused, v.not_closing,
  v.joined_after, v.gone, v.last,
)
MainStep-Inv s t (granted e h) v = ground (
  arith, v.paused, v.parked_paused, v.held, v.asked, v.awake, v.unpaused, v.not_closing,
  v.joined_after, v.gone, v.last,
)
MainStep-Inv s t (reinitialized e) v = ground (
  arith, v.paused, v.parked_paused, v.held, v.asked, v.awake, v.unpaused, v.not_closing,
  v.joined_after, v.gone, v.last,
)
MainStep-Inv s t (closes e) v = ground (
  arith, v.paused, v.parked_paused, v.held, v.asked, v.awake, v.unpaused, v.not_closing,
  v.joined_after, v.gone, v.last,
)
MainStep-Inv s t (joined e h) v = ground (
  arith, v.paused, v.parked_paused, v.held, v.asked, v.awake, v.unpaused, v.not_closing,
  v.joined_after, v.gone, v.last,
)

Step-Inv : (s t : Threads) → Step s t → Inv s → Inv t
Step-Inv s t (by_worker step) v = WorkerStep-Inv s t step v
Step-Inv s t (by_main step) v = MainStep-Inv s t step v
Step-Inv s t worker_stirs v = ground (
  arith, v.paused, v.parked_paused, v.held, v.asked, v.awake, v.unpaused, v.not_closing,
  v.joined_after, v.gone, v.last,
)
Step-Inv s t main_stirs v = ground (
  arith, v.paused, v.parked_paused, v.held, v.asked, v.awake, v.unpaused, v.not_closing,
  v.joined_after, v.gone, v.last,
)

Reach-Inv : (s t : Threads) → Inv s → Reach s t → Inv t
Reach-Inv s t v start = v
Reach-Inv s t v (later {t = m} r step) = Step-Inv m t step (Reach-Inv s m v r)

started-Inv : Inv started
started-Inv = record {
  paused = λ h. cc;
  parked_paused = λ h. cc;
  held = λ h. cc;
  asked = λ h. ground (arith, h);
  awake = λ h. ground (arith, h);
  unpaused = λ h. cc;
  not_closing = λ h. refl;
  joined_after = λ h. cc;
  gone = λ h. cc;
  last = λ h. cc;
  copied = λ b h. cc;
}

-- Whatever the order of the steps of the two threads, spurious wake-ups of their waits included: while
-- the main thread re-initializes the queues, the worker is in the wait of the reset, where it touches
-- no queue, and the reset is still on; and once `virtio_blk_close` is past its join, the worker has
-- ended.
pub Reach-exclusion :
    {s : Threads}
    → Reach started s
    → (s.main ≡ reinitializing → InPause s.worker × (s.reset ≡ true))
      × (s.main ≡ closed → s.worker ≡ exited)
Reach-exclusion {s} r =
    let v = Reach-Inv started s started-Inv r in (λ h. ((v.held h).0, (v.held h).1), v.joined_after)

-- Steps of the worker alone, none of them a spurious wake-up.
pub data WorkerReach (s : Threads) : Threads → Type 0 where
  still : WorkerReach s s
  goes : {t u : Threads} → WorkerReach s t → WorkerStep t u → WorkerReach s u

-- The worker's steps can let the main thread past its wait: it is awake, before its test, and the test
-- succeeds.
abbrev pub Granted : Threads → Type 0
Granted s = (t : Threads) × WorkerReach s t × (t.main ≡ resetting) × (t.worker_paused ≡ true)

woken-resetting : (m : MainAt) → InReset m → wake_main m ≡ resetting
woken-resetting m (inl e) = rw e refl
woken-resetting m (inr e) = rw e refl

module _ (s t : Threads) (r : WorkerReach s t) (asked : t.reset ≡ true) (going : t.close ≡ false)
    (m : InReset t.main) where
  abbrev at_rest : Threads
  at_rest = record t { worker = parked; worker_paused = true; main = wake_main t.main }

  from_decided : t.worker ≡ decided false true → Granted s
  from_decided w = (at_rest, goes r (parks w asked going), woken-resetting t.main m, refl)

  from_rechecking : t.worker ≡ rechecking → Granted s
  from_rechecking w = (at_rest, goes r (stays w asked going), woken-resetting t.main m, refl)

from_waiting :
    (s t : Threads)
    → WorkerReach s t
    → t.worker ≡ waiting
    → t.reset ≡ true
    → t.close ≡ false
    → InReset t.main
    → Granted s
from_waiting s t r w asked going m =
    from_decided s (record t { worker = decided t.close t.reset })
      (goes r (wakes true w (ground arith))) asked going m (ground arith)

from_draining :
    (s t : Threads)
    → WorkerReach s t
    → t.worker ≡ draining false
    → t.reset ≡ true
    → t.close ≡ false
    → InReset t.main
    → Granted s
from_draining s t r w asked going m =
    from_waiting s (record t { worker = waiting }) (goes r (loops w)) refl asked going m

from_parked : (s : Threads) → s.worker ≡ parked → Inv s → InReset s.main → Granted s
from_parked s e v (inl m) = (s, still, m, v.parked_paused e)
from_parked s e v (inr m) = absurd (ground (arith, v.parked_paused e, v.unpaused m))

at_worker :
    (s : Threads) (w : WorkerAt)
    → s.worker ≡ w
    → Inv s
    → s.reset ≡ true
    → s.close ≡ false
    → InReset s.main
    → Granted s
at_worker s waiting e v asked going m = from_waiting s s still e asked going m
at_worker s asleep e v asked going m = absurd (v.awake m e)
at_worker s (decided true b) e v asked going m = absurd (ground (arith, v.copied b e))
at_worker s (decided false true) e v asked going m = from_decided s s still asked going m e
at_worker s (decided false false) e v asked going m =
    from_draining s (record s { worker = draining false }) (goes still (drains false false e refl))
      refl asked going m
at_worker s (draining true) e v asked going m = absurd (ground (arith, v.last e))
at_worker s (draining false) e v asked going m = from_draining s s still e asked going m
at_worker s parked e v asked going m = from_parked s e v m
at_worker s rechecking e v asked going m = from_rechecking s s still asked going m e
at_worker s exited e v asked going m = absurd (ground (arith, v.gone e))

-- A device reset is never stuck, if each round of the loop over the queue ends: whenever the main
-- thread waits in `virtio_blk_reset`, asleep or not, steps of the worker alone, without a spurious
-- wake-up, lead to a state where the main thread is awake and `worker_paused` ends its wait.
pub Reach-granted :
    {s : Threads}
    → Reach started s
    → InReset s.main
    → (t : Threads) × WorkerReach s t × (t.main ≡ resetting) × (t.worker_paused ≡ true)
Reach-granted {s} r m =
    let v = Reach-Inv started s started-Inv r in
    at_worker s s.worker refl v (v.asked m).0 (v.asked m).1 m
