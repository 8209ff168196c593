-- ===== src/EventMonitor/Slots.antt =====
-- Which slots of the table of tools/virtio/event_monitor.c are in use.
use hvisor_tool.Base.{
  ℕ, suc, ◌≡◌, ◌≢◌, ◌≤◌, ◌<◌, refl, ap, Bool, true, false, List, [], ◌∷◌, ◌++◌, Option, none, some,
  length, length-append, leb, ◌==◌, if◌then◌else◌, arith, Bool-cases, Option-cases, inl, inr, ◌⊎◌,
}
use hvisor_tool.EventMonitor.{
  max_events, ctl_add, HvisorEvent, Monitor, add_event, clear_slot, remove_event,
}

-- The events in use, in order of their slots.
abbrev pub live : List (Option HvisorEvent) → List HvisorEvent
live [] = []
live (none ∷ es) = live es
live (some e ∷ es) = e ∷ live es

-- The list without the event at an address.
abbrev pub without : ℕ → List HvisorEvent → List HvisorEvent
without address [] = []
without address (e ∷ es) = if e.address == address then es else e ∷ without address es

live-append :
    (es : List (Option HvisorEvent)) (e : HvisorEvent)
    → live (es ++ (some e ∷ [])) ≡ live es ++ (e ∷ [])
live-append [] e = refl
live-append (none ∷ es) e = live-append es e
live-append (some x ∷ es) e = ap (λ l. x ∷ l) (live-append es e)

clear_slot-length :
    (address : ℕ) (es : List (Option HvisorEvent)) → length (clear_slot address es).1 ≡ length es
unfolding clear_slot
clear_slot-length address [] = refl
clear_slot-length address (none ∷ es) = ap suc (clear_slot-length address es)
clear_slot-length address (some e ∷ es) = ground (arith, clear_slot-length address es)

clear_slot-live :
    (address : ℕ) (es : List (Option HvisorEvent))
    → live (clear_slot address es).1 ≡ without address (live es)
unfolding clear_slot
clear_slot-live address [] = refl
clear_slot-live address (none ∷ es) = clear_slot-live address es
clear_slot-live address (some e ∷ es) = ground (arith, clear_slot-live address es)

clear_slot-none :
    (address : ℕ) (es : List (Option HvisorEvent))
    → (clear_slot address es).0 ≡ none
    → without address (live es) ≡ live es
unfolding clear_slot
clear_slot-none address [] h = refl
clear_slot-none address (none ∷ es) h = clear_slot-none address es h
clear_slot-none address (some e ∷ es) h = ground (arith, clear_slot-none address es)

-- Removing an event takes it, and only it, out of those in use, but gives its slot back to nobody: the
-- table stays as long as it was.
pub remove_event_lem :
    (address : ℕ) (m : Monitor)
    → address ≢ 0
    → (live (remove_event address m).events ≡ without address (live m.events))
      × (length (remove_event address m).events ≡ length m.events)
unfolding remove_event
remove_event_lem address m ne = elim (Option-cases (clear_slot address m.events).0) [
  | inl e ↦ ground (arith, e, clear_slot-none address m.events e)
  | inr (x, e) ↦
      ground (arith, e, clear_slot-live address m.events, clear_slot-length address m.events)
]

-- How `add_event` ends: without a call of `epoll_ctl`, with one that failed, or with the event.
pub data Added (address epoll_type : ℕ) (epoll_ok : Bool) (fd handler : Option ℕ) (param : ℕ)
    (m : Monitor) (result : Option HvisorEvent) (m' : Monitor) : Type 0 where
  rejected :
      (fd ≡ none) ⊎ (handler ≡ none) ⊎ (max_events ≤ length m.events)
      → result ≡ none
      → m' ≡ m
      → Added address epoll_type epoll_ok fd handler param m result m'
  refused :
      (n h : ℕ)
      → fd ≡ some n
      → handler ≡ some h
      → length m.events < max_events
      → epoll_ok ≡ false
      → result ≡ none
      → m'.events ≡ m.events
      → m'.calls ≡ ctl_add n ∷ m.calls
      → Added address epoll_type epoll_ok fd handler param m result m'
  added :
      (n h : ℕ) (e : HvisorEvent)
      → fd ≡ some n
      → handler ≡ some h
      → length m.events < max_events
      → epoll_ok ≡ true
      → e
        ≡ record { address = address; fd = n; epoll_type = epoll_type; handler = h; param = param }
      → result ≡ some e
      → live m'.events ≡ live m.events ++ (e ∷ [])
      → length m'.events ≡ suc (length m.events)
      → m'.calls ≡ ctl_add n ∷ m.calls
      → Added address epoll_type epoll_ok fd handler param m result m'

-- `add_event` returns NULL and leaves everything alone if the descriptor is negative, the handler is
-- NULL, or all 16 slots have been used. Otherwise it calls `epoll_ctl` for the descriptor: if that
-- fails, it returns NULL and leaves the table; if not, it returns an event with what it was given, which
-- stands in one more slot, behind those in use.
pub add_event_lem :
    (address epoll_type : ℕ) (epoll_ok : Bool) (fd handler : Option ℕ) (param : ℕ) (m : Monitor)
    → let (result, m') = add_event address epoll_ok fd epoll_type handler param m in
      Added address epoll_type epoll_ok fd handler param m result m'
unfolding add_event
add_event_lem address epoll_type epoll_ok none handler param m = rejected (inl refl) refl refl
add_event_lem address epoll_type epoll_ok (some fd) none param m =
    rejected (inr (inl refl)) refl refl
add_event_lem address epoll_type epoll_ok (some fd) (some handler) param m =
    let event : HvisorEvent = record {
      address = address;
      fd = fd;
      epoll_type = epoll_type;
      handler = handler;
      param = param;
    } in
    elim (Bool-cases (leb max_events (length m.events))) [
      | inl full ↦ rw full (rejected (inr (inr (ground (arith, full)))) refl refl)
      | inr room ↦ elim (Bool-cases epoll_ok) [
        | inr failed ↦
            rw (room, failed)
              (refused fd handler refl refl (ground (arith, room)) refl refl refl refl)
        | inl done ↦
            rw (room, done)
              (added fd handler event refl refl (ground (arith, room)) refl refl refl
                (live-append m.events event)
                (omega (arith, length-append m.events (some event ∷ []))) refl)
      ]
    ]

-- An operation of a device on the monitor.
pub data Op : Type 0 where
  adds : ℕ → Bool → Option ℕ → ℕ → Option ℕ → ℕ → Op
  removes : ℕ → Op

abbrev pub run_op : Op → Monitor → Option HvisorEvent × Monitor
run_op (adds address epoll_ok fd epoll_type handler param) m =
    add_event address epoll_ok fd epoll_type handler param m
run_op (removes address) m = (none, remove_event address m)

-- The results of a sequence of operations.
abbrev pub run : List Op → Monitor → List (Option HvisorEvent) × Monitor
run [] m = ([], m)
run (op ∷ ops) m =
    let (result, m1) = run_op op m in let (results, m2) = run ops m1 in (result ∷ results, m2)

abbrev pub all_null : List Op → List (Option HvisorEvent)
all_null [] = []
all_null (op ∷ ops) = none ∷ all_null ops

full_step :
    (op : Op) (m : Monitor)
    → max_events ≤ length m.events
    → ((run_op op m).0 ≡ none) × (max_events ≤ length (run_op op m).1.events)
unfolding add_event remove_event
full_step (adds address epoll_ok none epoll_type handler param) m h = (refl, h)
full_step (adds address epoll_ok (some fd) epoll_type none param) m h = (refl, h)
full_step (adds address epoll_ok (some fd) epoll_type (some handler) param) m h = ground arith
full_step (removes address) m h = (
  refl,
  elim (Option-cases (clear_slot address m.events).0) [
    | inl e ↦ ground (arith, e)
    | inr (x, e) ↦ ground (arith, e, clear_slot-length address m.events)
  ],
)

-- Once MAX_EVENTS events have been added, no later one is, however many of them are removed.
pub run-exhausted :
    (ops : List Op) (m : Monitor) → max_events ≤ length m.events → (run ops m).0 ≡ all_null ops
run-exhausted [] m h = refl
run-exhausted (op ∷ ops) m h =
    let (now, later) = full_step op m h in rw (now, run-exhausted ops (run_op op m).1 later) refl
