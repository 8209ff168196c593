-- ===== src/Tests/Events.antt =====
-- Runs of the table of events of tools/virtio/event_monitor.c.
use hvisor_tool.Base.{ℕ, zero, suc, ◌≡◌, arith, List, [], ◌∷◌, length, true, Option, none, some}
use hvisor_tool.EventMonitor.{HvisorEvent, Monitor, add_event, remove_event}
use hvisor_tool.EventMonitor.Slots.{
  live, Added, Op, run, remove_event_lem, add_event_lem, run-exhausted,
}

abbrev event : ℕ → HvisorEvent
event address = record { address = address; fd = 5; epoll_type = 1; handler = 100; param = 200 }

abbrev two_events : Monitor
two_events = record { events = some (event 1000) ∷ none ∷ some (event 1064) ∷ []; calls = [] }

remove_event_lem_example :
    (live (remove_event 1000 two_events).events ≡ event 1064 ∷ [])
    × (length (remove_event 1000 two_events).events ≡ 3)
remove_event_lem_example = remove_event_lem 1000 two_events (omega arith)

add_event_lem_example :
    let (result, m') = add_event 1128 true (some 5) 1 (some 100) 200 two_events in
    Added 1128 1 true (some 5) (some 100) 200 two_events result m'
add_event_lem_example = add_event_lem 1128 1 true (some 5) (some 100) 200 two_events

abbrev slots : ℕ → List (Option HvisorEvent)
slots zero = []
slots (suc n) = some (event 1000) ∷ slots n

abbrev full : Monitor
full = record { events = slots 16; calls = [] }

abbrev remove_and_add : List Op
remove_and_add =
    Op.removes 1000 ∷ Op.removes 1000 ∷ Op.adds 1064 true (some 6) 1 (some 100) 200 ∷ []

run-exhausted_example : (run remove_and_add full).0 ≡ none ∷ none ∷ none ∷ []
run-exhausted_example = run-exhausted remove_and_add full (omega arith)
