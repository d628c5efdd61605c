-- ===== src/Clients/Examples.antt =====
-- Histories of a table, and the theorems at them.
use esp.Base.{◌+◌, ◌≤◌, ◌<◌, ◌≡◌, ◌↔◌, refl, true, false, none, some, List, [], ◌∷◌, arith}
use esp.Clients.{
  Registry, ssh_create, ssh_on_close, fan_create, fan_on_close, ssh_broadcast, fan_broadcast,
  recipients,
}
use esp.Clients.Spec.{
  step, Call, creates, closes, member_run, ssh_table, fan_table, run, sent, creations,
}
use esp.Clients.Counts.{count}
use esp.Clients.Refinement.{IsReady, view, view-run, sent-run}
use esp.Clients.Locks.{takes, Balanced, lock_run, sections-Balanced, stale_after_close}
use esp.Base.Bytes.{text}
use esp.Clients.Sockets.{
  Method, create, on_message, on_close, SocketClass, ssh_handler, fan_handler, Sockets,
}

abbrev ready : Registry
ready = record {
  has_mutex = true;
  slots = some 7 ∷ none ∷ none ∷ none ∷ none ∷ none ∷ none ∷ none ∷ none ∷ none ∷ [];
}

ready-IsReady : IsReady ready
ready-IsReady = record { full_length = refl; created = refl }

-- Two more connect, the first one leaves, and one misses the lock.
abbrev history : List Call
history = creates 8 true ∷ creates 9 true ∷ closes 7 true ∷ creates 5 false ∷ []

left_over : sent fan_table (run fan_table ready history) true ≡ 8 ∷ 9 ∷ []
unfolding sent run step fan_create fan_on_close fan_broadcast
left_over = refl

view-run_example :
    (view (run ssh_table ready history) ≡ member_run (view ready) history)
    × IsReady (run ssh_table ready history)
view-run_example = view-run ssh_table ready history ready-IsReady

sent-run_example :
    (count 8 (sent fan_table (run fan_table ready history) true)
      ≡ (member_run (view ready) history).times 8)
    × (count 8 (sent fan_table (run fan_table ready history) true)
        ≤ count 8 (recipients ready.slots) + creations 8 history)
sent-run_example = sent-run fan_table ready history 8 ready-IsReady

sections-Balanced_example :
    Balanced (ssh_create ready true 3).1
    × Balanced (fan_create ready true 3).1
    × Balanced (ssh_on_close ready true 3).1
    × Balanced (fan_on_close ready true 3).1
    × Balanced (ssh_broadcast ready true).1
    × (takes (fan_broadcast ready true).1 ≤ 1)
    × ((lock_run false (fan_broadcast ready true).1 ≡ some false)
        ↔ ((ready.has_mutex ≡ true) × (◌≡◌ true true)))
sections-Balanced_example = sections-Balanced ready true 3

stale_after_close_example :
    0 < count 7 (sent ssh_table (run ssh_table ready (closes 7 false ∷ creates 8 true ∷ [])) true)
unfolding recipients
stale_after_close_example =
    stale_after_close ssh_table ready 7 (creates 8 true ∷ []) ready-IsReady (omega arith) (tt, tt)

abbrev mixed : List (SocketClass × Method)
mixed =
    (ssh_handler, create 8 true)
    ∷ (fan_handler, create 9 true)
    ∷ (ssh_handler, on_message (some (text "uptime")))
    ∷ (fan_handler, on_message (some (text "ls")))
    ∷ (ssh_handler, on_close 7 true)
    ∷ []

abbrev sockets : Sockets
sockets = record { clients = ready; clients_fan = ready; ssh_command = [] }
