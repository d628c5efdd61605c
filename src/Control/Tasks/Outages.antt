-- ===== src/Control/Tasks/Outages.antt =====
-- Runs that begin with a server that is not connected.
use esp.Base.{inl, some, ◌≡◌, refl, true, [], ◌∷◌}
use esp.Base.Bytes.{text_eq}
use esp.Strings.Reference.{reference}
use esp.Ssh.{Log, Outcome, done, undefined, out_of_fuel}
use esp.Control.{Control, connect_current, read_first}
use esp.Control.Examples.{quiet_library, down, lost, board, table, request_of_path}
use esp.Ssh.Conn.{brutal_exception, connect, open_channel, open_steps}
use esp.Ssh.Transfer.{exec_cmd, exec_on, exec_loop, finish_exec}
use esp.Control.Served.{no_requests}
use esp.Control.Steps.{
  Place, switch, command, status, keeping, calling, download, testing, step, is_chosen, is_asked,
  after_test,
}
use esp.Strings.Reference.{substring, trim}
use esp.Http.{read_body}
use esp.Control.Tasks.{
  Tasks, asks_status, posted, stepped, waits_for, noted, downloads, visited, turns, Reach,
}
use esp.Control.Ownership.{Tidy}
use esp.Control.Tasks.Stuck.{is_between, visitor_hangs}
use esp.Control.Tasks.Sessions.{Reach-Tidy}
use esp.Control.Tasks.Examples.{idle}
use esp.Ssh.Login.{connect_ssh, connect_session}

-- Nothing to do, with a server that is not connected.
abbrev cut_off : Tasks
cut_off = record idle { control = record lost { mail = no_requests } }

lost-Tidy : Tidy quiet_library cut_off.control []
lost-Tidy = record {
  others = tt;
  at_current = down;
  is_current = refl;
  leaked = 0;
  owned = record { owns_session = refl; owns_channel = refl; owns_start = refl };
  excused = inl refl;
}

abbrev hung : Tasks
unfolding visited
hung = visited reference (λ s. s) (downloads request_of_path) cut_off

abbrev still_hung : Tasks
still_hung = record hung { place = testing command }

waited : Reach reference quiet_library 3 (λ s. s) hung still_hung
unfolding step visited hung read_first posted stepped waits_for noted is_chosen is_asked after_test
    substring read_body
waited =
    let read_out : Reach reference quiet_library 3 (λ s. s) hung
        (record hung { place = testing switch }) =
      Reach.next Reach.here (turns table true _ _ _ refl) in
    Reach.next read_out (turns table true _ _ _ refl)

visitor_hangs_example : (still_hung.waiting ≡ some download) × (still_hung.control ≡ hung.control)
unfolding waits_for posted is_between hung substring read_body
visitor_hangs_example =
    visitor_hangs reference quiet_library 3 (λ s. s) download cut_off (downloads request_of_path)
      down refl refl refl refl refl waited

-- A status request to the server that is not connected, and six steps that lead to its call.
abbrev status_asked : Tasks
unfolding visited
status_asked = visited reference (λ s. s) asks_status cut_off

abbrev called_out : Tasks
called_out = record status_asked { place = calling status }

status_asked-Tidy : Tidy quiet_library status_asked.control status_asked.log
unfolding posted status_asked
status_asked-Tidy = record {
  others = tt;
  at_current = down;
  is_current = refl;
  leaked = 0;
  owned = record { owns_session = refl; owns_channel = refl; owns_start = refl };
  excused = inl refl;
}

abbrev left_by : Outcome (Place × Control) → (Place × Control) × Log
left_by (done at log) = (at, log)
left_by undefined = ((keeping, board), [])
left_by out_of_fuel = ((keeping, board), [])

abbrev connected_anew : (Place × Control) × Log
unfolding step
connected_anew =
    left_by (step reference quiet_library 9 table true called_out.place called_out.control [])

abbrev with_server_anew : Tasks
with_server_anew = record called_out {
  place = connected_anew.0.0;
  control = connected_anew.0.1;
  log = connected_anew.1;
  calls = (status, called_out.control, [], connected_anew.1) ∷ [];
}

reconnected : Reach reference quiet_library 9 (λ s. s) called_out with_server_anew
unfolding step connected_anew status_asked stepped noted exec_cmd exec_on exec_loop finish_exec
    text_eq trim brutal_exception connect_current connect connect_ssh connect_session open_channel
    open_steps
reconnected = Reach.next Reach.here (turns table true _ _ _ refl)

Reach-Tidy_example : Tidy quiet_library with_server_anew.control with_server_anew.log
Reach-Tidy_example = Reach-Tidy reference quiet_library 9 (λ s. s) status_asked-Tidy reconnected
