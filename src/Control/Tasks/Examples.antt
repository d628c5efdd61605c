-- ===== src/Control/Tasks/Examples.antt =====
-- Turns of the control loop in steps, with one server.
use esp.Base.{ℕ, ◌≡◌, refl, true, none, replicate, [], ◌∷◌}
use esp.Base.Bytes.{text}
use esp.Strings.Reference.{reference}
use esp.Ssh.{Log, Outcome, done, undefined, out_of_fuel, called, ssh_channel_write}
use esp.Control.{
  Control, turn, read_first, choose, do_command, do_download, do_keep_alive, turns as all_turns,
}
use esp.Control.Examples.{quiet_library, up, board, table, two_requests, request_of_path}
use esp.Ssh.Conn.{write}
use esp.Ssh.Scp.{scp_read}
use esp.Ssh.Transfer.{read}
use esp.Control.Served.{no_requests, ConnectedTurns, all_served}
use esp.Control.Steps.{
  Place, switch, download, reading, testing, step, is_chosen, is_asked, after_test, clear, call,
  steps, posts, run_steps,
}
use esp.Control.Steps.Lost.{brings, message_lost}
use esp.Strings.Reference.{substring}
use esp.Http.{read_body}
use esp.Control.Tasks.{
  Tasks, posted, stepped, waits_for, noted, downloads, visited, visits, turns, Reach, still_waits,
}
use esp.Control.Tasks.Awaited.{returns_called}
use esp.Control.Tasks.Held.{is_awaited, WasCalled}

message_lost_example :
    let go = steps table true in
    run_steps reference quiet_library 3
      (go ∷ go ∷ go ∷ posts (brings (text "reboot")) ∷ go ∷ [])
      (testing switch, board)
      []
    ≡ done
        (reading, record board { mail = record two_requests { ssh_command = [] } })
        (called (ssh_channel_write 3 (text "ls")) ∷ [])
message_lost_example =
    message_lost reference quiet_library 3 table true board up 3 (text "reboot") [] refl refl refl
      refl (λ e. cc)

abbrev left_of : Outcome Control → Control × Log
left_of (done left log) = (left, log)
left_of undefined = (board, [])
left_of out_of_fuel = (board, [])

-- What five turns leave.
abbrev left_over : Control × Log
unfolding all_turns
left_over = left_of (all_turns reference quiet_library 3 (replicate 5 (table, true)) board [])

five_turns : ConnectedTurns reference quiet_library 3 board [] 5 left_over.0 left_over.1
unfolding turn read_first read choose do_command write do_download scp_read do_keep_alive left_over
five_turns =
    let one = ConnectedTurns.next table true up ConnectedTurns.here refl refl refl in
    let two = ConnectedTurns.next table true up one refl refl refl in
    let three = ConnectedTurns.next table true up two refl refl refl in
    let four = ConnectedTurns.next table true up three refl refl refl in
    ConnectedTurns.next table true up four refl refl refl

all_served_example : left_over.0.mail ≡ no_requests
all_served_example = all_served reference quiet_library 3 five_turns

-- The board, with nothing to do.
abbrev pub idle : Tasks
idle = record {
  place = reading;
  control = record board { mail = no_requests };
  log = [];
  waiting = none;
  asked = no_requests;
  calls = [];
}

abbrev asked_for : Tasks
unfolding visited
asked_for = visited reference (λ s. s) (downloads request_of_path) idle

abbrev log_of : Outcome (Place × Control) → Log
log_of (done at log) = log
log_of undefined = []
log_of out_of_fuel = []

abbrev log_after : ℕ → Log
unfolding run_steps
log_after n = log_of (
    run_steps reference quiet_library 3 (replicate n (steps table true))
      (reading, asked_for.control) [])

abbrev finished : Tasks
finished = record asked_for {
  control = record board { mail = no_requests };
  log = log_after 7;
  calls = (download, asked_for.control, log_after 5, log_after 6) ∷ [];
}

fetched : Reach reference quiet_library 3 (λ s. s) idle finished
unfolding step visited asked_for read_first read stepped posted substring read_body scp_read
    waits_for noted is_chosen is_asked after_test clear call log_after run_steps
fetched =
    let asked : Reach reference quiet_library 3 (λ s. s) idle asked_for =
      Reach.next Reach.here (visits (downloads request_of_path) refl) in
    let read_out = Reach.next asked (turns table true _ _ _ refl) in
    let past_switch = Reach.next read_out (turns table true _ _ _ refl) in
    let past_command = Reach.next past_switch (turns table true _ _ _ refl) in
    let past_upload = Reach.next past_command (turns table true _ _ _ refl) in
    let chosen = Reach.next past_upload (turns table true _ _ _ refl) in
    let called_out = Reach.next chosen (turns table true _ _ _ refl) in
    Reach.next called_out (turns table true _ _ _ refl)

returns_called_example : WasCalled reference quiet_library 3 download finished.asked finished.calls
unfolding still_waits is_awaited asked_for posted substring read_body
returns_called_example =
    returns_called reference quiet_library 3 (λ s. s) download refl (refl, refl, refl, refl, refl)
      fetched refl refl
