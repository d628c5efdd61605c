-- ===== src/Control/Tasks/Sessions.antt =====
-- Who holds the sessions, while the requests change between any two steps.
use esp.Base.{ℕ, subst, sym, Bool}
use esp.Base.Bytes.{Text}
use esp.Strings.{StringApi}
use esp.Clients.{Registry}
use esp.Ssh.{Libssh, Log, Outcome, done, undefined, out_of_fuel, continue}
use esp.Ssh.Returns.{Ensures, Ensures-continue}
use esp.Control.{Control, from_slot, read_first, do_keep_alive}
use esp.Control.Calm.{Calm}
use esp.Control.Ownership.{
  Tidy, Tidy-mail, Tidy-Calm, do_switch-Tidy, do_command-Tidy, do_upload-Tidy, do_download-Tidy,
  do_status-Tidy, do_keep_alive-Tidy,
}
use esp.Control.Runs.{read_first-Calm}
use esp.Control.Steps.{
  Branch, switch, command, upload, download, status, Place, reading, keeping, testing, calling,
  clearing, clear, call, step,
}
use esp.Control.Steps.Turns.{cleared, do_branch, do_branch-call}
use esp.Control.Tasks.{
  Tasks, visited, stepped, posted, Move, turns, visits, returns, Reach, here, next,
}

module _ (S : StringApi) (E : Libssh) (fuel : ℕ) where
  do_branch-Tidy :
      (b : Branch) (this : Control) (log : Log) (t : Tidy E this log)
      → Ensures (Tidy E) (do_branch S E fuel b this t.at_current log)
  do_branch-Tidy switch = do_switch-Tidy S E fuel
  do_branch-Tidy command = do_command-Tidy S E fuel
  do_branch-Tidy upload = do_upload-Tidy S E fuel
  do_branch-Tidy download = do_download-Tidy S E fuel
  do_branch-Tidy status = do_status-Tidy S E fuel

  not_cleared :
      (b : Branch) (m : Outcome Control)
      → Ensures (Tidy E) (continue m (cleared b))
      → Ensures (Tidy E) m
  not_cleared b (done left log) t =
      Tidy-mail S E fuel (record left { mail = clear b left.mail }) left.mail log t
  not_cleared b undefined t = tt
  not_cleared b out_of_fuel t = tt

  call-Tidy :
      (b : Branch) (this : Control) (log : Log) (t : Tidy E this log)
      → Ensures (Tidy E) (call S E fuel b this t.at_current log)
  call-Tidy b this log t = not_cleared b (call S E fuel b this t.at_current log) (
      subst (Ensures (Tidy E)) (sym (do_branch-call S E fuel b this t.at_current log))
        (do_branch-Tidy b this log t))

  step-Tidy :
      (clients : Registry) (got : Bool) (p : Place) (this : Control) (log : Log)
      → Tidy E this log
      → Ensures (λ (at : Place × Control). Tidy E at.1) (step S E fuel clients got p this log)
  unfolding step
  step-Tidy clients got reading this log t =
      rw (t.is_current, step, from_slot)
        (Ensures-continue (Calm log) (λ at. Tidy E at.1)
          (read_first S E fuel clients got t.at_current log) _
          (read_first-Calm S E fuel clients got t.at_current log)
          (λ sent after o. Tidy-Calm this this.mail this.last_keep_alive log after t o))
  step-Tidy clients got (testing b) this log t = rw (t.is_current, step, from_slot) t
  step-Tidy clients got (calling b) this log t =
      rw (t.is_current, step, from_slot)
        (Ensures-continue (Tidy E) (λ at. Tidy E at.1) (call S E fuel b this t.at_current log) _
          (call-Tidy b this log t) (λ left after u. u))
  step-Tidy clients got (clearing b) this log t = Tidy-mail S E fuel this (clear b this.mail) log t
  step-Tidy clients got keeping this log t =
      rw (t.is_current, step, from_slot)
        (Ensures-continue (Tidy E) (λ at. Tidy E at.1)
          (do_keep_alive S E fuel this t.at_current log) _ (do_keep_alive-Tidy S E fuel this log t)
          (λ left after u. u))

  module _ (urldecode : Text → Text) where
    Move-Tidy :
        {t u : Tasks}
        → Move S E fuel urldecode t u
        → Tidy E t.control t.log
        → Tidy E u.control u.log
    unfolding stepped visited
    Move-Tidy {t} (turns clients got p this log e) h =
        subst (Ensures (λ (at : Place × Control). Tidy E at.1)) e
          (step-Tidy clients got t.place t.control t.log h)
    Move-Tidy {t} (visits v free) h =
        Tidy-mail S E fuel t.control (posted S urldecode v t.control.mail) t.log h
    Move-Tidy (returns b w gone) h = h

    -- The two tasks, step by step: whatever visitors bring between any two steps, and whatever the library
    -- answers, if every server but the current one holds nothing, and the current one all that is open but
    -- for leaked channels, then this is so after any moves.
    pub Reach-Tidy :
        {t u : Tasks}
        → Tidy E t.control t.log
        → Reach S E fuel urldecode t u
        → Tidy E u.control u.log
    Reach-Tidy h here = h
    Reach-Tidy h (next r m) = Move-Tidy m (Reach-Tidy h r)
