-- ===== src/Control/Tasks.antt =====
-- The control task and the server task of src/main.cpp together. The server task answers one visitor at a
-- time: a handler that waits for its request keeps it from all others. Between two steps of `ex_main`
-- the server task may post a request, or find that the request it waits for is gone.
pub mod Held
pub mod Awaited
pub mod Sessions
pub mod Stuck
mod Examples
mod Outages
use esp.Base.{ℕ, ◌≡◌, Bool, false, Option, none, some, List, [], ◌∷◌, if◌then◌else◌}
use esp.Base.Bytes.{Text}
use esp.Strings.{StringApi}
use esp.Http.{Request}
use esp.Clients.{Registry}
use esp.Ssh.{Libssh, Log, done}
use esp.Control.{Mail, Control}
use esp.Control.Handlers.{
  handle_terminal_post, handle_ssh_status1, switch_ssh0, switch_ssh1, handle_scp, handle_upload,
  terminal_waits, status_waits, scp_waits, upload_waits,
}
use esp.Control.Steps.{Branch, switch, command, upload, download, status, Place, calling, step}
use esp.Control.Steps.Lost.{brings}

-- What a visitor may bring to a handler that posts a request.
pub data Visit : Type 0 where
  terminal downloads uploads : Request → Visit
  asks_status switches0 switches1 : Visit
  message : Text → Visit

-- The request that the handler then waits for, if it waits.
unfoldable pub waits_for : Visit → Mail → Option Branch
unfolding terminal_waits status_waits scp_waits upload_waits
waits_for (terminal req) m = if terminal_waits m then some command else none
waits_for (downloads req) m = if scp_waits m then some download else none
waits_for (uploads req) m = if upload_waits m then some upload else none
waits_for asks_status m = if status_waits m then some status else none
waits_for switches0 m = none
waits_for switches1 m = none
waits_for (message msg) m = none

-- Whether the handler of a branch still waits.
unfoldable pub still_waits : Branch → Mail → Bool
unfolding terminal_waits status_waits scp_waits upload_waits
still_waits switch m = false
still_waits command m = terminal_waits m
still_waits upload m = upload_waits m
still_waits download m = scp_waits m
still_waits status m = status_waits m

-- `waiting` is the branch whose request the server task waits for. Of the past: `asked` are the requests
-- as the last visit left them, and `calls` the branches whose call the control task has made since, each
-- with its globals and its log before the step of the call, and its log after it.
pub record Tasks : Type 0 where
  pub place : Place
  pub control : Control
  pub log : Log
  pub waiting : Option Branch
  pub asked : Mail
  pub calls : List (Branch × Control × Log × Log)

unfoldable pub noted :
    Place
    → Control
    → Log
    → Log
    → List (Branch × Control × Log × Log)
    → List (Branch × Control × Log × Log)
noted (calling b) this before after calls = (b, this, before, after) ∷ calls
noted p this before after calls = calls

module _ (S : StringApi) (urldecode : Text → Text) where
  unfoldable pub posted : Visit → Mail → Mail
  unfolding handle_terminal_post handle_scp handle_upload handle_ssh_status1 switch_ssh0 switch_ssh1
  posted (terminal req) m = (handle_terminal_post S req m).0
  posted (downloads req) m = (handle_scp S urldecode req m).0
  posted (uploads req) m = (handle_upload req m).0
  posted asks_status m = (handle_ssh_status1 m).0
  posted switches0 m = (switch_ssh0 m).0
  posted switches1 m = (switch_ssh1 m).0
  posted (message msg) m = brings msg m

  -- A handler up to where it waits.
  unfoldable pub visited : Visit → Tasks → Tasks
  unfolding waits_for
  visited v t =
      let mail = posted v t.control.mail in
      record t {
        control = record t.control { mail = mail };
        waiting = waits_for v mail;
        asked = mail;
        calls = [];
      }

-- A step of the control task.
unfoldable pub stepped : Tasks → Place → Control → Log → Tasks
unfolding noted
stepped t p this log = record t {
  place = p;
  control = this;
  log = log;
  calls = noted t.place t.control t.log log t.calls;
}

module _ (S : StringApi) (E : Libssh) (fuel : ℕ) (urldecode : Text → Text) where
  pub data Move (t : Tasks) : Tasks → Type 0 where
    turns :
        (clients : Registry) (got : Bool) (p : Place) (this : Control) (log : Log)
        → step S E fuel clients got t.place t.control t.log ≡ done (p, this) log
        → Move t (stepped t p this log)
    visits : (v : Visit) → t.waiting ≡ none → Move t (visited S urldecode v t)
    returns :
        (b : Branch)
        → t.waiting ≡ some b
        → still_waits b t.control.mail ≡ false
        → Move t (record t { waiting = none })

  pub data Reach (t : Tasks) : Tasks → Type 0 where
    here : Reach t t
    next : {u v : Tasks} → Reach t u → Move u v → Reach t v
