-- ===== src/Control/Steps.antt =====
-- A turn of `ex_main` in src/main.cpp in its steps. The globals with the requests belong to two tasks, so
-- they may change between any two of these: each step reads or writes the requests once.
pub mod Turns
pub mod Results
pub mod Lost
use esp.Base.{ℕ, zero, suc, Bool, false, ◌&&◌, List, [], ◌∷◌, if◌then◌else◌}
use esp.Base.Bytes.{text, text_eq}
use esp.Base.Int.{to_uint32}
use esp.Strings.{StringApi}
use esp.Clients.{Registry}
use esp.Ssh.{Libssh, M, out_of_fuel, continue, ◌>>=◌, ◌>>◌, pure}
use esp.Ssh.Conn.{Conn, brutal_exception, write}
use esp.Ssh.Scp.{scp_write, scp_read}
use esp.Ssh.Transfer.{exec_cmd}
use esp.Control.{
  Mail, Control, is_pending, server, with_server, connect_current, do_keep_alive, read_first,
}

pub data Branch : Type 0 where
  switch command upload download status : Branch

-- Where the task stands: before `read`, before the test of a branch, before its call, before the
-- assignment that clears its request, or before the last branch.
pub data Place : Type 0 where
  reading keeping : Place
  testing calling clearing : Branch → Place

-- The request of a branch.
unfoldable pub is_asked : Branch → Mail → Bool
is_asked switch m = is_pending m.switch_ssh
is_asked command m = is_pending m.ssh_command
is_asked upload m = is_pending m.upload_command
is_asked download m = is_pending m.scp_command
is_asked status m = m.hp_1_status_req

-- The condition of a branch.
unfoldable pub is_chosen : Branch → Mail → Conn → Bool
unfolding is_asked
is_chosen status m c = is_asked status m
is_chosen switch m c = is_asked switch m && c.conn
is_chosen command m c = is_asked command m && c.conn
is_chosen upload m c = is_asked upload m && c.conn
is_chosen download m c = is_asked download m && c.conn

unfoldable pub after_test : Branch → Place
after_test switch = testing command
after_test command = testing upload
after_test upload = testing download
after_test download = testing status
after_test status = keeping

unfoldable pub clear : Branch → Mail → Mail
clear switch m = record m { switch_ssh = [] }
clear command m = record m { ssh_command = [] }
clear upload m = record m { upload_command = [] }
clear download m = record m { scp_command = [] }
clear status m = record m { hp_1_status_req = false }

-- A turn ends where the next one begins.
abbrev pub resume : (Place → Control → M Control) → Place × Control → M Control
resume rest (reading, left) = pure left
resume rest (p, left) = rest p left

module _ (S : StringApi) (E : Libssh) (fuel : ℕ) where
  -- A branch up to the assignment.
  unfoldable pub call : Branch → Control → Conn → M Control
  call switch this c = do
    closed ← brutal_exception E c
    let left = with_server this (record closed { conn = false })
    let index = to_uint32 (S.to_int this.mail.switch_ssh)
    target ← server left.servers index
    connect_current S E fuel (record left { current = index }) target
  call command this c = do write E c this.mail.ssh_command; pure this
  call upload this c = do rc ← scp_write E S fuel c this.mail.upload_command; pure this
  call download this c = do rc ← scp_read E fuel c this.mail.scp_command; pure this
  call status this c = do
    output ← exec_cmd E S fuel c (text "echo alive")
    let alive = text_eq (S.trim output) (text "alive")
    let seen = with_server this (record c { conn = alive })
    if alive then pure seen else (do
      closed ← brutal_exception E (record c { conn = alive })
      connect_current S E fuel seen closed)

  unfoldable pub step : Registry → Bool → Place → Control → M (Place × Control)
  unfolding is_chosen after_test clear call
  step clients got reading this = do
    c ← server this.servers this.current
    sent ← read_first S E fuel clients got c
    pure (testing switch, this)
  step clients got (testing b) this = do
    c ← server this.servers this.current
    pure (if is_chosen b this.mail c then calling b else after_test b, this)
  step clients got (calling b) this = do
    c ← server this.servers this.current
    left ← call b this c
    pure (clearing b, left)
  step clients got (clearing b) this = pure (reading, record this { mail = clear b this.mail })
  step clients got keeping this = do
    c ← server this.servers this.current
    left ← do_keep_alive S E fuel this c
    pure (reading, left)

  -- The steps up to the next turn, with the globals left alone between them.
  unfoldable pub finish : ℕ → Registry → Bool → Place → Control → M Control
  unfolding step
  finish zero clients got p this log = out_of_fuel
  finish (suc n) clients got p this log =
      continue (step clients got p this log) (resume (finish n clients got))

-- A step, or a change of the requests by the server task between two steps.
pub data Occurrence : Type 0 where
  steps : Registry → Bool → Occurrence
  posts : (Mail → Mail) → Occurrence

module _ (S : StringApi) (E : Libssh) (fuel : ℕ) where
  unfoldable pub run_steps : List Occurrence → Place × Control → M (Place × Control)
  unfolding step
  run_steps [] at = pure at
  run_steps (steps clients got ∷ more) (p, this) =
      step S E fuel clients got p this >>= run_steps more
  run_steps (posts f ∷ more) (p, this) = run_steps more (p, record this { mail = f this.mail })
