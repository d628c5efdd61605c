-- ===== src/Control.antt =====
-- The control task of src/main.cpp: the loop of `ex_main`, the globals by which the handlers of the
-- server task ask it for work. `turn` is one turn of the loop with nothing between.
pub mod Handlers
pub mod Requests
pub mod Waiting
pub mod Delivery
pub mod Servers
pub mod Calm
pub mod Ownership
pub mod Runs
pub mod Steps
pub mod Tasks
pub mod Served
pub mod Switching
pub mod Switched
mod Examples
use esp.Base.{
  ℕ, Bool, true, false, ◌&&◌, Option, none, some, List, [], ◌∷◌, get_elem?, set, leb, if◌then◌else◌,
}
use esp.Base.Bytes.{Text, text, text_eq}
use esp.Base.Int.{ℤ, pos, to_uint32}
use esp.Strings.{StringApi}
use esp.Clients.{Registry}
use esp.Ssh.{Libssh, M, ◌>>=◌, ◌>>◌, pure, fault, clock}
use esp.Ssh.Conn.{Conn, brutal_exception, connect, write, keep_alive, disconnect}
use esp.Ssh.Scp.{scp_write, scp_read}
use esp.Ssh.Transfer.{read, exec_cmd, sub32}

-- The requests: an empty text asks for nothing.
pub record Mail : Type 0 where
  pub switch_ssh : Text
  pub ssh_command : Text
  pub upload_command : Text
  pub scp_command : Text
  pub hp_1_status_req : Bool

-- `ssh_servers`, `current_ssh_index`, the requests, and the local `lastHandleKeepAlive`.
pub record Control : Type 0 where
  pub servers : List Conn
  pub current : ℕ
  pub mail : Mail
  pub last_keep_alive : ℕ

-- `s != ""`
abbrev pub is_pending : Text → Bool
is_pending [] = false
is_pending (c ∷ s) = true

abbrev pub from_slot : Option Conn → M Conn
from_slot none = fault
from_slot (some c) = pure c

-- `ssh_servers[i]`; an index past the end is undefined.
abbrev pub server : List Conn → ℕ → M Conn
server servers i = from_slot (get_elem? servers i)

abbrev pub with_server : Control → Conn → Control
with_server this c = record this { servers = set this.servers this.current c }

module _ (S : StringApi) (E : Libssh) (fuel : ℕ) where
  -- `connect() != NULL`, and `conn` set to it.
  unfoldable pub connect_current : Control → Conn → M Control
  connect_current this c = do
    (c', connected) ← connect E fuel c
    pure (with_server this (record c' { conn = connected }))

  -- The branch for a pending switch.
  unfoldable pub do_switch : Control → Conn → M Control
  do_switch this c = do
    closed ← brutal_exception E c
    let left = with_server this (record closed { conn = false })
    let index = to_uint32 (S.to_int this.mail.switch_ssh)
    target ← server left.servers index
    switched ← connect_current (record left { current = index }) target
    pure (record switched { mail = record switched.mail { switch_ssh = [] } })

  unfoldable pub do_command : Control → Conn → M Control
  do_command this c = do
    write E c this.mail.ssh_command
    pure (record this { mail = record this.mail { ssh_command = [] } })

  unfoldable pub do_upload : Control → Conn → M Control
  do_upload this c = do
    rc ← scp_write E S fuel c this.mail.upload_command
    pure (record this { mail = record this.mail { upload_command = [] } })

  unfoldable pub do_download : Control → Conn → M Control
  do_download this c = do
    rc ← scp_read E fuel c this.mail.scp_command
    pure (record this { mail = record this.mail { scp_command = [] } })

  -- The branch for a status request.
  unfoldable pub do_status : Control → Conn → M Control
  do_status this c = do
    output ← exec_cmd E S fuel c (text "echo alive")
    let alive = text_eq (S.trim output) (text "alive")
    let seen = with_server this (record c { conn = alive })
    checked ←
        (if alive then pure seen else (do
          closed ← brutal_exception E (record c { conn = alive })
          connect_current seen closed))
    pure (record checked { mail = record checked.mail { hp_1_status_req = false } })

  -- The branch without a request. The clock is read again if the message was sent.
  unfoldable pub do_keep_alive : Control → Conn → M Control
  do_keep_alive this c = do
    now ← clock E
    if leb 10000 (sub32 now this.last_keep_alive) && c.conn
        then (do keep_alive E c; later ← clock E; pure (record this { last_keep_alive = later }))
        else pure this

  -- What is read first, if the server is connected.
  unfoldable pub read_first : Registry → Bool → Conn → M (List (ℕ × Text))
  read_first clients got c =
      if c.conn then (read E clients got c >>= λ reading. pure reading.sent) else pure []

  -- The chain of branches on the requests.
  unfoldable pub choose : Control → Conn → M Control
  choose this c =
      if is_pending this.mail.switch_ssh && c.conn
      then do_switch this c
      else if is_pending this.mail.ssh_command && c.conn
      then do_command this c
      else if is_pending this.mail.upload_command && c.conn
      then do_upload this c
      else if is_pending this.mail.scp_command && c.conn
      then do_download this c
      else if this.mail.hp_1_status_req
      then do_status this c
      else do_keep_alive this c

  -- One turn of `while (1)`.
  unfoldable pub turn : Registry → Bool → Control → M Control
  turn clients got this = do
    c ← server this.servers this.current
    sent ← read_first clients got c
    choose this c

  -- The lines of `ex_main` before its loop.
  unfoldable pub start : Control → M Control
  unfolding connect_current
  start this = do
    now ← clock E
    c ← server this.servers this.current
    (c', connected) ← connect E fuel c
    pure (record this {
      servers = set this.servers this.current (if connected then record c' { conn = true } else c');
      last_keep_alive = now;
    })

-- The lines of `ex_main` behind its loop, which has no exit.
unfoldable pub finish_main : Libssh → Control → M ℤ
finish_main E this = do
  c ← server this.servers this.current
  closed ← disconnect E (record c { conn = true })
  pure (pos 0)

module _ (S : StringApi) (E : Libssh) (fuel : ℕ) where
  -- Turns with the clients' table as each of them finds it.
  unfoldable pub turns : List (Registry × Bool) → Control → M Control
  turns [] this = pure this
  turns ((clients, got) ∷ more) this = turn S E fuel clients got this >>= turns more

-- What happens to the globals: a turn of the loop, or a change that a handler of the server task makes.
pub data Happening : Type 0 where
  turns_with : Registry → Bool → Happening
  posts : (Mail → Mail) → Happening

module _ (S : StringApi) (E : Libssh) (fuel : ℕ) where
  -- The control task and the server task, interleaved between the turns.
  unfoldable pub run_control : List Happening → Control → M Control
  run_control [] this = pure this
  run_control (turns_with clients got ∷ more) this =
      turn S E fuel clients got this >>= run_control more
  run_control (posts f ∷ more) this = run_control more (record this { mail = f this.mail })
