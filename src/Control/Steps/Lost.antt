-- ===== src/Control/Steps/Lost.antt =====
-- A command that comes while another is being written.
use esp.Base.{Bool, arith, ℕ, ◌≡◌, ◌≢◌, true, some, [], ◌∷◌, get_elem?}
use esp.Base.Bytes.{Text}
use esp.Strings.{StringApi}
use esp.Clients.{Registry, ssh_on_message}
use esp.Ssh.{Libssh, Log, called, done, ssh_channel_write}
use esp.Ssh.Conn.{Conn, at, write}
use esp.Control.{Mail, Control}
use esp.Control.Delivery.{pending}
use esp.Control.Steps.{
  switch, reading, testing, is_chosen, is_asked, after_test, clear, call, step, steps, posts,
  run_steps,
}

-- `SSHHandler::onMessage` with a message.
abbrev pub brings : Text → Mail → Mail
brings msg m = record m { ssh_command = ssh_on_message (some msg) m.ssh_command }

-- A message that a websocket brings after the call that writes the pending command, and before the
-- assignment that clears it, is lost: the command that was pending is written, the message is not, and no
-- command is pending then. This is so for every such command and message, if the server is taken for
-- connected, its channel was made, and no switch is asked for.
pub message_lost :
    (S : StringApi) (E : Libssh) (fuel : ℕ) (clients : Registry) (got : Bool) (this : Control)
    (c : Conn) (p : ℕ) (msg : Text) (log : Log)
    → get_elem? this.servers this.current ≡ some c
    → c.conn ≡ true
    → c.channel ≡ at p
    → this.mail.switch_ssh ≡ []
    → this.mail.ssh_command ≢ []
    → let go = steps clients got in
      run_steps S E fuel (go ∷ go ∷ go ∷ posts (brings msg) ∷ go ∷ []) (testing switch, this) log
      ≡ done
          (reading, record this { mail = record this.mail { ssh_command = [] } })
          (called (ssh_channel_write p this.mail.ssh_command) ∷ log)
unfolding run_steps step is_chosen is_asked after_test clear call write
message_lost S E fuel clients got this c p msg log current up made quiet asked =
    ground (arith, pending this.mail.ssh_command asked)
