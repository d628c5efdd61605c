-- ===== src/Control/Delivery.antt =====
-- A command on its way from the terminal to the server.
use esp.Base.{ℕ, ◌≡◌, ◌≢◌, refl, true, some, [], ◌∷◌}
use esp.Strings.{StringApi}
use esp.Clients.{ssh_on_message}
use esp.Base.Bytes.{Text, c_str}
use esp.Ssh.{Libssh, Log, called, done, ssh_channel_write}
use esp.Ssh.Conn.{Conn, at, load, write}
use esp.Control.{Control, is_pending, do_command, choose}

pub pending : (command : Text) → command ≢ [] → is_pending command ≡ true
pending [] h = absurd (h refl)
pending (x ∷ s) h = refl

module _ (S : StringApi) (E : Libssh) (fuel : ℕ) where
  -- The branch for a command.
  pub command_written :
      (this : Control) (c : Conn) (p : ℕ) (log : Log)
      → c.conn ≡ true
      → c.channel ≡ at p
      → this.mail.switch_ssh ≡ []
      → this.mail.ssh_command ≢ []
      → choose S E fuel this c log
        ≡ done
            (record this { mail = record this.mail { ssh_command = [] } })
            (called (ssh_channel_write p this.mail.ssh_command) ∷ log)
  unfolding choose do_command write
  command_written this c p log up set quiet h =
      rw (up, set, quiet, pending this.mail.ssh_command h, choose, do_command, write, load) refl

  -- A message that a websocket brings, and that is not empty up to its first zero byte, is written up to
  -- there to the channel of the current server by the next turn's chain of branches, once, with no
  -- other call, and is then taken away, if the server is taken for connected, its channel was made,
  -- and no switch is asked for.
  message_delivered :
      (this : Control) (c : Conn) (p : ℕ) (msg : Text) (log : Log)
      → c.conn ≡ true
      → c.channel ≡ at p
      → this.mail.switch_ssh ≡ []
      → c_str msg ≢ []
      → let command = ssh_on_message (some msg) this.mail.ssh_command in
        choose S E fuel (record this { mail = record this.mail { ssh_command = command } }) c log
        ≡ done
            (record this { mail = record this.mail { ssh_command = [] } })
            (called (ssh_channel_write p (c_str msg)) ∷ log)
  unfolding ssh_on_message
  message_delivered this c p msg log up set quiet h =
      command_written (record this { mail = record this.mail { ssh_command = c_str msg } }) c p log
        up set quiet h
