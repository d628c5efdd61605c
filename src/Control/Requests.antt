-- ===== src/Control/Requests.antt =====
-- How the control loop serves the requests.
use esp.Base.{
  ap, leb, ℕ, ◌≡◌, refl, Bool, true, false, Bool-cases, [], ◌∷◌, ◌&&◌, inl, inr, if◌then◌else◌,
  arith,
}
use esp.Base.Bytes.{text, text_eq}
use esp.Base.Int.{to_uint32}
use esp.Strings.{StringApi}
use esp.Ssh.{◌>>=◌, millis, Libssh, Log, called, Outcome, pure}
use esp.Ssh.Returns.{Returns, Returns-continue, Returns-then}
use esp.Ssh.Conn.{Conn, brutal_exception, connect, write, keep_alive}
use esp.Ssh.Scp.{scp_write, scp_read}
use esp.Ssh.Transfer.{sub32, exec_cmd}
use esp.Control.{
  Mail, Control, server, with_server, is_pending, connect_current, do_switch, do_command, do_upload,
  do_download, do_status, do_keep_alive, choose,
}

-- The first request that is pending is taken away: a switch, a command, an upload, a download, each
-- only if the server is connected; else a status request.
abbrev pub served : Bool → Mail → Mail
served conn m =
    if is_pending m.switch_ssh && conn
    then record m { switch_ssh = [] }
    else if is_pending m.ssh_command && conn
    then record m { ssh_command = [] }
    else if is_pending m.upload_command && conn
    then record m { upload_command = [] }
    else if is_pending m.scp_command && conn
    then record m { scp_command = [] }
    else if m.hp_1_status_req
    then record m { hp_1_status_req = false }
    else m

abbrev pub HasMail : Mail → Outcome Control → Type 0
HasMail m = Returns (λ left. left.mail ≡ m)

module _ (S : StringApi) (E : Libssh) (fuel : ℕ) where
  pub connect_current-HasMail :
      (this : Control) (c : Conn) (log : Log)
      → HasMail this.mail (connect_current S E fuel this c log)
  unfolding connect_current
  connect_current-HasMail this c log =
      Returns-continue (λ left. left.mail ≡ this.mail) (connect E fuel c log) _ (λ r after. refl)

  do_switch-HasMail :
      (this : Control) (c : Conn) (log : Log)
      → HasMail (record this.mail { switch_ssh = [] }) (do_switch S E fuel this c log)
  unfolding do_switch
  do_switch-HasMail this c log =
      let cleared = record this.mail { switch_ssh = [] } in
      let index = to_uint32 (S.to_int this.mail.switch_ssh) in
      Returns-continue (λ left. left.mail ≡ cleared) (brutal_exception E c log) _
        (λ closed log1.
          let left = with_server this (record closed { conn = false }) in
          let there = record left { current = index } in
          Returns-continue (λ left. left.mail ≡ cleared) (server left.servers index log1) _
            (λ target log2.
              Returns-then (λ left. left.mail ≡ this.mail) (λ left. left.mail ≡ cleared)
                (connect_current S E fuel there target log2) _
                (connect_current-HasMail there target log2)
                (λ switched log3 e. ap (λ (m : Mail). record m { switch_ssh = [] }) e)))

  do_command-HasMail :
      (this : Control) (c : Conn) (log : Log)
      → HasMail (record this.mail { ssh_command = [] }) (do_command S E fuel this c log)
  unfolding do_command
  do_command-HasMail this c log =
      Returns-continue _ (write E c this.mail.ssh_command log) _ (λ r after. refl)

  do_upload-HasMail :
      (this : Control) (c : Conn) (log : Log)
      → HasMail (record this.mail { upload_command = [] }) (do_upload S E fuel this c log)
  unfolding do_upload
  do_upload-HasMail this c log =
      Returns-continue _ (scp_write E S fuel c this.mail.upload_command log) _ (λ r after. refl)

  do_download-HasMail :
      (this : Control) (c : Conn) (log : Log)
      → HasMail (record this.mail { scp_command = [] }) (do_download S E fuel this c log)
  unfolding do_download
  do_download-HasMail this c log =
      Returns-continue _ (scp_read E fuel c this.mail.scp_command log) _ (λ r after. refl)

  do_status-HasMail :
      (this : Control) (c : Conn) (log : Log)
      → HasMail (record this.mail { hp_1_status_req = false }) (do_status S E fuel this c log)
  unfolding do_status
  do_status-HasMail this c log =
      let cleared = record this.mail { hp_1_status_req = false } in
      Returns-continue (λ left. left.mail ≡ cleared) (exec_cmd E S fuel c (text "echo alive") log) _
        (λ output log1.
          let alive = text_eq (S.trim output) (text "alive") in
          Returns-then (λ left. left.mail ≡ this.mail) (λ left. left.mail ≡ cleared) _ _
            (checked alive log1)
            (λ left log2 e. ap (λ (m : Mail). record m { hp_1_status_req = false }) e))
    where
      checked :
          (alive : Bool) (log : Log)
          → HasMail this.mail (
              (if alive
                  then pure (with_server this (record c { conn = alive }))
                  else (brutal_exception E (record c { conn = alive }) >>= λ closed.
                      connect_current S E fuel
                        (with_server this (record c { conn = alive }))
                        closed))
                log)
      checked true log = refl
      checked false log =
          Returns-continue (λ left. left.mail ≡ this.mail)
            (brutal_exception E (record c { conn = false }) log) _
            (λ closed after.
              connect_current-HasMail (with_server this (record c { conn = false })) closed after)

  pub do_keep_alive-HasMail :
      (this : Control) (c : Conn) (log : Log)
      → HasMail this.mail (do_keep_alive S E fuel this c log)
  unfolding do_keep_alive
  do_keep_alive-HasMail this c log =
      elim (Bool-cases (leb 10000 (sub32 (E.now log) this.last_keep_alive) && c.conn)) [
        | inl e ↦
            rw (e, do_keep_alive)
              (Returns-continue (λ left. left.mail ≡ this.mail)
                (keep_alive E c (called millis ∷ log)) _ (λ r after. refl))
        | inr e ↦ rw (e, do_keep_alive) refl
      ]

  -- When the chain of branches of a turn ends, it has taken away just the request that comes first, and left
  -- all others pending: a switch, a command, an upload, a download, these only if the server is taken
  -- for connected, and last a status request.
  pub choose-served :
      (this : Control) (c : Conn) (log : Log)
      → Returns (λ left. left.mail ≡ served c.conn this.mail) (choose S E fuel this c log)
  unfolding choose
  choose-served this c log = ground (
    arith,
    do_switch-HasMail this c log,
    do_command-HasMail this c log,
    do_upload-HasMail this c log,
    do_download-HasMail this c log,
    do_status-HasMail this c log,
    do_keep_alive-HasMail this c log,
  )
