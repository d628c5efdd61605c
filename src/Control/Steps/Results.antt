-- ===== src/Control/Steps/Results.antt =====
-- Where a step leads, and what it does to the requests.
use esp.Base.{ℕ, ◌≡◌, refl, ◌⊎◌, Bool, true, false, if◌then◌else◌, arith}
use esp.Base.Int.{to_uint32}
use esp.Base.Bytes.{text, text_eq}
use esp.Strings.{StringApi}
use esp.Clients.{Registry}
use esp.Ssh.{Libssh, Log, pure, ◌>>=◌}
use esp.Ssh.Returns.{Returns, Returns-continue, Returns-then}
use esp.Ssh.Conn.{Conn, brutal_exception, write}
use esp.Ssh.Scp.{scp_write, scp_read}
use esp.Ssh.Transfer.{exec_cmd}
use esp.Control.{Mail, Control, server, with_server, connect_current, do_keep_alive, read_first}
use esp.Control.Requests.{HasMail, connect_current-HasMail, do_keep_alive-HasMail}
use esp.Control.Steps.{
  Branch, switch, command, upload, download, status, Place, reading, keeping, testing, calling,
  clearing, is_asked, is_chosen, after_test, clear, call, step,
}

-- The next place, and the requests then.
abbrev pub Leads : Place → Mail → Place → Mail → Type 0
Leads reading m q n = (q ≡ testing switch) × (n ≡ m)
Leads (testing b) m q n = (((q ≡ calling b) × (is_asked b m ≡ true)) ⊎ (q ≡ after_test b)) × (n ≡ m)
Leads (calling b) m q n = (q ≡ clearing b) × (n ≡ m)
Leads (clearing b) m q n = (q ≡ reading) × (n ≡ clear b m)
Leads keeping m q n = (q ≡ reading) × (n ≡ m)

chosen :
    (b : Branch) (m : Mail) (c : Conn)
    → let q = if is_chosen b m c then calling b else after_test b in
      ((q ≡ calling b) × (is_asked b m ≡ true)) ⊎ (q ≡ after_test b)
unfolding is_chosen is_asked
chosen switch m c = ground arith
chosen command m c = ground arith
chosen upload m c = ground arith
chosen download m c = ground arith
chosen status m c = ground arith

module _ (S : StringApi) (E : Libssh) (fuel : ℕ) where
  call-HasMail :
      (b : Branch) (this : Control) (c : Conn) (log : Log)
      → HasMail this.mail (call S E fuel b this c log)
  unfolding call
  call-HasMail switch this c log =
      Returns-continue (λ left. left.mail ≡ this.mail) (brutal_exception E c log) _
        (λ closed log1.
          let left = with_server this (record closed { conn = false }) in
          let index = to_uint32 (S.to_int this.mail.switch_ssh) in
          Returns-continue (λ left. left.mail ≡ this.mail) (server left.servers index log1) _
            (λ target log2.
              connect_current-HasMail S E fuel (record left { current = index }) target log2))
  call-HasMail command this c log =
      Returns-continue (λ left. left.mail ≡ this.mail) (write E c this.mail.ssh_command log) _
        (λ r after. refl)
  call-HasMail upload this c log =
      Returns-continue (λ left. left.mail ≡ this.mail)
        (scp_write E S fuel c this.mail.upload_command log) _ (λ r after. refl)
  call-HasMail download this c log =
      Returns-continue (λ left. left.mail ≡ this.mail) (scp_read E fuel c this.mail.scp_command log)
        _ (λ r after. refl)
  call-HasMail status this c log =
      Returns-continue (λ left. left.mail ≡ this.mail) (exec_cmd E S fuel c (text "echo alive") log)
        _ (λ output log1. checked (text_eq (S.trim output) (text "alive")) log1)
    where
      checked :
          (alive : Bool) (log : Log)
          → HasMail this.mail (
              (if alive
                  then pure (with_server this (record c { conn = alive }))
                  else (brutal_exception E (record c { conn = alive }) >>= λ closed.
                      connect_current S E fuel
                        (with_server this (record c { conn = alive }))
                        closed))
                log)
      checked true log = refl
      checked false log =
          Returns-continue (λ left. left.mail ≡ this.mail)
            (brutal_exception E (record c { conn = false }) log) _
            (λ closed after.
              connect_current-HasMail S E fuel (with_server this (record c { conn = false })) closed
                after)

  pub step-Leads :
      (clients : Registry) (got : Bool) (p : Place) (this : Control) (log : Log)
      → Returns (λ at. Leads p this.mail at.0 at.1.mail) (step S E fuel clients got p this log)
  unfolding step
  step-Leads clients got reading this log =
      Returns-continue _ (server this.servers this.current log) _ (λ c log1.
        Returns-continue _ (read_first S E fuel clients got c log1) _ (λ sent log2. (refl, refl)))
  step-Leads clients got (testing b) this log =
      Returns-continue _ (server this.servers this.current log) _
        (λ c log1. (chosen b this.mail c, refl))
  step-Leads clients got (calling b) this log =
      Returns-continue _ (server this.servers this.current log) _ (λ c log1.
        Returns-then (λ left. left.mail ≡ this.mail) _ (call S E fuel b this c log1) _
          (call-HasMail b this c log1) (λ left log2 e. (refl, e)))
  step-Leads clients got (clearing b) this log = (refl, refl)
  step-Leads clients got keeping this log =
      Returns-continue _ (server this.servers this.current log) _ (λ c log1.
        Returns-then (λ left. left.mail ≡ this.mail) _ (do_keep_alive S E fuel this c log1) _
          (do_keep_alive-HasMail S E fuel this c log1) (λ left log2 e. (refl, e)))
