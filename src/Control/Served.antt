-- ===== src/Control/Served.antt =====
-- How long a request waits, when nothing else is posted meanwhile.
use esp.Base.{
  ℕ, zero, suc, ◌≡◌, ◌∙◌, ap, refl, subst, Bool, true, false, some, [], get_elem?, arith,
}
use esp.Strings.{StringApi}
use esp.Clients.{Registry}
use esp.Ssh.{Libssh, Log, done}
use esp.Ssh.Returns.{Returns, Returns-continue}
use esp.Ssh.Conn.{Conn}
use esp.Control.{Mail, Control, turn, read_first}
use esp.Control.Requests.{served, choose-served}

-- Nobody asks for anything.
abbrev pub no_requests : Mail
no_requests = record {
  switch_ssh = [];
  ssh_command = [];
  upload_command = [];
  scp_command = [];
  hp_1_status_req = false;
}

-- Turns that end, each of them begun with the current server taken for connected.
pub data ConnectedTurns (S : StringApi) (E : Libssh) (fuel : ℕ) (this : Control) (log : Log)
    : ℕ → Control → Log → Type 0 where
  here : ConnectedTurns S E fuel this log 0 this log
  next :
      {n : ℕ} {left last : Control} {before after : Log} (clients : Registry) (got : Bool)
      (c : Conn)
      → ConnectedTurns S E fuel this log n left before
      → get_elem? left.servers left.current ≡ some c
      → c.conn ≡ true
      → turn S E fuel clients got left before ≡ done last after
      → ConnectedTurns S E fuel this log (suc n) last after

-- What `n` such turns leave.
abbrev served_by : ℕ → Mail → Mail
served_by zero m = m
served_by (suc n) m = served true (served_by n m)

module _ (S : StringApi) (E : Libssh) (fuel : ℕ) where
  turn-served :
      (clients : Registry) (got : Bool) (this left : Control) (c : Conn) (log after : Log)
      → get_elem? this.servers this.current ≡ some c
      → c.conn ≡ true
      → turn S E fuel clients got this log ≡ done left after
      → left.mail ≡ served true this.mail
  unfolding turn
  turn-served clients got this left c log after e up ends =
      subst (Returns (λ left. left.mail ≡ served true this.mail)) ends (
        subst
          (λ b.
            Returns (λ left. left.mail ≡ served b this.mail) (turn S E fuel clients got this log))
          up (whole e))
    where
      whole :
          get_elem? this.servers this.current ≡ some c
          → Returns
              (λ left. left.mail ≡ served c.conn this.mail)
              (turn S E fuel clients got this log)
      whole e =
          rw (e, turn)
            (Returns-continue (λ left. left.mail ≡ served c.conn this.mail)
              (read_first S E fuel clients got c log) _
              (λ sent after. choose-served S E fuel this c after))

  turns-served :
      {this : Control} {log : Log} {n : ℕ} {left : Control} {after : Log}
      → ConnectedTurns S E fuel this log n left after
      → left.mail ≡ served_by n this.mail
  turns-served here = refl
  turns-served (next {left} {last} {before} {after} clients got c r e up ends) =
      turn-served clients got left last c before after e up ends ∙ ap (served true) (turns-served r)

  five : (m : Mail) → served_by 5 m ≡ no_requests
  five m = ground arith

  -- After five turns that end, each begun with the current server taken for connected, and with no request
  -- posted meanwhile, no request is left, whatever the requests were.
  pub all_served :
      {this left : Control} {log after : Log}
      → ConnectedTurns S E fuel this log 5 left after
      → left.mail ≡ no_requests
  all_served {this} turns = turns-served turns ∙ five this.mail
