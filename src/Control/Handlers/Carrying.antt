-- ===== src/Control/Handlers/Carrying.antt =====
-- A turn of the control loop that carries a file between a server and the card.
use esp.Base.{
  ℕ, ◌^◌, ◌<◌, ◌≡◌, ◌≢◌, refl, sym, ◌∙◌, subst, Bool, true, false, some, List, [], length,
  get_elem?, arith,
}
use esp.Base.Bytes.{Text, c_str}
use esp.Base.Int.{ℤ, pos}
use esp.Strings.{StringApi}
use esp.Clients.{Registry}
use esp.Ssh.{Libssh, Log, Outcome, done, undefined, out_of_fuel, continue}
use esp.Ssh.Login.Ends.{Ends}
use esp.Ssh.Conn.{Conn, at}
use esp.Ssh.Scp.{scp_read, scp_write, directories}
use esp.Ssh.Scp.Fetching.{IsServing, sd_file}
use esp.Ssh.Scp.Downloads.{Downloads, scp_read-Downloads}
use esp.Ssh.Scp.Pushing.{IsTaking, base_name, pushed, announced, entered}
use esp.Ssh.Scp.Uploads.{Uploads, scp_write-Uploads}
use esp.Control.{Mail, Control, turn, choose, do_download, do_upload, read_first}
use esp.Control.Delivery.{pending}
use esp.Control.Handlers.{scp_waits, upload_waits}
use esp.Control.Handlers.Terminal.{read_first-Ends}

-- The handler waits no longer, and the file on the card has these bytes.
abbrev pub Fetched : Text → Outcome Control → Type 0
Fetched content (done left log) = (scp_waits left.mail ≡ false) × (sd_file log ≡ content)
Fetched content undefined = ⊥
Fetched content out_of_fuel = ⊥

-- The handler waits no longer, and a file with these bytes was sent: first the directories, then the name
-- with the size, then the bytes.
abbrev pub Sent : List Text → Text → Text → Outcome Control → Type 0
Sent path name content (done left log) =
    (upload_waits left.mail ≡ false)
    × (entered log ≡ path)
    × (announced log ≡ some (name, pos (length content)))
    × (pushed log ≡ content)
Sent path name content undefined = ⊥
Sent path name content out_of_fuel = ⊥

fetched :
    (content : Text) (this : Control) (before : Log) (m : Outcome ℤ)
    → Downloads content before m
    → Fetched content
        (continue m (λ rc. done (record this { mail = record this.mail { scp_command = [] } })))
unfolding scp_waits
fetched content this before (done rc log) d = (refl, d.1)
fetched content this before undefined d = d
fetched content this before out_of_fuel d = d

sent :
    (S : StringApi) (path content : Text) (this : Control) (before : Log) (m : Outcome ℤ)
    → Uploads S path content before m
    → Sent
        (directories S path)
        (base_name S path)
        content
        (continue m (λ rc. done (record this { mail = record this.mail { upload_command = [] } })))
unfolding upload_waits
sent S path content this before (done rc log) u = (refl, u.1, u.2, u.3)
sent S path content this before undefined u = u
sent S path content this before out_of_fuel u = u

-- The current server can be worked with, and the request that comes first is behind these two.
pub record IsUp (this : Control) (c : Conn) : Type 0 where
  pub is_server : get_elem? this.servers this.current ≡ some c
  pub is_up : c.conn ≡ true
  pub channel : ℕ
  pub has_channel : c.channel ≡ at channel
  pub session : ℕ
  pub has_session : c.session ≡ at session
  pub no_switch : this.mail.switch_ssh ≡ []
  pub no_command : this.mail.ssh_command ≡ []

pub with_mail-IsUp :
    {this : Control} {c : Conn} (mail : Mail)
    → mail.switch_ssh ≡ this.mail.switch_ssh
    → mail.ssh_command ≡ this.mail.ssh_command
    → IsUp this c
    → IsUp (record this { mail = mail }) c
with_mail-IsUp mail e e' up = record {
  is_server = up.is_server;
  is_up = up.is_up;
  channel = up.channel;
  has_channel = up.has_channel;
  session = up.session;
  has_session = up.has_session;
  no_switch = e ∙ up.no_switch;
  no_command = e' ∙ up.no_command;
}

module _ (S : StringApi) (E : Libssh) (fuel : ℕ) (clients : Registry) (got : Bool) where
  -- A turn is its chain of branches behind the read.
  turn-choose :
      (P : Outcome Control → Type 0) (this : Control) (c : Conn) (log : Log)
      → IsUp this c
      → ((after : Log) → P (choose S E fuel this c after))
      → P (turn S E fuel clients got this log)
  unfolding turn
  turn-choose P this c log up h =
      rw (up.is_server, turn)
        (behind (read_first S E fuel clients got c log) (
          read_first-Ends S E fuel clients got c up.channel up.session log up.has_channel
            up.has_session))
    where
      behind : {A : Type 0} (m : Outcome A) → Ends m → P (continue m (λ a. choose S E fuel this c))
      behind (done a after) e = h after
      behind undefined e = absurd e
      behind out_of_fuel e = absurd e

  pub download_turn :
      (content : Text) (this : Control) (c : Conn) (log : Log)
      → IsServing E (c_str this.mail.scp_command) content
      → length content < fuel
      → length content < 2 ^ 32
      → IsUp this c
      → this.mail.upload_command ≡ []
      → this.mail.scp_command ≢ []
      → Fetched content (turn S E fuel clients got this log)
  unfolding choose do_download
  download_turn content this c log serving enough small up quiet asked =
      turn-choose (Fetched content) this c log up (λ after.
        let chosen : choose S E fuel this c after ≡ do_download S E fuel this c after =
          ground
            (arith, pending this.mail.scp_command asked, up.is_up, up.no_switch, up.no_command) in
        subst (Fetched content) (sym chosen) (
          fetched content this after (scp_read E fuel c this.mail.scp_command after) (
            scp_read-Downloads E this.mail.scp_command content serving fuel enough small c after
              (λ e. ground (arith, up.has_session)))))

  pub upload_turn :
      (content : Text) (this : Control) (c : Conn) (log : Log)
      → IsTaking E content
      → length content < fuel
      → IsUp this c
      → this.mail.upload_command ≢ []
      → Sent
          (directories S this.mail.upload_command)
          (base_name S this.mail.upload_command)
          content
          (turn S E fuel clients got this log)
  unfolding choose do_upload
  upload_turn content this c log taking enough up asked =
      turn-choose
        (Sent (directories S this.mail.upload_command) (base_name S this.mail.upload_command)
          content)
        this c log up
        (λ after.
          let chosen : choose S E fuel this c after ≡ do_upload S E fuel this c after = ground (
            arith,
            pending this.mail.upload_command asked,
            up.is_up,
            up.no_switch,
            up.no_command,
          ) in
          subst
            (Sent (directories S this.mail.upload_command) (base_name S this.mail.upload_command)
              content)
            (sym chosen)
            (sent S this.mail.upload_command content this after
              (scp_write E S fuel c this.mail.upload_command after)
              (scp_write-Uploads E content taking S fuel enough this.mail.upload_command c after
                (λ e. ground (arith, up.has_session)))))
