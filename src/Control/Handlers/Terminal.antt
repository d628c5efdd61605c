-- ===== src/Control/Handlers/Terminal.antt =====
-- A command from the terminal's page to the server, by `handleTerminalPost` of src/main.cpp.
use esp.Base.{
  ◌<◌, ℕ, ◌^◌, ◌≡◌, ◌≢◌, refl, sym, ap, ◌∙◌, Bool, true, false, some, [], ◌∷◌, ◌++◌, length,
  get_elem?, arith,
}
use esp.Base.Bytes.{Text}
use esp.Strings.{StringApi, IsLawful}
use esp.Http.{Request}
use esp.Clients.{Registry}
use esp.Ssh.{
  Libssh, Log, M, Outcome, done, undefined, out_of_fuel, continue, called, ssh_channel_write,
}
use esp.Ssh.Conn.{Conn, at}
use esp.Ssh.Login.Ends.{Ends}
use esp.Ssh.Transfer.{sub32, read, can_read}
use esp.Control.{Control, read_first, choose, turn}
use esp.Control.Delivery.{command_written}
use esp.Control.Handlers.{handle_terminal_post, terminal_waits}
use esp.Control.Handlers.Files.{concat, read_body-concat, unquoted}

pub read_first-Ends :
    (S : StringApi) (E : Libssh) (fuel : ℕ) (clients : Registry) (got : Bool) (c : Conn) (p s : ℕ)
    (log : Log)
    → c.channel ≡ at p
    → c.session ≡ at s
    → Ends (read_first S E fuel clients got c log)
unfolding read_first read can_read
read_first-Ends S E fuel clients got c p s log set open_session = ground arith

-- It ends, its last call writes the command to the channel, and the handler waits no longer.
abbrev pub Delivers : ℕ → Text → Outcome Control → Type 0
Delivers p command (done left log) =
    (terminal_waits left.mail ≡ false)
    × ((before : Log) × (log ≡ called (ssh_channel_write p command) ∷ before))
Delivers p command undefined = ⊥
Delivers p command out_of_fuel = ⊥

after_reading :
    {A : Type 0} (p : ℕ) (command : Text) (m : Outcome A) (f : A → M Control)
    → Ends m
    → ((a : A) (log : Log) → Delivers p command (f a log))
    → Delivers p command (continue m f)
after_reading p command (done a log) f e h = h a log
after_reading p command undefined f e h = absurd e
after_reading p command out_of_fuel f e h = absurd e

Delivers-choose :
    (S : StringApi) (E : Libssh) (fuel : ℕ) (this : Control) (c : Conn) (p : ℕ) (command : Text)
    (log : Log)
    → c.conn ≡ true
    → c.channel ≡ at p
    → this.mail.switch_ssh ≡ []
    → command ≢ []
    → this.mail.ssh_command ≡ command
    → Delivers p command (choose S E fuel this c log)
unfolding terminal_waits
Delivers-choose S E fuel this c p command log up set quiet some_command posted =
    rw (command_written S E fuel this c p log up set quiet (λ e. some_command (sym posted ∙ e)))
      (refl, (log, ap (λ (t : Text). called (ssh_channel_write p t) ∷ log) posted))

-- When the terminal's page posts a command between two quotes, the next turn of the control loop ends, whatever
-- the library answers, its last call writes that command to the channel of the current server, and
-- the handler waits no longer. Here the server is taken for connected, its channel and its session
-- were made, and no switch is asked for.
pub terminal_post-Delivers :
    (S : StringApi) (E : Libssh) (fuel : ℕ) (clients : Registry) (got : Bool) (this : Control)
    (c : Conn) (p s : ℕ) (req : Request) (command : Text) (q q' : ℕ) (log : Log)
    → IsLawful S
    → get_elem? this.servers this.current ≡ some c
    → c.conn ≡ true
    → c.channel ≡ at p
    → c.session ≡ at s
    → this.mail.switch_ssh ≡ []
    → command ≢ []
    → concat req.chunks ≡ q ∷ (command ++ (q' ∷ []))
    → length (q ∷ (command ++ (q' ∷ []))) < 2 ^ 32
    → Delivers p command (
        turn S E fuel clients got
          (record this { mail = (handle_terminal_post S req this.mail).0 })
          log)
unfolding turn handle_terminal_post
terminal_post-Delivers S E fuel clients got this c p s req command q q' log L current up set made
      quiet some_command body short =
    let posted = record this { mail = (handle_terminal_post S req this.mail).0 } in
    let left : posted.mail.ssh_command ≡ command =
      ap (λ (t : Text). S.substring t 1 (sub32 (length t) 1))
        (read_body-concat [] req.chunks ∙ body)
      ∙ unquoted S L command q q' short in
    rw (current, turn)
      (after_reading p command (read_first S E fuel clients got c log) _
        (read_first-Ends S E fuel clients got c p s log set made)
        (λ sent after.
          Delivers-choose S E fuel posted c p command after up set quiet some_command left))
