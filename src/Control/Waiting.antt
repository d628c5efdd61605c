-- ===== src/Control/Waiting.antt =====
-- Requests that are never served.
use esp.Base.{ℕ, zero, suc, ◌≡◌, refl, Bool, false, some, List, [], ◌∷◌, get_elem?, length, arith}
use esp.Strings.{StringApi}
use esp.Http.{Request, read_body}
use esp.Clients.{Registry}
use esp.Ssh.{Libssh, Log, called, millis, done}
use esp.Ssh.Conn.{Conn}
use esp.Ssh.Transfer.{sub32}
use esp.Control.Handlers.{handle_terminal_post}
use esp.Control.{Control, from_slot, turn, turns, choose, do_keep_alive, read_first}

-- The current server, which the control loop takes for disconnected.
pub record IsDown (this : Control) (c : Conn) : Type 0 where
  pub is_server : get_elem? this.servers this.current ≡ some c
  pub is_down : c.conn ≡ false
  pub no_status : this.mail.hp_1_status_req ≡ false

abbrev pub wait_log : ℕ → Log → Log
wait_log zero log = log
wait_log (suc n) log = wait_log n (called millis ∷ log)

module _ (S : StringApi) (E : Libssh) (fuel : ℕ) where
  down_choose :
      (this : Control) (c : Conn) (log : Log)
      → c.conn ≡ false
      → this.mail.hp_1_status_req ≡ false
      → choose S E fuel this c log ≡ done this (called millis ∷ log)
  unfolding choose do_keep_alive
  down_choose this c log down quiet = ground arith

  down_reads_nothing :
      (clients : Registry) (got : Bool) (c : Conn) (log : Log)
      → c.conn ≡ false
      → read_first S E fuel clients got c log ≡ done [] log
  unfolding read_first
  down_reads_nothing clients got c log down = ground arith

  down_turn :
      (clients : Registry) (got : Bool) (this : Control) (c : Conn) (log : Log)
      → IsDown this c
      → turn S E fuel clients got this log ≡ done this (called millis ∷ log)
  unfolding turn
  down_turn clients got this c log d =
      rw (d.is_server, turn, from_slot, down_reads_nothing clients got c log d.is_down)
        (down_choose this c log d.is_down d.no_status)

  -- While the current server is taken for disconnected and nobody asks for its status, the loop only reads
  -- the clock: after any number of turns every request still stands, and nothing was done for it.
  down_turns :
      (tables : List (Registry × Bool)) (this : Control) (c : Conn) (log : Log)
      → IsDown this c
      → turns S E fuel tables this log ≡ done this (wait_log (length tables) log)
  unfolding turns
  down_turns [] this c log d = refl
  down_turns ((clients, got) ∷ tables) this c log d =
      rw (down_turn clients got this c log d, turns)
        (down_turns tables this c (called millis ∷ log) d)

  -- When the terminal's handler posts a command while the current server is taken for disconnected and
  -- nobody asks for its status, the command that it waits for is still there after any number of turns
  -- of the control loop.
  terminal_post_waits :
      (tables : List (Registry × Bool)) (this : Control) (c : Conn) (req : Request) (log : Log)
      → IsDown this c
      → (left : Control) × (turns S E fuel tables
            (record this { mail = (handle_terminal_post S req this.mail).0 })
            log
          ≡ done left (wait_log (length tables) log))
        × (left.mail.ssh_command
            ≡ S.substring (read_body [] req.chunks) 1 (sub32 (length (read_body [] req.chunks)) 1))
  unfolding handle_terminal_post
  terminal_post_waits tables this c req log d =
      let posted = record this { mail = (handle_terminal_post S req this.mail).0 } in
      (
        posted,
        down_turns tables posted c log
            (record { is_server = d.is_server; is_down = d.is_down; no_status = d.no_status }),
        refl,
      )
