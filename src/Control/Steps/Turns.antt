-- ===== src/Control/Steps/Turns.antt =====
-- The steps of a turn, one after the other, are the turn.
use esp.Base.{
  set, fun_ext, ap, ℕ, suc, ◌≡◌, refl, ◌∙◌, Bool, true, false, Option, none, some, get_elem?, arith,
}
use esp.Base.Int.{to_uint32}
use esp.Base.Bytes.{text}
use esp.Strings.{StringApi}
use esp.Clients.{Registry}
use esp.Ssh.{Libssh, Log, M, Outcome, done, undefined, out_of_fuel, continue, pure}
use esp.Ssh.Conn.{Conn, write, brutal_exception}
use esp.Ssh.Scp.{scp_write, scp_read}
use esp.Ssh.Transfer.{exec_cmd}
use esp.Control.{
  Control, server, do_switch, do_command, do_upload, do_download, do_status, do_keep_alive,
  read_first, choose, turn,
}
use esp.Control.Steps.{
  Branch, switch, command, upload, download, status, Place, reading, keeping, testing, calling,
  is_chosen, is_asked, clear, after_test, call, step, finish,
}

continue_assoc :
    {A B C : Type 0} (m : Outcome A) (f : A → M B) (g : B → M C)
    → continue (continue m f) g ≡ continue m (λ a log. continue (f a log) g)
continue_assoc (done a log) f g = refl
continue_assoc undefined f g = refl
continue_assoc out_of_fuel f g = refl

continue-pure : {A : Type 0} (m : Outcome A) → continue m pure ≡ m
continue-pure (done a log) = refl
continue-pure undefined = refl
continue-pure out_of_fuel = refl

abbrev pub cleared : Branch → Control → M Control
cleared b left = pure (record left { mail = clear b left.mail })

module _ (S : StringApi) (E : Libssh) (fuel : ℕ) where
  -- A whole branch.
  abbrev pub do_branch : Branch → Control → Conn → M Control
  do_branch switch = do_switch S E fuel
  do_branch command = do_command S E fuel
  do_branch upload = do_upload S E fuel
  do_branch download = do_download S E fuel
  do_branch status = do_status S E fuel

  pub do_branch-call :
      (b : Branch) (this : Control) (c : Conn) (log : Log)
      → continue (call S E fuel b this c log) (cleared b) ≡ do_branch b this c log
  unfolding call clear do_switch do_command do_upload do_download do_status
  do_branch-call command this c log = continue_assoc (write E c this.mail.ssh_command log) _ _
  do_branch-call upload this c log =
      continue_assoc (scp_write E S fuel c this.mail.upload_command log) _ _
  do_branch-call download this c log =
      continue_assoc (scp_read E fuel c this.mail.scp_command log) _ _
  do_branch-call switch this c log =
      let index = to_uint32 (S.to_int this.mail.switch_ssh) in
      continue_assoc (brutal_exception E c log) _ _
      ∙ ap (continue (brutal_exception E c log)) (
          fun_ext λ closed. fun_ext λ after.
            continue_assoc
              (server (set this.servers this.current (record closed { conn = false })) index after)
              _ _)
  do_branch-call status this c log =
      continue_assoc (exec_cmd E S fuel c (text "echo alive") log) _ _

  module _ (clients : Registry) (got : Bool) where
    abbrev go : ℕ → Place → Control → M Control
    go n = finish S E fuel n clients got

    module _ (this : Control) (c : Conn)
        (is_server : get_elem? this.servers this.current ≡ some c) where
      called_out :
          (b : Branch) (n : ℕ) (log : Log)
          → go (suc (suc n)) (calling b) this log ≡ do_branch b this c log
      unfolding finish step
      called_out b n log =
          rw (is_server, finish, step)
            (continue_assoc (call S E fuel b this c log) _ _ ∙ do_branch-call b this c log)

      jumped :
          (b : Branch) (n : ℕ) (log : Log)
          → is_chosen b this.mail c ≡ true
          → go (suc n) (testing b) this log ≡ go n (calling b) this log
      unfolding finish step
      jumped b n log e = rw (is_server, finish, step, e) refl

      taken :
          (b : Branch) (n : ℕ) (log : Log)
          → is_chosen b this.mail c ≡ true
          → go (suc (suc (suc n))) (testing b) this log ≡ do_branch b this c log
      taken b n log e = jumped b (suc (suc n)) log e ∙ called_out b n log

      passed :
          (b : Branch) (n : ℕ) (log : Log)
          → is_chosen b this.mail c ≡ false
          → go (suc n) (testing b) this log ≡ go n (after_test b) this log
      unfolding finish step after_test
      passed switch n log e = rw (is_server, finish, step, e) refl
      passed command n log e = rw (is_server, finish, step, e) refl
      passed upload n log e = rw (is_server, finish, step, e) refl
      passed download n log e = rw (is_server, finish, step, e) refl
      passed status n log e = rw (is_server, finish, step, e) refl

      kept : (n : ℕ) (log : Log) → go (suc n) keeping this log ≡ do_keep_alive S E fuel this c log
      unfolding finish step
      kept n log =
          rw (is_server, finish, step)
            (continue_assoc (do_keep_alive S E fuel this c log) _ _
              ∙ continue-pure (do_keep_alive S E fuel this c log))

      -- The chain of tests, step by step.
      tests-choose : (log : Log) → go 7 (testing switch) this log ≡ choose S E fuel this c log
      unfolding choose after_test is_chosen is_asked
      tests-choose log = ground (
        arith,
        taken switch 4 log,
        passed switch 6 log,
        taken command 3 log,
        passed command 5 log,
        taken upload 2 log,
        passed upload 4 log,
        taken download 1 log,
        passed download 3 log,
        taken status 0 log,
        passed status 2 log,
        kept 1 log,
      )

    -- Eight steps are enough for a turn, and with the globals left alone between them they are the turn.
    finish-turn :
        (this : Control) (log : Log)
        → finish S E fuel 8 clients got reading this log ≡ turn S E fuel clients got this log
    finish-turn this log = split (get_elem? this.servers this.current) refl
      where
        split :
            (o : Option Conn)
            → get_elem? this.servers this.current ≡ o
            → finish S E fuel 8 clients got reading this log ≡ turn S E fuel clients got this log
        split none e =
            unfold finish in unfold step in unfold turn in rw (e, finish, step, turn) refl
        split (some c) e =
            unfold finish in
            unfold step in
            unfold turn in
            rw (e, finish, step, turn)
              (continue_assoc (read_first S E fuel clients got c log) _ _
                ∙ ap (continue (read_first S E fuel clients got c log))
                    (fun_ext λ sent. fun_ext λ after. tests-choose this c e after))
