-- ===== src/Control/Tasks/Awaited.antt =====
-- A handler that waits, over any moves of the two tasks.
use esp.Base.{
  Option, Bool, get_elem?, ℕ, ◌≡◌, refl, subst, inl, inr, true, false, none, some, [], arith,
}
use esp.Base.Bytes.{Text, text}
use esp.Strings.{StringApi}
use esp.Ssh.{Libssh, Log, done, continue, pure, ◌>>=◌}
use esp.Ssh.Conn.{Conn}
use esp.Ssh.Scp.{scp_write, scp_read}
use esp.Ssh.Transfer.{exec_cmd}
use esp.Clients.{Registry}
use esp.Ssh.Returns.{Returns, Ensures, Ensures-continue, Ensures-always, Ensures-done}
use esp.Control.{Mail, Control, from_slot}
use esp.Control.Steps.{
  Branch, switch, command, upload, download, status, Place, reading, calling, clearing, is_asked,
  call, step,
}
use esp.Control.Steps.Results.{Leads, step-Leads}
use esp.Control.Tasks.{
  Tasks, Visit, posted, waits_for, still_waits, visited, stepped, Move, turns, visits, returns,
  Reach, here, next,
}
use esp.Control.Tasks.Held.{is_awaited, Ran, WasCalled, Held, Same-refl, stepped-HeldAt}

module _ (S : StringApi) (E : Libssh) (fuel : ℕ) where
  branch-Ran :
      (b : Branch) (this : Control) (c : Conn) (before : Log)
      → get_elem? this.servers this.current ≡ some c
      → Ensures (λ left after. Ran S E fuel b this before after) (call S E fuel b this c before)
  unfolding call
  branch-Ran switch this c before e =
      Ensures-always _ (call S E fuel switch this c before) (λ left after. tt)
  branch-Ran command this c before e =
      Ensures-always _ (call S E fuel command this c before) (λ left after. tt)
  branch-Ran upload this c before e =
      Ensures-continue (λ rc after. Ran S E fuel upload this before after) _
        (scp_write E S fuel c this.mail.upload_command before) _
        (Ensures-done _ (scp_write E S fuel c this.mail.upload_command before)
          (λ rc after d. (c, e, rc, d)))
        (λ rc after r. r)
  branch-Ran download this c before e =
      Ensures-continue (λ rc after. Ran S E fuel download this before after) _
        (scp_read E fuel c this.mail.scp_command before) _
        (Ensures-done _ (scp_read E fuel c this.mail.scp_command before)
          (λ rc after d. (c, e, rc, d)))
        (λ rc after r. r)
  branch-Ran status this c before e =
      Ensures-continue (λ output middle. Ran S E fuel status this before middle) _
        (exec_cmd E S fuel c (text "echo alive") before) _
        (Ensures-done _ (exec_cmd E S fuel c (text "echo alive") before)
          (λ output middle d. (c, e, output, middle, d)))
        (λ output middle r. Ensures-always _ _ (λ left after. r))

  slot-Ran :
      (b : Branch) (this : Control) (before : Log) (o : Option Conn)
      → get_elem? this.servers this.current ≡ o
      → Ensures
          (λ (at : Place × Control) after. Ran S E fuel b this before after)
          (continue
            (from_slot o before)
            (λ c. call S E fuel b this c >>= λ left. pure (clearing b, left)))
  slot-Ran b this before none e = tt
  slot-Ran b this before (some c) e =
      Ensures-continue (λ left after. Ran S E fuel b this before after) _
        (call S E fuel b this c before) _ (branch-Ran b this c before e) (λ left after r. r)

  -- A step from a call has run it.
  call-Ran :
      (clients : Registry) (got : Bool) (b : Branch) (p q : Place) (this left : Control)
      (before after : Log)
      → p ≡ calling b
      → step S E fuel clients got p this before ≡ done (q, left) after
      → Ran S E fuel b this before after
  unfolding step
  call-Ran clients got b p q this left before after i e =
      subst (Ensures (λ (at : Place × Control) after. Ran S E fuel b this before after))
        (subst (λ p. step S E fuel clients got p this before ≡ done (q, left) after) i e)
        (slot-Ran b this before (get_elem? this.servers this.current) refl)

module _ (S : StringApi) (urldecode : Text → Text) where
  posted-alone :
      (b : Branch) (v : Visit) (m : Mail)
      → is_awaited b ≡ true
      → is_asked b m ≡ false
      → is_asked b (posted S urldecode v m) ≡ true
      → waits_for v (posted S urldecode v m) ≡ some b
  unfolding posted is_awaited is_asked waits_for
  posted-alone upload v m a n asks = ground arith
  posted-alone download v m a n asks = ground arith
  posted-alone status v m a n asks = ground arith
  posted-alone b v m a n asks = ground arith

  posted-asks :
      (b : Branch) (v : Visit) (m : Mail)
      → waits_for v (posted S urldecode v m) ≡ some b
      → is_asked b (posted S urldecode v m) ≡ true
  unfolding posted is_asked waits_for
  posted-asks b v m w = ground arith

-- A turn begins, the server task is free, and nothing is asked for that a handler waits for.
abbrev pub IsQuiet : Tasks → Type 0
IsQuiet t =
    (t.place ≡ reading)
    × (t.waiting ≡ none)
    × (t.control.mail.upload_command ≡ [])
    × (t.control.mail.scp_command ≡ [])
    × (t.control.mail.hp_1_status_req ≡ false)

quiet-Held :
    (S : StringApi) (E : Libssh) (fuel : ℕ) (b : Branch) (t : Tasks)
    → is_awaited b ≡ true
    → IsQuiet t
    → Held S E fuel b t
unfolding is_awaited is_asked
quiet-Held S E fuel b t a q = record {
  alone = ground arith;
  ready = ground arith;
  called = λ e. ground arith;
  kept = λ e. ground arith;
}

module _ (S : StringApi) (E : Libssh) (fuel : ℕ) (urldecode : Text → Text) (b : Branch)
    (a : is_awaited b ≡ true) where
  visited-Held :
      (v : Visit) (t : Tasks)
      → t.waiting ≡ none
      → Held S E fuel b t
      → Held S E fuel b (visited S urldecode v t)
  unfolding visited
  visited-Held v t free h = record {
    alone = posted-alone S urldecode b v t.control.mail a (ground (arith, h.alone));
    ready = λ e. ground (arith, h.ready e, h.alone);
    called = λ e. ground (arith, h.called e, h.alone);
    kept = λ e. inl (posted-asks S urldecode b v t.control.mail e, Same-refl b _);
  }

  still_asks : (c : Branch) (m : Mail) → c ≡ b → still_waits c m ≡ false → is_asked b m ≡ false
  unfolding still_waits is_asked is_awaited
  still_asks c m same gone = ground (arith, a)

  Move-Held : {t u : Tasks} → Move S E fuel urldecode t u → Held S E fuel b t → Held S E fuel b u
  unfolding still_waits is_asked stepped
  Move-Held {t} (turns clients got p this log e) h =
      stepped-HeldAt S E fuel b t.place p t.control this.mail t.log log refl
        (λ c i. call-Ran S E fuel clients got c t.place p t.control this t.log log i e)
        (subst (Returns (λ at. Leads t.place t.control.mail at.0 at.1.mail)) e
          (step-Leads S E fuel clients got t.place t.control t.log))
        h
  Move-Held {t} (visits v free) h = visited-Held v t free h
  Move-Held {t} (returns c w gone) h = record {
    alone = λ q. ground (arith, h.alone q, still_asks c t.control.mail);
    ready = h.ready;
    called = h.called;
    kept = λ e. ground arith;
  }

  Reach-Held : {t u : Tasks} → IsQuiet t → Reach S E fuel urldecode t u → Held S E fuel b u
  Reach-Held {t} q here = quiet-Held S E fuel b t a q
  Reach-Held q (next r m) = Move-Held m (Reach-Held q r)

  -- From the beginning of a turn, with the server task free and no upload, download or status request
  -- pending, over any moves of the two tasks and any answers of the library: when the handler of an upload,
  -- a download or a status request waits, and finds its request gone, then since the handler left it, a
  -- step of the control task has run `scp_write`, `scp_read` or `exec_cmd` to its end on the server that
  -- was the current one, from the log that the step began with: for an upload or a download with the very
  -- request that the handler had left, and to the log that the step ended with; for a status request
  -- with the command `echo alive`.
  pub returns_called :
      {t u : Tasks}
      → IsQuiet t
      → Reach S E fuel urldecode t u
      → u.waiting ≡ some b
      → still_waits b u.control.mail ≡ false
      → WasCalled S E fuel b u.asked u.calls
  returns_called {t} {u} q r w gone = elim ((Reach-Held q r).kept w) [
    | inl asks ↦ ground (arith, asks, still_asks b u.control.mail refl gone)
    | inr called ↦ called
  ]
