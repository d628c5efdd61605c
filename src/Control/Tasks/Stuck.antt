-- ===== src/Control/Tasks/Stuck.antt =====
-- A handler that waits for the control task while the current server is taken for disconnected.
use esp.Base.{ℕ, ◌≡◌, refl, subst, sym, ◌∙◌, Bool, true, false, some, get_elem?, arith}
use esp.Base.Bytes.{Text}
use esp.Strings.{StringApi}
use esp.Clients.{Registry}
use esp.Ssh.{Libssh, Log}
use esp.Ssh.Returns.{Returns}
use esp.Ssh.Conn.{Conn}
use esp.Control.{Control, Mail, from_slot, read_first, do_keep_alive}
use esp.Control.Steps.{
  Branch, switch, command, upload, download, status, Place, reading, keeping, testing, calling,
  clearing, step, is_chosen, is_asked, after_test,
}
use esp.Control.Tasks.{
  Tasks, Visit, posted, waits_for, visited, stepped, still_waits, Move, turns, visits, returns,
  Reach, here, next,
}

-- Not in a branch.
unfoldable pub is_between : Place → Bool
is_between reading = true
is_between keeping = true
is_between (testing b) = true
is_between (calling b) = false
is_between (clearing b) = false

-- The current server is taken for disconnected, nobody asks for its status, and the handler of this branch
-- waits for its request.
pub record IsStuck (b : Branch) (t : Tasks) : Type 0 where
  pub server : Conn
  pub is_server : get_elem? t.control.servers t.control.current ≡ some server
  pub is_down : server.conn ≡ false
  pub no_status : t.control.mail.hp_1_status_req ≡ false
  pub is_waiting : t.waiting ≡ some b
  pub not_served : still_waits b t.control.mail ≡ true
  pub between : is_between t.place ≡ true

waits_for-still_waits :
    (v : Visit) (b : Branch) (m : Mail) → waits_for v m ≡ some b → still_waits b m ≡ true
unfolding waits_for still_waits
waits_for-still_waits v b m w = ground arith

module _ (S : StringApi) (E : Libssh) (fuel : ℕ) where
  not_chosen :
      (b : Branch) (m : Mail) (c : Conn)
      → c.conn ≡ false
      → m.hp_1_status_req ≡ false
      → is_chosen b m c ≡ false
  unfolding is_chosen is_asked
  not_chosen switch m c down quiet = ground arith
  not_chosen command m c down quiet = ground arith
  not_chosen upload m c down quiet = ground arith
  not_chosen download m c down quiet = ground arith
  not_chosen status m c down quiet = ground arith

  after_test-between : (b : Branch) → is_between (after_test b) ≡ true
  unfolding after_test is_between
  after_test-between switch = refl
  after_test-between command = refl
  after_test-between upload = refl
  after_test-between download = refl
  after_test-between status = refl

  idle_step :
      (clients : Registry) (got : Bool) (p : Place) (this : Control) (c : Conn) (log : Log)
      → get_elem? this.servers this.current ≡ some c
      → c.conn ≡ false
      → this.mail.hp_1_status_req ≡ false
      → is_between p ≡ true
      → Returns
          (λ (at : Place × Control). (is_between at.0 ≡ true) × (at.1 ≡ this))
          (step S E fuel clients got p this log)
  unfolding step is_between read_first do_keep_alive
  idle_step clients got reading this c log e down quiet between = ground arith
  idle_step clients got (testing b) this c log e down quiet between =
      rw (e, step, from_slot, not_chosen b this.mail c down quiet) (after_test-between b, refl)
  idle_step clients got (calling b) this c log e down quiet between = ground arith
  idle_step clients got (clearing b) this c log e down quiet between = ground arith
  idle_step clients got keeping this c log e down quiet between = ground arith

  module _ (urldecode : Text → Text) (b : Branch) where
    rested :
        {t : Tasks} (p : Place) (log : Log)
        → is_between p ≡ true
        → IsStuck b t
        → IsStuck b (stepped t p t.control log)
    unfolding stepped
    rested p log between h = record {
      server = h.server;
      is_server = h.is_server;
      is_down = h.is_down;
      no_status = h.no_status;
      is_waiting = h.is_waiting;
      not_served = h.not_served;
      between = between;
    }

    Move-IsStuck :
        {t u : Tasks}
        → Move S E fuel urldecode t u
        → IsStuck b t
        → IsStuck b u × (u.control ≡ t.control)
    unfolding stepped
    Move-IsStuck {t} (turns clients got p this log e) h =
        let (rests, same) =
          subst (Returns (λ (at : Place × Control). (is_between at.0 ≡ true) × (at.1 ≡ t.control)))
            e
            (idle_step clients got t.place t.control h.server t.log h.is_server h.is_down
              h.no_status h.between) in
        (
          subst (λ control. IsStuck b (stepped t p control log)) (sym same) (rested p log rests h),
          same,
        )
    Move-IsStuck {t} (visits v free) h = ground (arith, h.is_waiting)
    Move-IsStuck {t} (returns c w gone) h = absurd (ground (arith, h.is_waiting, h.not_served))

    stays-IsStuck :
        {t u : Tasks}
        → IsStuck b t
        → Reach S E fuel urldecode t u
        → IsStuck b u × (u.control ≡ t.control)
    stays-IsStuck h here = (h, refl)
    stays-IsStuck h (next r m) =
        let (before, same) = stays-IsStuck h r in
        let (after, same') = Move-IsStuck m before in (after, same' ∙ same)

    -- The server task hangs for good: when a visitor brings something that a handler waits for, while the
    -- current server is taken for disconnected, no status is asked for and no branch is being run, then
    -- over any moves of the two tasks and any answers of the library the handler waits, so that no other
    -- visitor is answered, and neither the servers nor the requests ever change again.
    pub visitor_hangs :
        (t : Tasks) {u : Tasks} (v : Visit) (c : Conn)
        → get_elem? t.control.servers t.control.current ≡ some c
        → c.conn ≡ false
        → is_between t.place ≡ true
        → (posted S urldecode v t.control.mail).hp_1_status_req ≡ false
        → waits_for v (posted S urldecode v t.control.mail) ≡ some b
        → Reach S E fuel urldecode (visited S urldecode v t) u
        → (u.waiting ≡ some b) × (u.control ≡ (visited S urldecode v t).control)
    unfolding visited
    visitor_hangs t v c e down between quiet waits r =
        let (stuck, same) =
          stays-IsStuck
            (record {
              server = c;
              is_server = e;
              is_down = down;
              no_status = quiet;
              is_waiting = waits;
              not_served = waits_for-still_waits v b _ waits;
              between = between;
            })
            r in
        (stuck.is_waiting, same)
