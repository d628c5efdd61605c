-- ===== src/Control/Tasks/Held.antt =====
-- A request that its handler waits for.
use esp.Base.{
  ℕ, get_elem?, ◌≡◌, ◌≢◌, refl, sym, ap, subst, ◌∙◌, ◌⊎◌, inl, inr, Bool, true, false, Option, some,
  List, [], ◌∷◌, arith,
}
use esp.Base.Int.{ℤ}
use esp.Base.Bytes.{Text, text}
use esp.Strings.{StringApi}
use esp.Ssh.{Libssh, Log, done}
use esp.Ssh.Conn.{Conn}
use esp.Ssh.Scp.{scp_write, scp_read}
use esp.Ssh.Transfer.{exec_cmd}
use esp.Control.{Mail, Control}
use esp.Control.Steps.{
  Branch, switch, command, upload, download, status, Place, reading, keeping, testing, calling,
  clearing, is_asked, after_test, clear,
}
use esp.Control.Steps.Results.{Leads}
use esp.Control.Tasks.{Tasks, noted}

-- The requests that only a handler posts which then waits for them.
unfoldable pub is_awaited : Branch → Bool
is_awaited switch = false
is_awaited command = false
is_awaited upload = true
is_awaited download = true
is_awaited status = true

-- The same request of a branch.
abbrev pub Same : Branch → Mail → Mail → Type 0
Same switch m n = m.switch_ssh ≡ n.switch_ssh
Same command m n = m.ssh_command ≡ n.ssh_command
Same upload m n = m.upload_command ≡ n.upload_command
Same download m n = m.scp_command ≡ n.scp_command
Same status m n = m.hp_1_status_req ≡ n.hp_1_status_req

abbrev pub Calls : Type 0
Calls = List (Branch × Control × Log × Log)

module _ (S : StringApi) (E : Libssh) (fuel : ℕ) where
  -- What the call of a branch runs, on the current server and the requests, from the log before it to the
  -- log after it, or for a status request to where its command ends.
  abbrev pub Ran : Branch → Control → Log → Log → Type 0
  Ran upload this before after =
      (c : Conn) × (get_elem? this.servers this.current ≡ some c)
      × (rc : ℤ) × (scp_write E S fuel c this.mail.upload_command before ≡ done rc after)
  Ran download this before after =
      (c : Conn) × (get_elem? this.servers this.current ≡ some c)
      × (rc : ℤ) × (scp_read E fuel c this.mail.scp_command before ≡ done rc after)
  Ran status this before after =
      (c : Conn) × (get_elem? this.servers this.current ≡ some c)
      × (output : Text) × (middle : Log) × (exec_cmd E S fuel c (text "echo alive") before
          ≡ done output middle)
  Ran b this before after = Unit

  -- The call of the branch ran with the request that was asked.
  abbrev pub WasCalled : Branch → Mail → Calls → Type 0
  WasCalled b asked [] = ⊥
  WasCalled b asked ((c, this, before, after) ∷ calls) =
      ((c ≡ b) × Same b this.mail asked × Ran b this before after) ⊎ WasCalled b asked calls

pub record HeldAt (S : StringApi) (E : Libssh) (fuel : ℕ) (b : Branch) (p : Place) (m : Mail)
    (waiting : Option Branch) (asked : Mail) (calls : Calls) : Type 0 where
  pub alone : is_asked b m ≡ true → waiting ≡ some b
  pub ready : p ≡ calling b → is_asked b m ≡ true
  pub called : p ≡ clearing b → (is_asked b m ≡ true) × WasCalled S E fuel b asked calls
  pub kept :
      waiting ≡ some b → ((is_asked b m ≡ true) × Same b m asked) ⊎ WasCalled S E fuel b asked calls

abbrev pub Held : StringApi → Libssh → ℕ → Branch → Tasks → Type 0
Held S E fuel b t = HeldAt S E fuel b t.place t.control.mail t.waiting t.asked t.calls

clear-other :
    (b c : Branch) (m : Mail)
    → (c ≡ b) ⊎ ((is_asked b (clear c m) ≡ is_asked b m) × Same b (clear c m) m)
unfolding clear is_asked
clear-other switch c m = ground arith
clear-other command c m = ground arith
clear-other upload c m = ground arith
clear-other download c m = ground arith
clear-other status c m = ground arith

pub Same-refl : (b : Branch) (m : Mail) → Same b m m
Same-refl switch m = refl
Same-refl command m = refl
Same-refl upload m = refl
Same-refl download m = refl
Same-refl status m = refl

clear-gone : (b : Branch) (m : Mail) → is_asked b (clear b m) ≡ false
unfolding clear is_asked
clear-gone switch m = refl
clear-gone command m = refl
clear-gone upload m = refl
clear-gone download m = refl
clear-gone status m = refl

Same-trans : (b : Branch) (l m n : Mail) → Same b l m → Same b m n → Same b l n
Same-trans switch l m n p q = cc
Same-trans command l m n p q = cc
Same-trans upload l m n p q = cc
Same-trans download l m n p q = cc
Same-trans status l m n p q = cc

module _ (S : StringApi) (E : Libssh) (fuel : ℕ) (b : Branch) {m : Mail} {waiting : Option Branch}
    {asked : Mail} {calls : Calls} where
  -- A step that does nothing to the requests.
  moved :
      {p : Place} (q : Place)
      → (q ≡ calling b → is_asked b m ≡ true)
      → q ≢ clearing b
      → HeldAt S E fuel b p m waiting asked calls
      → HeldAt S E fuel b q m waiting asked calls
  moved q r n h = record { alone = h.alone; ready = r; called = λ e. absurd (n e); kept = h.kept }

  tested :
      {p : Place} (c : Branch) (q : Place)
      → ((q ≡ calling c) × (is_asked c m ≡ true)) ⊎ (q ≡ after_test c)
      → HeldAt S E fuel b p m waiting asked calls
      → HeldAt S E fuel b q m waiting asked calls
  unfolding after_test
  tested c q l h = moved q (ground arith) (ground arith) h

  called_out :
      (c : Branch) (this : Control) (before after : Log)
      → m ≡ this.mail
      → Ran S E fuel c this before after
      → HeldAt S E fuel b (calling c) m waiting asked calls
      → HeldAt S E fuel b (clearing c) m waiting asked ((c, this, before, after) ∷ calls)
  called_out c this before after l r h = record {
    alone = h.alone;
    ready = λ e. ground arith;
    called = λ e.
        let asks = h.ready (ground arith) in
        (
          asks,
          elim (h.kept (h.alone asks)) [
            | inl q ↦ inl (
              ground arith,
              subst (λ n. Same b n asked) l q.1,
              subst (λ c. Ran S E fuel c this before after) (ground arith) r,
            )
            | inr w ↦ inr w
          ],
        );
    kept = λ w. elim (h.kept w) [ inl q ↦ inl q | inr w ↦ inr (inr w) ];
  }

  cleared :
      (c : Branch)
      → HeldAt S E fuel b (clearing c) m waiting asked calls
      → HeldAt S E fuel b reading (clear c m) waiting asked calls
  cleared c h = elim (clear-other b c m) [
    | inl same ↦
        let gone = subst (λ d. is_asked d (clear c m) ≡ false) same (clear-gone c m) in
        record {
          alone = λ q. ground (arith, gone, q);
          ready = λ q. ground arith;
          called = λ q. ground arith;
          kept = λ w. inr (h.called (ap clearing same)).1;
        }
    | inr (e, r) ↦ record {
      alone = λ q. h.alone (sym e ∙ q);
      ready = λ q. ground arith;
      called = λ q. ground arith;
      kept =
          λ w. elim (h.kept w) [ inl q ↦ inl (e ∙ q.0, Same-trans b _ _ _ r q.1) | inr w ↦ inr w ];
    }
  ]

  pub stepped-HeldAt :
      (p q : Place) (this : Control) (n : Mail) (before after : Log)
      → m ≡ this.mail
      → ((c : Branch) → p ≡ calling c → Ran S E fuel c this before after)
      → Leads p m q n
      → HeldAt S E fuel b p m waiting asked calls
      → HeldAt S E fuel b q n waiting asked (noted p this before after calls)
  unfolding noted
  stepped-HeldAt reading q this n before after l r (e, f) h =
      subst (λ n. HeldAt S E fuel b q n waiting asked calls) (sym f)
        (moved q (ground arith) (ground arith) h)
  stepped-HeldAt (testing c) q this n before after l r (e, f) h =
      subst (λ n. HeldAt S E fuel b q n waiting asked calls) (sym f) (tested c q e h)
  stepped-HeldAt (calling c) q this n before after l r (e, f) h =
      let seen = (c, this, before, after) ∷ calls in
      subst (λ n. HeldAt S E fuel b q n waiting asked seen) (sym f)
        (subst (λ q. HeldAt S E fuel b q m waiting asked seen) (sym e)
          (called_out c this before after l (r c refl) h))
  stepped-HeldAt (clearing c) q this n before after l r (e, f) h =
      subst (λ n. HeldAt S E fuel b q n waiting asked calls) (sym f)
        (subst (λ q. HeldAt S E fuel b q (clear c m) waiting asked calls) (sym e) (cleared c h))
  stepped-HeldAt keeping q this n before after l r (e, f) h =
      subst (λ n. HeldAt S E fuel b q n waiting asked calls) (sym f)
        (moved q (ground arith) (ground arith) h)
