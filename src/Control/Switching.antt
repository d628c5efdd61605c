-- ===== src/Control/Switching.antt =====
-- A switch to the second server, by `switchSsh1` of src/main.cpp and the next turn of the loop.
use esp.Base.{
  ℕ, zero, suc, ◌≡◌, refl, ap, ◌∙◌, Bool, true, false, none, some, List, [], ◌∷◌, get_elem?, set,
  arith,
}
use esp.Base.Bytes.{text}
use esp.Base.Int.{pos, to_uint32}
use esp.Strings.{StringApi}
use esp.Clients.{Registry}
use esp.Ssh.{Libssh, Log, M, Outcome, done, undefined, out_of_fuel, continue}
use esp.Ssh.Login.Ends.{Ends}
use esp.Ssh.Conn.{Conn, at, brutal_exception}
use esp.Control.{Control, Mail, is_pending, read_first, do_switch, choose, turn}
use esp.Control.Handlers.{switch_ssh1}
use esp.Control.Handlers.Terminal.{read_first-Ends}

-- The current server, taken for connected, with pointers that were made.
pub record HasServer (this : Control) (c : Conn) : Type 0 where
  pub is_server : get_elem? this.servers this.current ≡ some c
  pub is_up : c.conn ≡ true
  pub channel : ℕ
  pub has_channel : c.channel ≡ at channel
  pub session : ℕ
  pub has_session : c.session ≡ at session

pub with_mail-HasServer :
    {this : Control} {c : Conn} (mail : Mail)
    → HasServer this c
    → HasServer (record this { mail = mail }) c
with_mail-HasServer mail h = record {
  is_server = h.is_server;
  is_up = h.is_up;
  channel = h.channel;
  has_channel = h.has_channel;
  session = h.session;
  has_session = h.has_session;
}

brutal_exception-Ends :
    (E : Libssh) (c : Conn) (p s : ℕ) (log : Log)
    → c.channel ≡ at p
    → c.session ≡ at s
    → Ends (brutal_exception E c log)
unfolding brutal_exception
brutal_exception-Ends E c p s log e e' = ground arith

pub index_one : to_uint32 (pos 1) ≡ 1
unfolding to_uint32
index_one = refl

-- An index past the end stays there.
get_elem?-set_past :
    (cs : List Conn) (i j : ℕ) (c : Conn) → get_elem? cs i ≡ none → get_elem? (set cs j c) i ≡ none
get_elem?-set_past [] i j c e = refl
get_elem?-set_past (d ∷ cs) zero j c e = ground arith
get_elem?-set_past (d ∷ cs) (suc i) zero c e = e
get_elem?-set_past (d ∷ cs) (suc i) (suc j) c e = get_elem?-set_past cs i j c e

Ends-undefined :
    {A B : Type 0} (m : Outcome A) (f : A → M B)
    → Ends m
    → ((a : A) (log : Log) → f a log ≡ undefined)
    → continue m f ≡ undefined
Ends-undefined (done a log) f e h = h a log
Ends-undefined undefined f e h = refl
Ends-undefined out_of_fuel f e h = absurd e

module _ (S : StringApi) (E : Libssh) (fuel : ℕ) where
  do_switch_past :
      (this : Control) (c : Conn) (i : ℕ) (log : Log)
      → HasServer this c
      → to_uint32 (S.to_int this.mail.switch_ssh) ≡ i
      → get_elem? this.servers i ≡ none
      → do_switch S E fuel this c log ≡ undefined
  unfolding do_switch
  do_switch_past this c i log h e past =
      Ends-undefined (brutal_exception E c log) _
        (brutal_exception-Ends E c h.channel h.session log h.has_channel h.has_session)
        (λ closed after.
          rw
            (
              e,
              get_elem?-set_past this.servers i this.current (record closed { conn = false }) past,
            )
            refl)

  -- A pending switch comes first.
  pub switches :
      (this : Control) (c : Conn) (log : Log)
      → c.conn ≡ true
      → is_pending this.mail.switch_ssh ≡ true
      → choose S E fuel this c log ≡ do_switch S E fuel this c log
  unfolding choose
  switches this c log up asked = ground arith

  -- When a visitor asks for the second server, and the list of hosts has none, the next turn of the control
  -- loop is undefined, if the current server is taken for connected and its channel and its session were
  -- made: it connects to a server that is not there.
  pub switch_past_end :
      (clients : Registry) (got : Bool) (this : Control) (c : Conn) (log : Log)
      → HasServer this c
      → S.to_int (text "1") ≡ pos 1
      → get_elem? this.servers 1 ≡ none
      → turn S E fuel clients got (record this { mail = (switch_ssh1 this.mail).0 }) log ≡ undefined
  unfolding turn switch_ssh1
  switch_past_end clients got this c log h one past =
      let posted = record this { mail = (switch_ssh1 this.mail).0 } in
      rw (h.is_server, turn)
        (Ends-undefined (read_first S E fuel clients got c log) _
          (read_first-Ends S E fuel clients got c h.channel h.session log h.has_channel
            h.has_session)
          (λ sent after.
            switches posted c after h.is_up refl
            ∙ do_switch_past posted c 1 after (with_mail-HasServer _ h)
                (ap to_uint32 one ∙ index_one) past))
