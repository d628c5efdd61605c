-- ===== src/Control/Switched.antt =====
-- A switch to the second server that is there.
use esp.Base.{
  ℕ, zero, suc, ◌≡◌, ◌≢◌, ◌≤◌, refl, ap, sym, subst, ◌∙◌, Bool, true, false, some, List, [], ◌∷◌,
  get_elem?, set, length, length-set, get_elem?-set_self, arith,
}
use esp.Base.Bytes.{text}
use esp.Base.Int.{pos, to_uint32}
use esp.Strings.{StringApi}
use esp.Clients.{Registry}
use esp.Ssh.{Libssh, Log, M, Outcome, done, undefined, out_of_fuel, continue, pure, ◌>>=◌}
use esp.Ssh.Returns.{Ensures}
use esp.Ssh.Login.Ends.{Ends, IsPatient}
use esp.Ssh.Conn.Ownership.{Owns, IsIdle, held, GivenBack, brutal_exception-Owns}
use esp.Ssh.Conn.Delivery.{Delivered, connect-Delivered}
use esp.Control.Calm.{Calm}
use esp.Control.Runs.{read_first-Calm}
use esp.Control.Servers.{lt_of_get}
use esp.Ssh.Conn.{Conn, null, brutal_exception, connect}
use esp.Control.{Control, server, with_server, connect_current, read_first, do_switch, turn}
use esp.Control.Handlers.{switch_ssh1}
use esp.Control.Handlers.Terminal.{read_first-Ends}
use esp.Control.Switching.{HasServer, with_mail-HasServer, index_one, switches}

-- The old server holds nothing and is taken for disconnected, and the second server is the current one. It
-- holds all that is open, and a session and a channel if it is taken for connected.
abbrev pub Switched : ℕ → ℕ → Outcome Control → Type 0
Switched old k (done left log) =
    (left.current ≡ 1)
    × (left.mail.switch_ssh ≡ [])
    × ((before : Conn) × (get_elem? left.servers old ≡ some before)
        × IsIdle before
        × (before.conn ≡ false))
    × ((now : Conn) × (get_elem? left.servers 1 ≡ some now)
        × Owns k now log
        × (now.conn ≡ true → (held now.session ≡ 1) × (held now.channel ≡ 1)))
Switched old k undefined = ⊥
Switched old k out_of_fuel = ⊥

get_elem?-set_other :
    (cs : List Conn) (i j : ℕ) (c : Conn) → i ≢ j → get_elem? (set cs j c) i ≡ get_elem? cs i
get_elem?-set_other [] i j c n = refl
get_elem?-set_other (d ∷ cs) zero zero c n = absurd (n refl)
get_elem?-set_other (d ∷ cs) zero (suc j) c n = refl
get_elem?-set_other (d ∷ cs) (suc i) zero c n = refl
get_elem?-set_other (d ∷ cs) (suc i) (suc j) c n = get_elem?-set_other cs i j c (λ e. n (ap suc e))

handed :
    (closed target : Conn) (log : Log) (k : ℕ)
    → Owns k closed log
    → closed.session ≡ null
    → closed.channel ≡ null
    → IsIdle target
    → Owns k target log
handed closed target log k w e e' i = ground arith

module _ (S : StringApi) (E : Libssh) (n : ℕ) (patient : IsPatient E n) (k : ℕ) (this : Control)
    (c target : Conn) (h : HasServer this c) (other : this.current ≢ 1)
    (is_target : get_elem? this.servers 1 ≡ some target) (idle : IsIdle target)
    (long : 3 ≤ length target.password) where
  connected_to :
      (closed : Conn) (m : Outcome (Conn × Bool))
      → IsIdle closed
      → Delivered k m
      → let left = with_server this (record closed { conn = false }) in
        Switched this.current k (
          continue
            (continue m λ (c', connected).
              pure (with_server (record left { current = 1 }) (record c' { conn = connected })))
            (λ switched.
              pure (record switched { mail = record switched.mail { switch_ssh = [] } })))
  connected_to closed (done (c', connected) log) i d = (
    refl,
    refl,
    (
      record closed { conn = false },
      get_elem?-set_other (set this.servers this.current (record closed { conn = false }))
            this.current 1 (record c' { conn = connected }) other
          ∙ get_elem?-set_self this.servers this.current (record closed { conn = false })
              (lt_of_get this.servers this.current c h.is_server),
      record { no_session = i.no_session; no_channel = i.no_channel },
      refl,
    ),
    (
      record c' { conn = connected },
      get_elem?-set_self (set this.servers this.current (record closed { conn = false })) 1
          (record c' { conn = connected })
          (let there = lt_of_get this.servers 1 target is_target in
            omega
              (arith, length-set {0} this.servers this.current (record closed { conn = false }))),
      record {
        owns_session = d.0.owns_session;
        owns_channel = d.0.owns_channel;
        owns_start = d.0.owns_start;
      },
      λ e. ((d.1 e).1, (d.1 e).2),
    ),
  )
  connected_to closed undefined i d = d
  connected_to closed out_of_fuel i d = d

  do_switch-Switched :
      (log : Log)
      → Owns k c log
      → S.to_int this.mail.switch_ssh ≡ pos 1
      → Switched this.current k (do_switch S E (suc n) this c log)
  unfolding do_switch connect_current
  do_switch-Switched log w one = after_closing (brutal_exception E c log) (
      brutal_exception-Owns E k c log
        (record {
          has_session = λ e. ground (arith, h.has_session);
          has_channel = λ e. ground (arith, h.has_channel);
        })
        w)
    where
      after_closing :
          (m : Outcome Conn)
          → GivenBack k c m
          → Switched this.current k (
              continue m λ closed.
                let left = with_server this (record closed { conn = false }) in
                let index = to_uint32 (S.to_int this.mail.switch_ssh) in
                server left.servers index >>= λ target.
                connect_current S E (suc n) (record left { current = index }) target >>= λ switched.
                pure (record switched { mail = record switched.mail { switch_ssh = [] } }))
      after_closing (done closed log1) (w1, e, e', same, up) =
          rw
            (
              ap to_uint32 one ∙ index_one,
              get_elem?-set_other this.servers 1 this.current (record closed { conn = false })
                  (λ q. other (sym q)),
              is_target,
            )
            (connected_to closed (connect E (suc n) target log1)
              (record { no_session = ground (arith, e); no_channel = ground (arith, e') })
              (connect-Delivered E n k target log1 patient long idle
                (handed closed target log1 k w1 e e' idle)))
      after_closing undefined g = g
      after_closing out_of_fuel g = g

module _ (S : StringApi) (E : Libssh) (n : ℕ) (patient : IsPatient E n) (clients : Registry)
    (got : Bool) (k : ℕ) (this : Control) (c target : Conn) (log : Log) where
  -- When a visitor asks for the second server, the next turn of the control loop ends, whatever the library
  -- answers to the calls that connect, and the second server is the current one. The server that was left
  -- holds nothing and is taken for disconnected; the second server holds all that is open but for leaked
  -- channels, and if it is taken for connected, a session and a channel. Here the server that is left is
  -- another one, is taken for connected, its channel and its session were made, and it holds all that is
  -- open before; the second server exists, holds nothing and has a password of three bytes or more; every
  -- server offers passwords, and from some call on none is denied or put off. Fuel of one more than the
  -- number of that call is enough.
  pub visitor_switches :
      HasServer this c
      → this.current ≢ 1
      → get_elem? this.servers 1 ≡ some target
      → IsIdle target
      → 3 ≤ length target.password
      → Owns k c log
      → S.to_int (text "1") ≡ pos 1
      → Switched this.current k
          (turn S E (suc n) clients got (record this { mail = (switch_ssh1 this.mail).0 }) log)
  unfolding turn switch_ssh1
  visitor_switches h other is_target idle long w one =
      let posted = record this { mail = (switch_ssh1 this.mail).0 } in
      let server : HasServer posted c = with_mail-HasServer _ h in
      rw (h.is_server, turn)
        (after_reading (read_first S E (suc n) clients got c log) _
          (read_first-Ends S E (suc n) clients got c h.channel h.session log h.has_channel
            h.has_session)
          (read_first-Calm S E (suc n) clients got c log)
          (λ sent after o.
            subst (Switched this.current k) (sym (switches S E (suc n) posted c after h.is_up refl))
              (do_switch-Switched S E n patient k posted c target server other is_target idle long
                after (let v = w in omega arith) one)))
    where
      after_reading :
          {A : Type 0} (m : Outcome A) (f : A → M Control)
          → Ends m
          → Ensures (Calm log) m
          → ((a : A) (after : Log) → Calm log a after → Switched this.current k (f a after))
          → Switched this.current k (continue m f)
      after_reading (done a after) f e o g = g a after o
      after_reading undefined f e o g = e
      after_reading out_of_fuel f e o g = e
