-- ===== src/Ssh/Transfer/Delivery.antt =====
-- When a single command comes to an end.
use esp.Base.{
  ℕ, zero, suc, ◌+◌, ◌≡◌, ◌≢◌, ◌≤◌, ◌<◌, refl, inl, inr, Bool, true, false, Bool-cases, Option,
  none, some, [], ◌∷◌, length, if◌then◌else◌, arith,
}
use esp.Base.Bytes.{Text, text, c_str}
use esp.Base.Int.{int_eq}
use esp.Strings.{StringApi}
use esp.Ssh.{
  create, Libssh, Log, M, Outcome, done, undefined, out_of_fuel, continue, called, created, pure,
  ◌>>=◌, ssh_channel_new, ssh_channel_open_session, ssh_channel_request_exec, millis,
  ssh_channel_is_eof, ssh_channel_is_open,
}
use esp.Ssh.Returns.{Grows}
use esp.Ssh.Login.Ends.{Ends, Ends-continue}
use esp.Ssh.Conn.{Pointer, uninitialised, null, at, Conn, load, ssh_ok}
use esp.Ssh.Transfer.{
  LoopEnd, leaves, fails, gather, wants_more, after_gather, exec_loop, finish_exec, exec_on,
  exec_cmd,
}
use esp.Ssh.Transfer.Channels.{GivesBack, exec_cmd-GivesBack}

-- From the call with the number `n` on every channel has come to its end of file.
pub record IsClosing (E : Libssh) (n : ℕ) : Type 0 where
  pub at_eof : (log : Log) (c : ℕ) → n ≤ length log → E.holds log (ssh_channel_is_eof c) ≡ true

-- More is wanted only before the call with the number `n`.
abbrev Wants : ℕ → Log → Outcome Bool → Type 0
Wants n before (done true log) = (length before < n) × (length before < length log)
Wants n before (done false log) = Unit
Wants n before undefined = ⊥
Wants n before out_of_fuel = ⊥

module _ (E : Libssh) where
  gather-Grows :
      (c : ℕ) (output : Text) (start : ℕ) (log : Log) → Grows log (gather E c output start log)
  unfolding gather
  gather-Grows c output start log = ground arith

  finish_exec-Ends : (c : ℕ) (output : Text) (log : Log) → Ends (finish_exec E c output log)
  unfolding finish_exec gather
  finish_exec-Ends c output log = ground arith

  after_gather-Ends :
      (next : Text → ℕ → M LoopEnd) (g : Option (Text × ℕ)) (log : Log)
      → ((output : Text) (start : ℕ) → Ends (next output start (called millis ∷ log)))
      → Ends (after_gather E next g log)
  unfolding after_gather
  after_gather-Ends next none log h = tt
  after_gather-Ends next (some (output, start)) log h = ground (arith, h output start)

  from_gather :
      (next : Text → ℕ → M LoopEnd) (before : Log) (m : Outcome (Option (Text × ℕ)))
      → Grows before m
      → ((output : Text) (start : ℕ) (log : Log)
          → length before ≤ length log
          → Ends (next output start log))
      → Ends (continue m (after_gather E next))
  from_gather next before (done g log) b h =
      after_gather-Ends next g log
        (λ output start. h output start (called millis ∷ log) (omega arith))
  from_gather next before undefined b h = b
  from_gather next before out_of_fuel b h = b

  module _ (n : ℕ) (closing : IsClosing E n) where
    wants_more-Wants : (c : ℕ) (log : Log) → Wants n log (wants_more E c log)
    unfolding wants_more
    wants_more-Wants c log = ground (arith, closing.at_eof (called (ssh_channel_is_open c) ∷ log) c)

    next_turn :
        (next : Text → ℕ → M LoopEnd) (fuel c : ℕ) (output : Text) (start : ℕ) (before : Log)
        (m : Outcome Bool)
        → Wants n before m
        → n ≤ length before + fuel
        → ((output : Text) (start : ℕ) (log : Log)
            → 0 < fuel
            → n + 1 ≤ length log + fuel
            → Ends (next output start log))
        → Ends (
            continue m λ more.
              if more
              then gather E c output start >>= after_gather E next
              else pure (leaves output))
    next_turn next fuel c output start before (done true log) w b h =
        from_gather next log (gather E c output start log) (gather-Grows c output start log)
          (λ output start log' g. h output start log' (omega arith) (omega arith))
    next_turn next fuel c output start before (done false log) w b h = tt
    next_turn next fuel c output start before undefined w b h = w
    next_turn next fuel c output start before out_of_fuel w b h = w

    exec_loop-Ends :
        (fuel c : ℕ) (output : Text) (start : ℕ) (log : Log)
        → 0 < fuel
        → n + 1 ≤ length log + fuel
        → Ends (exec_loop E fuel c output start log)
    unfolding exec_loop
    exec_loop-Ends zero c output start log p b = absurd (omega arith)
    exec_loop-Ends (suc fuel) c output start log p b =
        next_turn (exec_loop E fuel c) fuel c output start log (wants_more E c log)
          (wants_more-Wants c log) (omega arith) (exec_loop-Ends fuel c)

  module _ (fuel : ℕ)
      (ends : (c : ℕ) (log : Log)
        → Ends (exec_loop E fuel c [] (E.now log) (called millis ∷ log))) where
    after_loop :
        (c : ℕ) (ended : LoopEnd) (log : Log)
        → Ends (
            (elim ended as (λ e. M Text) [
              | fails ↦ pure (text "-1")
              | leaves output ↦ finish_exec E c output
            ])
              log)
    after_loop c fails log = tt
    after_loop c (leaves output) log = finish_exec-Ends c output log

    exec_on-Ends :
        (S : StringApi) (command : Text) (c : ℕ) (log : Log) → Ends (exec_on E S fuel command c log)
    unfolding exec_on
    exec_on-Ends S command c log =
        let opened_log = called (ssh_channel_open_session c) ∷ log in
        let request = ssh_channel_request_exec c (c_str command) in
        let start = E.now (called request ∷ opened_log) in
        let ready = called millis ∷ called request ∷ opened_log in
        elim (Bool-cases (int_eq (E.returns log (ssh_channel_open_session c)) ssh_ok)) [
          | inr e ↦ rw (e, exec_on) tt
          | inl e ↦ elim (Bool-cases (int_eq (E.returns opened_log request) ssh_ok)) [
            | inr e' ↦ rw (e, exec_on, e') tt
            | inl e' ↦
                rw (e, exec_on, e')
                  (Ends-continue (exec_loop E fuel c [] start ready) _
                    (ends c (called request ∷ opened_log)) (after_loop c))
          ]
        ]

    exec_from-Ends :
        (S : StringApi) (command : Text) (s : ℕ) (log : Log)
        → Ends (
            continue (create E (ssh_channel_new s) log) λ made. elim made as (λ m. M Text) [
              | none ↦ pure (text "-1")
              | some c ↦ exec_on E S fuel command c
            ])
    exec_from-Ends S command s log = elim (Bool-cases (E.allocates log (ssh_channel_new s))) [
      | inl e ↦ rw e (exec_on-Ends S command (suc (length log)) (created (ssh_channel_new s) ∷ log))
      | inr e ↦ rw e tt
    ]

    from_pointer-Ends :
        (S : StringApi) (command : Text) (p : Pointer) (log : Log)
        → p ≢ uninitialised
        → Ends (
            continue (load p log) λ s. create E (ssh_channel_new s) >>= λ made.
            elim made as (λ m. M Text) [
              | none ↦ pure (text "-1")
              | some c ↦ exec_on E S fuel command c
            ])
    from_pointer-Ends S command uninitialised log h = absurd (h refl)
    from_pointer-Ends S command null log h = exec_from-Ends S command 0 log
    from_pointer-Ends S command (at s) log h = exec_from-Ends S command s log

    pub exec_cmd-Ends :
        (S : StringApi) (c : Conn) (command : Text) (log : Log)
        → c.session ≢ uninitialised
        → Ends (exec_cmd E S fuel c command log)
    unfolding exec_cmd
    exec_cmd-Ends S c command log h = from_pointer-Ends S command c.session log h

-- A result, with the channel given back, or with "-1" and a read that failed.
abbrev pub Answered : Libssh → Log → Outcome Text → Type 0
Answered E before (done output log) = GivesBack E before (done output log)
Answered E before undefined = ⊥
Answered E before out_of_fuel = ⊥

both :
    (E : Libssh) (before : Log) (m : Outcome Text)
    → Ends m
    → GivesBack E before m
    → Answered E before m
both E before (done r log) e g = g
both E before undefined e g = e
both E before out_of_fuel e g = e

-- On a connection whose session pointer has a value, a command ends if from some call on every channel
-- is at its end of file: fuel of one more than the number of that call is enough. It then has
-- given back the channel that it made, or has returned "-1" and keeps it open, and has opened
-- nothing else. The second happens only with a library that answers some read of a channel by SSH_ERROR.
pub exec_cmd-Answered :
    (E : Libssh) (n : ℕ) (S : StringApi) (c : Conn) (command : Text) (log : Log)
    → IsClosing E n
    → c.session ≢ uninitialised
    → Answered E log (exec_cmd E S (suc n) c command log)
exec_cmd-Answered E n S c command log closing h =
    both E log (exec_cmd E S (suc n) c command log)
      (exec_cmd-Ends E (suc n)
        (λ d before.
          exec_loop-Ends E n closing (suc n) d [] (E.now before) (called millis ∷ before)
            (omega arith) (omega arith))
        S c command log h)
      (exec_cmd-GivesBack E S (suc n) c command log h)
