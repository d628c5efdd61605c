-- ===== src/Ssh/Transfer/Channels.antt =====
-- The channel of a single command is given back.
use esp.Base.{
  ltb, ℕ, zero, suc, ◌≡◌, ◌∙◌, ◌≢◌, refl, ◌⊎◌, inl, inr, Bool, true, false, Bool-cases, Option,
  none, some, [], ◌∷◌, length, if◌then◌else◌, arith,
}
use esp.Base.Bytes.{Text, text, c_str}
use esp.Base.Int.{int_eq, int_eq_sound, is_positive}
use esp.Ssh.Returns.{Ensures, Ensures-continue, Ensures-always}
use esp.Strings.{StringApi}
use esp.Ssh.{
  create, Libssh, Log, M, Outcome, done, undefined, out_of_fuel, continue, called, created, pure,
  ◌>>=◌, ssh_channel_new, ssh_channel_open_session, ssh_channel_request_exec,
  ssh_channel_read_nonblocking, ssh_channel_close, ssh_channel_free, tell, ◌>>◌, millis,
}
use esp.Ssh.Ledger.{ledger, Opens}
use esp.Ssh.Conn.{
  Pointer, uninitialised, null, at, Conn, load, ssh_ok, ssh_error, ssh_single_exec_timeout,
}
use esp.Ssh.Transfer.{
  sub32, LoopEnd, leaves, fails, gather, wants_more, after_gather, exec_loop, finish_exec, exec_on,
  exec_cmd,
}

-- A computation that creates and frees nothing.
abbrev pub Same : {A : Type 0} → Log → Outcome A → Type 0
Same before (done a log) = ledger log ≡ ledger before
Same before undefined = ⊥
Same before out_of_fuel = Unit

Same-continue :
    {A B : Type 0} (before : Log) (m : Outcome A) (f : A → M B)
    → Same before m
    → ((a : A) (log : Log) → ledger log ≡ ledger before → Same before (f a log))
    → Same before (continue m f)
Same-continue before (done a log) f s h = h a log s
Same-continue before undefined f s h = absurd s
Same-continue before out_of_fuel f s h = tt

Same-from :
    {A : Type 0} (before log : Log) (m : Outcome A)
    → ledger log ≡ ledger before
    → Same log m
    → Same before m
Same-from before log (done a after) e s = s ∙ e
Same-from before log undefined e s = s
Same-from before log out_of_fuel e s = tt

module _ (E : Libssh) where
  gather-Same :
      (c : ℕ) (output : Text) (start : ℕ) (log : Log) → Same log (gather E c output start log)
  unfolding gather
  gather-Same c output start log = ground arith

  wants_more-Same : (c : ℕ) (log : Log) → Same log (wants_more E c log)
  unfolding wants_more
  wants_more-Same c log = ground arith

  after_gather-Same :
      (next : Text → ℕ → M LoopEnd) (g : Option (Text × ℕ)) (log : Log)
      → ((output : Text) (start : ℕ) (log : Log) → Same log (next output start log))
      → Same log (after_gather E next g log)
  unfolding after_gather
  after_gather-Same next none log h = refl
  after_gather-Same next (some (output, start)) log h =
      ground (arith, h output start (called millis ∷ log))

  turn-Same :
      (next : Text → ℕ → M LoopEnd) (c : ℕ) (output : Text) (start : ℕ) (more : Bool) (log : Log)
      → ((output : Text) (start : ℕ) (log : Log) → Same log (next output start log))
      → Same log (
          (if more then gather E c output start >>= after_gather E next else pure (leaves output))
            log)
  turn-Same next c output start false log h = refl
  turn-Same next c output start true log h =
      Same-continue log (gather E c output start log) _ (gather-Same c output start log)
        (λ g after e. Same-from log after _ e (after_gather-Same next g after h))

  exec_loop-Same :
      (fuel c : ℕ) (output : Text) (start : ℕ) (log : Log)
      → Same log (exec_loop E fuel c output start log)
  unfolding exec_loop
  exec_loop-Same zero c output start log = tt
  exec_loop-Same (suc fuel) c output start log =
      Same-continue log (wants_more E c log) _ (wants_more-Same c log) (λ more after e.
        Same-from log after _ e
          (turn-Same (exec_loop E fuel c) c output start more after (exec_loop-Same fuel c)))

-- The library answers some read of a channel by SSH_ERROR.
abbrev pub ReadFails : Libssh → Type 0
ReadFails E =
    (log : Log) × (c : ℕ) × (n : ℕ) × (E.returns log (ssh_channel_read_nonblocking c n) ≡ ssh_error)

-- A command that ends has given its channel back, or has returned "-1" after a read that failed.
abbrev pub GivesBack : Libssh → Log → Outcome Text → Type 0
GivesBack E before (done output after) =
    Opens 0 0 0 before after ⊎ (Opens 0 1 0 before after × (output ≡ text "-1") × ReadFails E)
GivesBack E before undefined = ⊥
GivesBack E before out_of_fuel = Unit

module _ (E : Libssh) where
  gather-Blames :
      (c : ℕ) (output : Text) (start : ℕ) (log : Log)
      → Ensures (λ g after. g ≡ none → ReadFails E) (gather E c output start log)
  unfolding gather
  gather-Blames c output start log =
      let call = ssh_channel_read_nonblocking c 256 in
      elim (Bool-cases (is_positive (E.returns log call))) [
        | inl e ↦ rw (e, gather) (λ q. cc)
        | inr e ↦ elim (Bool-cases (int_eq (E.returns log call) ssh_error)) [
          | inl e' ↦ rw (e, gather, e') (λ q. (log, c, 256, int_eq_sound _ _ e'))
          | inr e' ↦ rw (e, gather, e') (λ q. cc)
        ]
      ]

  after_gather-Blames :
      (next : Text → ℕ → M LoopEnd) (g : Option (Text × ℕ)) (log : Log)
      → (g ≡ none → ReadFails E)
      → ((output : Text) (start : ℕ) (log : Log)
          → Ensures (λ ended after. ended ≡ fails → ReadFails E) (next output start log))
      → Ensures (λ ended after. ended ≡ fails → ReadFails E) (after_gather E next g log)
  unfolding after_gather
  after_gather-Blames next none log h k = λ e. h refl
  after_gather-Blames next (some (output, start)) log h k =
      elim (Bool-cases (ltb ssh_single_exec_timeout (sub32 (E.now log) start))) [
        | inl e ↦ rw (e, after_gather) (λ q. cc)
        | inr e ↦ rw (e, after_gather) (k output start (called millis ∷ log))
      ]

  turn-Blames :
      (next : Text → ℕ → M LoopEnd) (c : ℕ) (output : Text) (start : ℕ) (more : Bool) (log : Log)
      → ((output : Text) (start : ℕ) (log : Log)
          → Ensures (λ ended after. ended ≡ fails → ReadFails E) (next output start log))
      → Ensures
          (λ ended after. ended ≡ fails → ReadFails E)
          ((if more then gather E c output start >>= after_gather E next else pure (leaves output))
            log)
  turn-Blames next c output start false log k = λ e. cc
  turn-Blames next c output start true log k =
      Ensures-continue (λ g after. g ≡ none → ReadFails E) _ (gather E c output start log) _
        (gather-Blames c output start log) (λ g after h. after_gather-Blames next g after h k)

  exec_loop-Blames :
      (fuel c : ℕ) (output : Text) (start : ℕ) (log : Log)
      → Ensures (λ ended after. ended ≡ fails → ReadFails E) (exec_loop E fuel c output start log)
  unfolding exec_loop
  exec_loop-Blames zero c output start log = tt
  exec_loop-Blames (suc fuel) c output start log =
      Ensures-continue (λ more after. Unit) _ (wants_more E c log) _
        (Ensures-always _ (wants_more E c log) (λ more after. tt))
        (λ more after u.
          turn-Blames (exec_loop E fuel c) c output start more after (exec_loop-Blames fuel c))

module _ (E : Libssh) where
  finish_exec-GivesBack :
      (c : ℕ) (output : Text) (before log : Log)
      → Opens 0 1 0 before log
      → GivesBack E before (finish_exec E c output log)
  unfolding finish_exec
  finish_exec-GivesBack c output before log o =
      gathered (gather E c output 0 log) (gather-Same E c output 0 log)
        (gather-Blames E c output 0 log)
    where
      gathered :
          (m : Outcome (Option (Text × ℕ)))
          → Same log m
          → Ensures (λ g after. g ≡ none → ReadFails E) m
          → GivesBack E before (
              continue m (elim [
                | none ↦ pure (text "-1")
                | some (all, start) ↦
                    tell E (ssh_channel_close c) >> tell E (ssh_channel_free c) >> pure all
              ]))
      gathered (done none after) s h = inr (ground arith, refl, h refl)
      gathered (done (some (all, start)) after) s h = inl (ground arith)
      gathered undefined s h = s
      gathered out_of_fuel s h = tt

  after_loop :
      (c : ℕ) (before log : Log) (m : Outcome LoopEnd)
      → Opens 0 1 0 before log
      → Same log m
      → Ensures (λ ended after. ended ≡ fails → ReadFails E) m
      → GivesBack E before (
          continue m λ ended. elim ended as (λ e. M Text) [
            | fails ↦ pure (text "-1")
            | leaves output ↦ finish_exec E c output
          ])
  after_loop c before log (done fails after) o s h = inr (ground arith, refl, h refl)
  after_loop c before log (done (leaves output) after) o s h =
      finish_exec-GivesBack c output before after (ground arith)
  after_loop c before log undefined o s h = s
  after_loop c before log out_of_fuel o s h = tt

  exec_on-GivesBack :
      (S : StringApi) (fuel : ℕ) (command : Text) (c : ℕ) (before log : Log)
      → Opens 0 1 0 before log
      → GivesBack E before (exec_on E S fuel command c log)
  unfolding exec_on
  exec_on-GivesBack S fuel command c before log o =
      let opened_log = called (ssh_channel_open_session c) ∷ log in
      let request = ssh_channel_request_exec c (c_str command) in
      let start = E.now (called request ∷ opened_log) in
      let ready = called millis ∷ called request ∷ opened_log in
      elim (Bool-cases (int_eq (E.returns log (ssh_channel_open_session c)) ssh_ok)) [
        | inr e ↦ rw (e, exec_on) (inl (omega arith))
        | inl e ↦ elim (Bool-cases (int_eq (E.returns opened_log request) ssh_ok)) [
          | inr e' ↦ rw (e, exec_on, e') (inl (omega arith))
          | inl e' ↦
              rw (e, exec_on, e')
                (after_loop c before ready (exec_loop E fuel c [] start ready) (omega arith)
                  (exec_loop-Same E fuel c [] start ready)
                  (exec_loop-Blames E fuel c [] start ready))
        ]
      ]

  exec_from :
      (S : StringApi) (fuel : ℕ) (command : Text) (s : ℕ) (log : Log)
      → GivesBack E log (
          continue (create E (ssh_channel_new s) log) λ made. elim made as (λ m. M Text) [
            | none ↦ pure (text "-1")
            | some c ↦ exec_on E S fuel command c
          ])
  exec_from S fuel command s log = elim (Bool-cases (E.allocates log (ssh_channel_new s))) [
    | inl e ↦ rw e (
        exec_on-GivesBack S fuel command (suc (length log)) log (created (ssh_channel_new s) ∷ log)
          (omega arith))
    | inr e ↦ rw e (inl (omega arith))
  ]

  from_pointer :
      (S : StringApi) (fuel : ℕ) (command : Text) (p : Pointer) (log : Log)
      → p ≢ uninitialised
      → GivesBack E log (
          continue (load p log) λ s. create E (ssh_channel_new s) >>= λ made.
          elim made as (λ m. M Text) [
            | none ↦ pure (text "-1")
            | some c ↦ exec_on E S fuel command c
          ])
  from_pointer S fuel command uninitialised log h = absurd (h refl)
  from_pointer S fuel command null log h = exec_from S fuel command 0 log
  from_pointer S fuel command (at s) log h = exec_from S fuel command s log

  -- On a connection whose session pointer has a value, a command that ends gives back the channel that it
  -- made, or returns "-1" and keeps it open, and then some read of a channel is answered by SSH_ERROR. Nothing else is opened, and nothing is undefined.
  pub exec_cmd-GivesBack :
      (S : StringApi) (fuel : ℕ) (c : Conn) (command : Text) (log : Log)
      → c.session ≢ uninitialised
      → GivesBack E log (exec_cmd E S fuel c command log)
  unfolding exec_cmd
  exec_cmd-GivesBack S fuel c command log h = from_pointer S fuel command c.session log h
