-- ===== src/Ssh/Login/Ends.antt =====
-- When the log-in and `connect` come to an end.
use esp.Base.{
  ℕ, zero, suc, ◌+◌, ◌≡◌, ◌≤◌, ◌<◌, ◌⊎◌, inl, inr, true, Bool-cases, Option, none, some, ◌∷◌,
  length, arith,
}
use esp.Base.Bytes.{Text, c_str}
use esp.Base.Int.{ℤ, pos, int_eq}
use esp.Ssh.{
  Libssh, Log, M, Outcome, done, undefined, out_of_fuel, continue, called, ssh_userauth_none,
  ssh_userauth_list, ssh_userauth_password, ssh_userauth_gssapi, ssh_connect, ssh_new, created,
  ssh_options_set_user, ssh_options_set_host, ssh_options_set_log_verbosity,
}
use esp.Ssh.Login.{
  ssh_auth_error, ssh_auth_success, Ending, breaks, returns_error, again, settle, auth_turn,
  auth_loop, authenticate_console, offers_password, connect_session, connect_ssh, show_banner,
}

-- It gives a result: nothing undefined happens, and the fuel is enough.
abbrev pub Ends : {A : Type 0} → Outcome A → Type 0
Ends (done a log) = Unit
Ends undefined = ⊥
Ends out_of_fuel = ⊥

pub Ends-continue :
    {A B : Type 0} (m : Outcome A) (f : A → M B)
    → Ends m
    → ((a : A) (log : Log) → Ends (f a log))
    → Ends (continue m f)
Ends-continue (done a log) f e h = h a log
Ends-continue undefined f e h = absurd e
Ends-continue out_of_fuel f e h = absurd e

-- Every server offers passwords, and from the call with the number `n` on, it neither denies nor
-- puts off a password: it accepts it, or the connection fails.
pub record IsPatient (E : Libssh) (n : ℕ) : Type 0 where
  pub offered : (log : Log) (s : ℕ) → offers_password (E.returns log (ssh_userauth_list s)) ≡ true
  pub decided :
      (log : Log) (s : ℕ) (password : Text)
      → n ≤ length log
      → (E.returns log (ssh_userauth_password s password) ≡ ssh_auth_success)
        ⊎ (E.returns log (ssh_userauth_password s password) ≡ ssh_auth_error)

-- A turn that leads to another one comes before the call with the number `n`, makes a call, and
-- leaves the buffer long enough.
abbrev GoesOn : ℕ → Log → Outcome (Ending × Text) → Type 0
GoesOn n before (done (breaks, left) log) = Unit
GoesOn n before (done (returns_error, left) log) = Unit
GoesOn n before (done (again rc, left) log) =
    (length before < n) × (length before < length log) × (3 ≤ length left)
GoesOn n before undefined = ⊥
GoesOn n before out_of_fuel = ⊥

module _ (E : Libssh) (n : ℕ) (patient : IsPatient E n) (session : ℕ) where
  auth_turn-GoesOn :
      (method rc : ℤ) (password : Text) (log : Log)
      → offers_password method ≡ true
      → 3 ≤ length password
      → GoesOn n log (auth_turn E session method rc password log)
  unfolding auth_turn
  auth_turn-GoesOn method rc password log o h =
      let after = called (ssh_userauth_gssapi session) ∷ log in
      ground (
        arith,
        patient.decided log session (c_str password),
        patient.decided after session (c_str password),
      )

  after_turn :
      (fuel : ℕ) (next : ℤ → Text → M (ℤ × Text)) (before : Log) (m : Outcome (Ending × Text))
      → n ≤ length before + fuel
      → GoesOn n before m
      → ((rc : ℤ) (left : Text) (log : Log)
          → 0 < fuel
          → 3 ≤ length left
          → n + 1 ≤ length log + fuel
          → Ends (next rc left log))
      → Ends (continue m λ (ending, left). settle next ending left)
  after_turn fuel next before (done (breaks, left) log) b g h = tt
  after_turn fuel next before (done (returns_error, left) log) b g h = tt
  after_turn fuel next before (done (again rc, left) log) b g h =
      h rc left log (omega arith) g.2 (omega arith)
  after_turn fuel next before undefined b g h = g
  after_turn fuel next before out_of_fuel b g h = g

  auth_loop-Ends :
      (fuel : ℕ) (method rc : ℤ) (password : Text) (log : Log)
      → offers_password method ≡ true
      → 0 < fuel
      → 3 ≤ length password
      → n + 1 ≤ length log + fuel
      → Ends (auth_loop E fuel session method rc password log)
  unfolding auth_loop
  auth_loop-Ends zero method rc password log o p h b = absurd (omega arith)
  auth_loop-Ends (suc fuel) method rc password log o p h b = elim (Bool-cases (int_eq rc (pos 0))) [
    | inl e ↦ rw (e, auth_loop) tt
    | inr e ↦
        rw (e, auth_loop)
          (after_turn fuel _ log (auth_turn E session method rc password log) (omega arith)
            (auth_turn-GoesOn method rc password log o h)
            (λ rc left log. auth_loop-Ends fuel method rc left log o))
  ]

  show_banner-Ends : (log : Log) → Ends (show_banner E session log)
  unfolding show_banner
  show_banner-Ends log = ground arith

  authenticate_console-Ends :
      (password : Text) (log : Log)
      → 3 ≤ length password
      → Ends (authenticate_console E (suc n) session password log)
  unfolding authenticate_console
  authenticate_console-Ends password log h =
      let none_log = called (ssh_userauth_none session) ∷ log in
      let method = E.returns none_log (ssh_userauth_list session) in
      let list_log = called (ssh_userauth_list session) ∷ none_log in
      let rc = E.returns log (ssh_userauth_none session) in
      elim (Bool-cases (int_eq rc ssh_auth_error)) [
        | inl e ↦ rw (e, authenticate_console) tt
        | inr e ↦
            rw (e, authenticate_console)
              (Ends-continue (auth_loop E (suc n) session method rc password list_log) _
                (auth_loop-Ends (suc n) method rc password list_log
                  (patient.offered none_log session) (omega arith) h (omega arith))
                (λ r after. ground (arith, show_banner-Ends after)))
      ]

module _ (E : Libssh) (n : ℕ) (patient : IsPatient E n) (password : Text)
    (long : 3 ≤ length password) where
  connect_session-Ends :
      (session : ℕ) (log : Log) → Ends (connect_session E (suc n) session password log)
  unfolding connect_session
  connect_session-Ends session log =
      let connected = called (ssh_connect session) ∷ log in
      elim (Bool-cases (int_eq (E.returns log (ssh_connect session)) (pos 0))) [
        | inl e ↦
            rw (e, connect_session)
              (Ends-continue (authenticate_console E (suc n) session password connected) _
                (authenticate_console-Ends E n patient session password connected long)
                (λ r after. ground arith))
        | inr e ↦ rw (e, connect_session) tt
      ]

  pub connect_ssh-Ends :
      (host : Text) (user : Option Text) (verbosity : ℤ) (log : Log)
      → Ends (connect_ssh E (suc n) password host user verbosity log)
  unfolding connect_ssh
  connect_ssh-Ends host none verbosity log =
      let made = created ssh_new ∷ log in
      let s = suc (length log) in
      let host_log = called (ssh_options_set_host s host) ∷ made in
      let ready = called (ssh_options_set_log_verbosity s verbosity) ∷ host_log in
      ground (arith, connect_session-Ends s ready)
  connect_ssh-Ends host (some user) verbosity log =
      let made = created ssh_new ∷ log in
      let s = suc (length log) in
      let user_log = called (ssh_options_set_user s user) ∷ made in
      let host_log = called (ssh_options_set_host s host) ∷ user_log in
      let ready = called (ssh_options_set_log_verbosity s verbosity) ∷ host_log in
      ground (arith, connect_session-Ends s ready)
