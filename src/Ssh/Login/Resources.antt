-- ===== src/Ssh/Login/Resources.antt =====
-- No session is lost on the way.
use esp.Base.{length, ℕ, zero, suc, Bool-cases, inl, inr, Option, none, some, ◌∷◌, arith}
use esp.Base.Bytes.{Text}
use esp.Base.Int.{ℤ, int_eq, pos}
use esp.Ssh.{
  Libssh, Log, M, called, ssh_userauth_none, ssh_userauth_list, ssh_new, ssh_connect,
  ssh_options_set_user, ssh_options_set_host, ssh_options_set_log_verbosity, created,
}
use esp.Ssh.Ledger.{Opens, Keeps, Keeps-continue, Keeps-after, Keeps-shift}
use esp.Ssh.Login.{
  ssh_auth_error, breaks, returns_error, again, settle, auth_turn, auth_loop, authenticate_console,
  connect_session, connect_ssh, Ending,
}

abbrev nothing : {A : Type 0} → A → ℕ
nothing a = 0

settle-Keeps :
    (next : ℤ → Text → M (ℤ × Text)) (ending : Ending) (left : Text) (before log : Log)
    → Opens 0 0 0 before log
    → ((rc : ℤ) (left : Text) (log : Log) → Keeps nothing log (next rc left log))
    → Keeps nothing before (settle next ending left log)
settle-Keeps next breaks left before log o h = o
settle-Keeps next returns_error left before log o h = o
settle-Keeps next (again rc) left before log o h =
    Keeps-after nothing before log (next rc left log) o (h rc left log)

module _ (E : Libssh) (session : ℕ) where
  auth_turn-Keeps :
      (method rc : ℤ) (password : Text) (log : Log)
      → Keeps nothing log (auth_turn E session method rc password log)
  unfolding auth_turn
  auth_turn-Keeps method rc password log = ground arith

  auth_loop-Keeps :
      (fuel : ℕ) (method rc : ℤ) (password : Text) (log : Log)
      → Keeps nothing log (auth_loop E fuel session method rc password log)
  unfolding auth_loop
  auth_loop-Keeps zero method rc password log = tt
  auth_loop-Keeps (suc fuel) method rc password log = elim (Bool-cases (int_eq rc (pos 0))) [
    | inl e ↦ rw (e, auth_loop) (omega arith)
    | inr e ↦
        rw (e, auth_loop)
          (Keeps-continue nothing nothing log (auth_turn E session method rc password log) _
            (auth_turn-Keeps method rc password log)
            (λ r log' o. settle-Keeps _ r.0 r.1 log log' o (auth_loop-Keeps fuel method)))
  ]

  authenticate_console-Keeps :
      (fuel : ℕ) (password : Text) (log : Log)
      → Keeps nothing log (authenticate_console E fuel session password log)
  unfolding authenticate_console
  authenticate_console-Keeps fuel password log =
      let none_log = called (ssh_userauth_none session) ∷ log in
      let method = E.returns none_log (ssh_userauth_list session) in
      let list_log = called (ssh_userauth_list session) ∷ none_log in
      let rc = E.returns log (ssh_userauth_none session) in
      elim (Bool-cases (int_eq rc ssh_auth_error)) [
        | inl e ↦ rw (e, authenticate_console) (omega arith)
        | inr e ↦
            rw (e, authenticate_console)
              (Keeps-continue nothing nothing log
                (auth_loop E fuel session method rc password list_log) _
                (Keeps-after nothing log list_log _ (omega arith)
                  (auth_loop-Keeps fuel method rc password list_log))
                (λ r after o. ground arith))
      ]

-- Whether a session was returned.
abbrev pub returned : Option ℕ × Text → ℕ
returned (none, left) = 0
returned (some session, left) = 1

module _ (E : Libssh) (fuel : ℕ) (password : Text) where
  connect_session-Keeps :
      (session : ℕ) (before log : Log)
      → Opens 1 0 0 before log
      → Keeps returned before (connect_session E fuel session password log)
  unfolding connect_session
  connect_session-Keeps session before log o =
      let connected = called (ssh_connect session) ∷ log in
      elim (Bool-cases (int_eq (E.returns log (ssh_connect session)) (pos 0))) [
        | inl e ↦
            rw (e, connect_session)
              (Keeps-continue (λ r. 1) returned before
                (authenticate_console E fuel session password connected) _
                (Keeps-shift 1 before connected _ (omega arith)
                  (authenticate_console-Keeps E session fuel password connected))
                (λ r after k. ground arith))
        | inr e ↦ rw (e, connect_session) (omega arith)
      ]

  -- Whatever the library answers, `connect_ssh` opens one session if it returns one, and otherwise
  -- has freed the session that it made, if any; no channel is opened.
  pub connect_ssh-Keeps :
      (host : Text) (user : Option Text) (verbosity : ℤ) (log : Log)
      → Keeps returned log (connect_ssh E fuel password host user verbosity log)
  unfolding connect_ssh
  connect_ssh-Keeps host none verbosity log =
      let made = created ssh_new ∷ log in
      let s = suc (length log) in
      let host_log = called (ssh_options_set_host s host) ∷ made in
      let ready = called (ssh_options_set_log_verbosity s verbosity) ∷ host_log in
      ground (arith, connect_session-Keeps s log ready)
  connect_ssh-Keeps host (some user) verbosity log =
      let made = created ssh_new ∷ log in
      let s = suc (length log) in
      let user_log = called (ssh_options_set_user s user) ∷ made in
      let host_log = called (ssh_options_set_host s host) ∷ user_log in
      let ready = called (ssh_options_set_log_verbosity s verbosity) ∷ host_log in
      ground (arith, connect_session-Keeps s log ready)
