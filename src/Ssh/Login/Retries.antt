-- ===== src/Ssh/Login/Retries.antt =====
-- How the attempts to log in to a host end.
use esp.Base.{
  ℕ, zero, suc, ◌≡◌, ◌≤◌, refl, subst, true, ◌⊎◌, inl, inr, false, Bool-cases, [], ◌∷◌, length,
  arith,
}
use esp.Base.Bytes.{Text, c_str}
use esp.Base.Int.{ℤ, int_eq, int_eq_sound, pos}
use esp.Ssh.{
  Libssh, Log, M, Outcome, done, undefined, out_of_fuel, called, ssh_userauth_password,
  ssh_userauth_none, ssh_userauth_list,
}
use esp.Ssh.Returns.{Returns, Returns-continue, Returns-then}
use esp.Ssh.Login.{
  ssh_auth_error, ssh_auth_success, Ending, again, breaks, returns_error, settle, zero_four,
  auth_turn, auth_loop, authenticate_console, offers_gssapi, offers_password,
}

abbrev pub IsDecided : ℤ × Text → Type 0
IsDecided (rc, left) = (rc ≡ ssh_auth_success) ⊎ (rc ≡ ssh_auth_error)

abbrev IsSpent : Ending × Text → Type 0
IsSpent (breaks, left) = Unit
IsSpent (returns_error, left) = Unit
IsSpent (again rc, left) = c_str left ≡ []

-- It ends, and its first call, which comes right behind the log, sends this password.
abbrev pub Sends : ℕ → Text → Log → Outcome (Ending × Text) → Type 0
Sends session password before (done r after) =
    after ≡ called (ssh_userauth_password session password) ∷ before
Sends session password before undefined = ⊥
Sends session password before out_of_fuel = ⊥

settle-Returns :
    (next : ℤ → Text → M (ℤ × Text)) (ending : Ending) (left : Text) (log : Log)
    → ((rc : ℤ) (left : Text) (log : Log) → Returns IsDecided (next rc left log))
    → Returns IsDecided (settle next ending left log)
settle-Returns next breaks left log h = inl refl
settle-Returns next returns_error left log h = inr refl
settle-Returns next (again rc) left log h = h rc left log

module _ (E : Libssh) (session : ℕ) where
  turn-IsSpent :
      (method rc : ℤ) (password : Text) (log : Log)
      → Returns IsSpent (auth_turn E session method rc password log)
  unfolding auth_turn c_str
  turn-IsSpent method rc password log = ground arith

  -- When a turn of the loop neither succeeds nor ends in an error, every later turn with the same buffer,
  -- of this log-in or of one in another session, at any later time, sends the empty password as its
  -- only call, if the server then offers passwords and not GSSAPI.
  pub refused_clears_password :
      (method rc : ℤ) (password : Text) (log : Log) (rc' : ℤ) (left : Text) (after : Log)
      (session' : ℕ) (method' rc2 : ℤ) (log' : Log)
      → auth_turn E session method rc password log ≡ done (again rc', left) after
      → offers_gssapi method' ≡ false
      → offers_password method' ≡ true
      → Sends session' [] log' (auth_turn E session' method' rc2 left log')
  unfolding auth_turn
  refused_clears_password method rc password log rc' left after session' method' rc2 log' e g p =
      let spent : c_str left ≡ [] =
        subst (Returns IsSpent) e (turn-IsSpent method rc password log) in
      ground arith

  auth_loop-Returns :
      (fuel : ℕ) (method rc : ℤ) (password : Text) (log : Log)
      → Returns IsDecided (auth_loop E fuel session method rc password log)
  unfolding auth_loop
  auth_loop-Returns zero method rc password log = tt
  auth_loop-Returns (suc fuel) method rc password log = elim (Bool-cases (int_eq rc (pos 0))) [
    | inl e ↦ rw (e, auth_loop) (inl refl)
    | inr e ↦
        rw (e, auth_loop)
          (Returns-continue IsDecided (auth_turn E session method rc password log) _
            (λ r after. settle-Returns _ r.0 r.1 after (auth_loop-Returns fuel method)))
  ]

  turn_without_method :
      (method rc : ℤ) (password : Text) (log : Log)
      → offers_gssapi method ≡ false
      → offers_password method ≡ false
      → 3 ≤ length password
      → auth_turn E session method rc password log ≡ done (again rc, zero_four password) log
  unfolding auth_turn
  turn_without_method method rc password log g p h = ground arith

  -- `authenticate_console` returns no other codes than success and error, so the branch of
  -- `connect_ssh` for a denied log-in is never taken.
  authenticate_console_codes :
      (fuel : ℕ) (password : Text) (log : Log)
      → Returns IsDecided (authenticate_console E fuel session password log)
  unfolding authenticate_console
  authenticate_console_codes fuel password log =
      let none_log = called (ssh_userauth_none session) ∷ log in
      let method = E.returns none_log (ssh_userauth_list session) in
      let list_log = called (ssh_userauth_list session) ∷ none_log in
      let rc = E.returns log (ssh_userauth_none session) in
      elim (Bool-cases (int_eq rc ssh_auth_error)) [
        | inl e ↦ rw (e, authenticate_console) (inr (int_eq_sound rc ssh_auth_error e))
        | inr e ↦
            rw (e, authenticate_console)
              (Returns-then IsDecided IsDecided
                (auth_loop E fuel session method rc password list_log) _
                (auth_loop-Returns fuel method rc password list_log) (λ r after d. ground arith))
      ]

  -- The loop itself.
  never_leaves :
      (fuel : ℕ) (method rc : ℤ) (password : Text) (log : Log)
      → offers_gssapi method ≡ false
      → offers_password method ≡ false
      → int_eq rc ssh_auth_success ≡ false
      → 3 ≤ length password
      → auth_loop E fuel session method rc password log ≡ out_of_fuel
  unfolding auth_loop
  never_leaves zero method rc password log g p r h = refl
  never_leaves (suc fuel) method rc password log g p r h =
      rw (r, auth_loop, turn_without_method method rc password log g p h)
        (never_leaves fuel method rc (zero_four password) log g p r (omega arith))

  -- When `ssh_userauth_none` neither succeeds nor fails with an error, and the server's list offers neither
  -- GSSAPI nor passwords, the log-in never returns, whatever the fuel, if the buffer of the password
  -- has three bytes or more.
  pub no_method_loops :
      (fuel : ℕ) (password : Text) (log : Log)
      → let rc = E.returns log (ssh_userauth_none session) in
        let asked = called (ssh_userauth_none session) ∷ log in
        int_eq rc ssh_auth_error ≡ false
        → int_eq rc ssh_auth_success ≡ false
        → offers_gssapi (E.returns asked (ssh_userauth_list session)) ≡ false
        → offers_password (E.returns asked (ssh_userauth_list session)) ≡ false
        → 3 ≤ length password
        → authenticate_console E fuel session password log ≡ out_of_fuel
  unfolding authenticate_console
  no_method_loops fuel password log denied refused g p h =
      let rc = E.returns log (ssh_userauth_none session) in
      let asked = called (ssh_userauth_none session) ∷ log in
      let method = E.returns asked (ssh_userauth_list session) in
      rw
        (
          denied,
          authenticate_console,
          never_leaves fuel method rc password (called (ssh_userauth_list session) ∷ asked) g p
              refused h,
        )
        refl
