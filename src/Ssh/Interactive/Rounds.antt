-- ===== src/Ssh/Interactive/Rounds.antt =====
-- The questions of a server come to an end.
use esp.Base.{
  ℕ, zero, suc, ◌+◌, ◌≡◌, ◌≢◌, ◌≤◌, ◌<◌, inl, inr, Bool-cases, Option, ◌∷◌, length, arith, leb, not,
}
use esp.Base.Bytes.{Text}
use esp.Base.Int.{ℤ, pos, int_eq, int_eq_sound, int_eq_apart}
use esp.Ssh.{
  Libssh, Log, M, Outcome, done, undefined, out_of_fuel, continue, ◌>>=◌, pure, ask, called,
  ssh_userauth_kbdint, ssh_userauth_kbdint_getname, ssh_userauth_kbdint_getinstruction,
  ssh_userauth_kbdint_getnprompts, ssh_userauth_kbdint_getprompt,
}
use esp.Ssh.Returns.{Grows, Grows-continue, Grows-from}
use esp.Ssh.Login.{ssh_auth_error}
use esp.Ssh.Interactive.{
  ssh_auth_info, Prompt, rounds, Answers, answered, refused, answer_prompt, answer_prompts,
  answer_shown, answer_hidden, kbdint_round, kbdint_loop, authenticate_kbdint,
}

-- From the call with the number `n` on, no server asks anything more.
pub record IsSatisfied (E : Libssh) (n : ℕ) : Type 0 where
  pub satisfied :
      (log : Log) (s : ℕ) → n ≤ length log → E.returns log (ssh_userauth_kbdint s) ≢ ssh_auth_info

-- It ends with a code that does not ask for more.
abbrev pub IsVerdict : Outcome ℤ → Type 0
IsVerdict (done rc log) = rc ≢ ssh_auth_info
IsVerdict undefined = ⊥
IsVerdict out_of_fuel = ⊥

module _ (E : Libssh) (session : ℕ) (password : Option Text) where
  answer_shown-Grows : (i : ℕ) (log : Log) → Grows log (answer_shown E session i log)
  unfolding answer_shown
  answer_shown-Grows i log = ground arith

  answer_hidden-Grows :
      (i : ℕ) (prompt : Text) (log : Log)
      → Grows log (answer_hidden E session password i prompt log)
  unfolding answer_hidden
  answer_hidden-Grows i prompt log = ground arith

  answer_prompt-Grows :
      (i : ℕ) (p : Prompt) (log : Log) → Grows log (answer_prompt E session password i p log)
  unfolding answer_prompt
  answer_prompt-Grows i p log = ground arith

  after_prompt :
      (left i : ℕ) (before log : Log) (a : Answers)
      → length before ≤ length log
      → Grows log (answer_prompts E session password left i log)
      → Grows before (
          (elim a as (λ a. M Answers) [
            | refused ↦ pure refused
            | answered ↦ answer_prompts E session password left i
          ])
            log)
  after_prompt left i before log refused h g = h
  after_prompt left i before log answered h g =
      Grows-from before log (answer_prompts E session password left i log) h g

  answer_prompts-Grows :
      (left i : ℕ) (log : Log) → Grows log (answer_prompts E session password left i log)
  unfolding answer_prompts
  answer_prompts-Grows zero i log = omega arith
  answer_prompts-Grows (suc left) i log =
      let get = ssh_userauth_kbdint_getprompt session i in
      let after = called get ∷ log in
      let p : Prompt = record {
        message = E.receives log get;
        echo = not (int_eq (E.returns log get) (pos 0));
      } in
      elim (Bool-cases (E.holds log get)) [
        | inr e ↦ rw (e, answer_prompts) (omega arith)
        | inl e ↦
            rw (e, answer_prompts)
              (Grows-continue log (answer_prompt E session password i p after) _
                (Grows-from log after _ (omega arith) (answer_prompt-Grows i p after))
                (λ a log' g.
                  after_prompt left (i + 1) log log' a g (answer_prompts-Grows left (i + 1) log')))
      ]

  kbdint_round-Grows : (log : Log) → Grows log (kbdint_round E session password log)
  unfolding kbdint_round
  kbdint_round-Grows log =
      let ready =
        called (ssh_userauth_kbdint_getinstruction session)
        ∷ called (ssh_userauth_kbdint_getname session)
        ∷ log in
      let count = ssh_userauth_kbdint_getnprompts session in
      let n = rounds (E.returns ready count) in
      Grows-from log (called count ∷ ready) _ (omega arith)
        (answer_prompts-Grows n 0 (called count ∷ ready))

module _ (E : Libssh) (n : ℕ) (satisfied : IsSatisfied E n) (session : ℕ)
    (password : Option Text) where
  early :
      (log : Log)
      → E.returns log (ssh_userauth_kbdint session) ≡ ssh_auth_info
      → suc (length log) ≤ n
  early log e = elim (Bool-cases (leb n (length log))) [
    | inl l ↦ absurd (satisfied.satisfied log session (ground arith) e)
    | inr l ↦ ground arith
  ]

  after_round :
      (fuel : ℕ) (before : Log) (m : Outcome Answers)
      → Grows before m
      → ((err : ℤ) (log : Log)
          → length before < length log
          → (err ≡ ssh_auth_info → length log ≤ n)
          → IsVerdict (kbdint_loop E fuel session password err log))
      → IsVerdict (
          continue m (elim [
            | refused ↦ pure ssh_auth_error
            | answered ↦
                (ask E (ssh_userauth_kbdint session) >>= kbdint_loop E fuel session password)
          ]))
  after_round fuel before (done refused log) g h = λ e. cc
  after_round fuel before (done answered log) g h =
      h (E.returns log (ssh_userauth_kbdint session)) (called (ssh_userauth_kbdint session) ∷ log)
        (omega arith) (early log)
  after_round fuel before undefined g h = g
  after_round fuel before out_of_fuel g h = g

  kbdint_loop-IsVerdict :
      (fuel : ℕ) (err : ℤ) (log : Log)
      → 0 < fuel
      → (err ≡ ssh_auth_info → (length log ≤ n) × (n + 1 < length log + fuel))
      → IsVerdict (kbdint_loop E fuel session password err log)
  unfolding kbdint_loop
  kbdint_loop-IsVerdict zero err log p h = absurd (omega arith)
  kbdint_loop-IsVerdict (suc fuel) err log p h = elim (Bool-cases (int_eq err ssh_auth_info)) [
    | inr e ↦ rw (e, kbdint_loop) (λ i. int_eq_apart err ssh_auth_info e i)
    | inl e ↦
        let b = h (int_eq_sound err ssh_auth_info e) in
        rw (e, kbdint_loop)
          (after_round fuel log (kbdint_round E session password log)
            (kbdint_round-Grows E session password log)
            (λ err' log' g early.
              kbdint_loop-IsVerdict fuel err' log' (omega arith)
                (λ i. (early i, omega (arith, early i)))))
  ]

  -- If from some call on no server asks for more answers, `authenticate_kbdint` ends, with nothing undefined,
  -- with a code that does not ask for more. Fuel of two more than the number of that call is
  -- enough.
  pub authenticate_kbdint-IsVerdict :
      (log : Log) → IsVerdict (authenticate_kbdint E (n + 2) session password log)
  unfolding authenticate_kbdint
  authenticate_kbdint-IsVerdict log =
      kbdint_loop-IsVerdict (n + 2) (E.returns log (ssh_userauth_kbdint session))
        (called (ssh_userauth_kbdint session) ∷ log) (omega arith)
        (λ e. (omega (arith, early log e), omega arith))
