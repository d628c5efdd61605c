-- ===== src/Ssh/Interactive.antt =====
-- `authenticate_kbdint` and `auth_keyfile` of src/ssh_functions.cpp, which the program compiles and
-- does not call. The answers of the console are as free as those of the SSH library.
pub mod Rounds
pub mod Keys
use esp.Base.{
  ℕ, zero, suc, ◌+◌, ◌%◌, Bool, true, false, not, ◌&&◌, ◌||◌, Option, none, some, [], ◌∷◌, ◌++◌,
  length, take, ◌==◌, if◌then◌else◌,
}
use esp.Base.Bytes.{Text, text, c_str}
use esp.Base.Int.{ℤ, pos, negsuc, int_eq, is_negative}
use esp.Ssh.{
  Call, ssh_userauth_kbdint, ssh_userauth_kbdint_getname, ssh_userauth_kbdint_getinstruction,
  ssh_userauth_kbdint_getnprompts, ssh_userauth_kbdint_getprompt, ssh_userauth_kbdint_setanswer,
  fgets, ssh_getpass, ssh_pki_import_pubkey_file, ssh_pki_import_privkey_file,
  ssh_userauth_try_publickey, ssh_userauth_publickey, ssh_key_free, called, Libssh, M, Outcome,
  done, out_of_fuel, continue, ◌>>=◌, ◌>>◌, pure, tell, ask, receive, create,
}
use esp.Ssh.Login.{ssh_auth_success, ssh_auth_error}

abbrev pub ssh_auth_denied : ℤ
ssh_auth_denied = pos 1

abbrev pub ssh_auth_info : ℤ
ssh_auth_info = pos 3

unfoldable pub starts_with : Text → Text → Bool
starts_with [] s = true
starts_with (c ∷ p) [] = false
starts_with (c ∷ p) (d ∷ s) = c == d && starts_with p s

-- `strstr(s, p) != NULL`
unfoldable pub contains : Text → Text → Bool
unfolding starts_with
contains p [] = starts_with p []
contains p (c ∷ s) = starts_with p (c ∷ s) || contains p s

-- The text up to the first line feed, which `strchr` finds and a zero byte replaces.
unfoldable pub up_to_newline : Text → Text
up_to_newline [] = []
up_to_newline (c ∷ s) = if c == 10 then [] else c ∷ up_to_newline s

-- A prompt, and whether what is typed may be shown.
pub record Prompt : Type 0 where
  pub message : Text
  pub echo : Bool

-- The number of rounds of `for (i = 0; i < n; i++)`.
abbrev pub rounds : ℤ → ℕ
rounds (pos n) = n
rounds (negsuc n) = 0

-- Whether the questions of a round were answered, or SSH_AUTH_ERROR is returned.
pub data Answers : Type 0 where
  answered refused : Answers

module _ (E : Libssh) where
  -- `none` if the pointer is null.
  abbrev pub prompt_of : Call → M (Option Prompt)
  prompt_of c log =
      let message = E.receives log c in
      let echo = not (int_eq (E.returns log c) (pos 0)) in
      done (if E.holds log c then some (record { message = message; echo = echo }) else none)
        (called c ∷ log)

  -- The buffer of 128 bytes, or `none` at the end of the input.
  abbrev pub read_line : M (Option Text)
  read_line log =
      done (if E.holds log (fgets 128) then some (take 127 (E.receives log (fgets 128))) else none)
        (called (fgets 128) ∷ log)

  unfoldable pub set_answer : ℕ → ℕ → Text → M Answers
  set_answer session i answer = do
    rc ← ask E (ssh_userauth_kbdint_setanswer session i answer)
    pure (if is_negative rc then refused else answered)

  -- The branch for a prompt with echo.
  unfoldable pub answer_shown : ℕ → ℕ → M Answers
  unfolding up_to_newline set_answer
  answer_shown session i = do
    line ← read_line
    elim line as (λ l. M Answers) [
      | none ↦ pure refused
      | some buffer ↦ set_answer session i (up_to_newline (c_str buffer))
    ]

  unfoldable pub type_password : ℕ → ℕ → Text → M Answers
  unfolding set_answer
  type_password session i prompt = do
    (rc, buffer) ← receive E (ssh_getpass prompt 128)
    if is_negative rc then pure refused else set_answer session i (c_str buffer)

  -- The branch for a prompt without echo; the password is a pointer that may be null.
  unfoldable pub answer_hidden : ℕ → Option Text → ℕ → Text → M Answers
  unfolding contains set_answer type_password
  answer_hidden session none i prompt = type_password session i prompt
  answer_hidden session (some password) i prompt =
      if contains (text "Password:") prompt
      then set_answer session i (c_str password)
      else type_password session i prompt

  unfoldable pub answer_prompt : ℕ → Option Text → ℕ → Prompt → M Answers
  unfolding answer_shown answer_hidden
  answer_prompt session password i prompt =
      if prompt.echo
      then answer_shown session i
      else answer_hidden session password i (c_str prompt.message)

  -- The `for` loop: the rounds that are left, and `i`.
  unfoldable pub answer_prompts : ℕ → Option Text → ℕ → ℕ → M Answers
  unfolding answer_prompt
  answer_prompts session password zero i log = done answered log
  answer_prompts session password (suc left) i log =
      let next = answer_prompts session password left (i + 1) in
      continue (prompt_of (ssh_userauth_kbdint_getprompt session i) log) λ prompt.
        elim prompt as (λ p. M Answers) [
          | none ↦ pure answered
          | some p ↦
              answer_prompt session password i p
              >>= elim [ refused ↦ pure refused | answered ↦ next ]
        ]

  -- The body of the `while` loop, but for its last line.
  unfoldable pub kbdint_round : ℕ → Option Text → M Answers
  unfolding answer_prompts
  kbdint_round session password = do
    tell E (ssh_userauth_kbdint_getname session)
    tell E (ssh_userauth_kbdint_getinstruction session)
    n ← ask E (ssh_userauth_kbdint_getnprompts session)
    answer_prompts session password (rounds n) 0

  unfoldable pub kbdint_loop : ℕ → ℕ → Option Text → ℤ → M ℤ
  unfolding kbdint_round
  kbdint_loop zero session password err log = out_of_fuel
  kbdint_loop (suc fuel) session password err log =
      let next = kbdint_loop fuel session password in
      elim (int_eq err ssh_auth_info) [
        | false ↦ done err log
        | true ↦ continue (kbdint_round session password log) (elim [
          | refused ↦ pure ssh_auth_error
          | answered ↦ (ask E (ssh_userauth_kbdint session) >>= next)
        ])
      ]

  unfoldable pub authenticate_kbdint : ℕ → ℕ → Option Text → M ℤ
  unfolding kbdint_loop
  authenticate_kbdint fuel session password = do
    err ← ask E (ssh_userauth_kbdint session)
    kbdint_loop fuel session password err

  -- The part of `auth_keyfile` behind the public key.
  unfoldable pub use_private_key : ℕ → Text → M ℤ
  use_private_key session keyfile = do
    made ← create E (ssh_pki_import_privkey_file keyfile)
    elim made as (λ m. M ℤ) [
      | none ↦ pure ssh_auth_denied
      | some key ↦ do
        rc ← ask E (ssh_userauth_publickey session key)
        tell E (ssh_key_free key)
        pure rc
    ]

  -- An import gives a key exactly when it returns SSH_OK. `pubkey` has room for 131 bytes.
  unfoldable pub auth_keyfile : ℕ → Text → M ℤ
  unfolding use_private_key
  auth_keyfile session keyfile = do
    made ← create E (ssh_pki_import_pubkey_file (take 131 (keyfile ++ text ".pub")))
    elim made as (λ m. M ℤ) [
      | none ↦ pure ssh_auth_denied
      | some key ↦ do
        rc ← ask E (ssh_userauth_try_publickey session key)
        tell E (ssh_key_free key)
        if int_eq rc ssh_auth_success then use_private_key session keyfile else pure ssh_auth_denied
    ]
