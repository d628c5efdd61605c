-- ===== src/Ssh.antt =====
-- The calls that the program makes to the SSH library and, for the transfers, to the SD card,
-- whose code is other projects', and the
-- monad in which its callers are written. Each call is put on a log. What the library answers is a
-- parameter that may depend on the whole log, so that nothing is assumed of it. A computation may end,
-- may do something undefined, or may run out of the fuel of its loops.
pub mod Ledger
pub mod Returns
pub mod Login
pub mod Conn
pub mod Transfer
pub mod Scp
pub mod Interactive
mod Examples
use esp.Base.{suc, ℕ, Bool, Option, none, some, List, [], ◌∷◌, length, if◌then◌else◌}
use esp.Base.Bytes.{Text}
use esp.Base.Int.{ℤ}

-- A session, a channel or a key is named by the number of its creation, and the null pointer by 0.
pub data Call : Type 0 where
  libssh_begin ssh_finalize ssh_new millis : Call
  ssh_options_set_user ssh_options_set_host : ℕ → Text → Call
  ssh_options_set_log_verbosity : ℕ → ℤ → Call
  ssh_connect ssh_disconnect ssh_free ssh_is_connected : ℕ → Call
  ssh_userauth_none ssh_userauth_list ssh_userauth_gssapi ssh_get_issue_banner : ℕ → Call
  ssh_string_free_char : ℕ → Call
  ssh_userauth_password : ℕ → Text → Call
  ssh_send_ignore : ℕ → Text → Call
  ssh_channel_new : ℕ → Call
  ssh_channel_open_session ssh_channel_request_pty ssh_channel_request_shell : ℕ → Call
  ssh_channel_change_pty_size : ℕ → ℕ → ℕ → Call
  ssh_channel_request_exec ssh_channel_write : ℕ → Text → Call
  ssh_channel_read_nonblocking : ℕ → ℕ → Call
  ssh_channel_is_open ssh_channel_is_eof ssh_channel_close ssh_channel_free : ℕ → Call
  ssh_scp_new_write ssh_scp_new_read : ℕ → Text → Call
  ssh_scp_init ssh_scp_close ssh_scp_free ssh_scp_pull_request ssh_scp_accept_request : ℕ → Call
  ssh_scp_request_get_size ssh_scp_request_get_filename ssh_scp_request_get_permissions : ℕ → Call
  ssh_scp_push_directory ssh_scp_write : ℕ → Text → Call
  ssh_scp_push_file : ℕ → Text → ℤ → Call
  ssh_scp_read : ℕ → ℕ → Call
  -- the SD card's file that is open
  sd_open_read sd_open_write sd_write : Text → Call
  sd_available sd_size sd_flush sd_close : Call
  sd_read : ℕ → Call
  -- questions of the server, and keys
  ssh_userauth_kbdint ssh_userauth_kbdint_getname ssh_userauth_kbdint_getinstruction : ℕ → Call
  ssh_userauth_kbdint_getnprompts : ℕ → Call
  ssh_userauth_kbdint_getprompt : ℕ → ℕ → Call
  ssh_userauth_kbdint_setanswer : ℕ → ℕ → Text → Call
  fgets : ℕ → Call
  ssh_getpass : Text → ℕ → Call
  ssh_pki_import_pubkey_file ssh_pki_import_privkey_file : Text → Call
  ssh_userauth_try_publickey ssh_userauth_publickey : ℕ → ℕ → Call
  ssh_key_free : ℕ → Call

-- A call, or one that created a session, a channel, a transfer or a key.
pub data Event : Type 0 where
  called : Call → Event
  created : Call → Event

-- The latest event first.
abbrev pub Log : Type 0
Log = List Event

-- The answers of the library.
pub record Libssh : Type 0 where
  -- an `int`
  pub returns : Log → Call → ℤ
  -- a truth value
  pub holds : Log → Call → Bool
  -- whether the pointer is not null
  pub allocates : Log → Call → Bool
  -- what a read puts into the buffer
  pub receives : Log → Call → Text
  -- the clock
  pub now : Log → ℕ

pub data Outcome {ℓ} (A : Type ℓ) : Type ℓ where
  done : A → Log → Outcome A
  undefined : Outcome A
  out_of_fuel : Outcome A

abbrev pub M : Type 0 → Type 0
M A = Log → Outcome A

abbrev pub continue : {A B : Type 0} → Outcome A → (A → M B) → Outcome B
continue (done a log) f = f a log
continue undefined f = undefined
continue out_of_fuel f = out_of_fuel

infixl 5 ◌>>=◌ ◌>>◌
abbrev pub ◌>>=◌ : {A B : Type 0} → M A → (A → M B) → M B
◌>>=◌ m f log = continue (m log) f

abbrev pub ◌>>◌ : {B : Type 0} → M (Unit {0}) → M B → M B
◌>>◌ m k log = continue (m log) (λ _. k)

abbrev pub pure : {A : Type 0} → A → M A
pure a log = done a log

abbrev pub fault : {A : Type 0} → M A
fault log = undefined

module _ (E : Libssh) where
  abbrev pub tell : Call → M (Unit {0})
  tell c log = done tt (called c ∷ log)

  abbrev pub ask : Call → M ℤ
  ask c log = done (E.returns log c) (called c ∷ log)

  abbrev pub test : Call → M Bool
  test c log = done (E.holds log c) (called c ∷ log)

  abbrev pub receive : Call → M (ℤ × Text)
  receive c log = done (E.returns log c, E.receives log c) (called c ∷ log)

  abbrev pub clock : M ℕ
  clock log = done (E.now log) (called millis ∷ log)

  -- `none` is the null pointer.
  abbrev pub create : Call → M (Option ℕ)
  create c log =
      if E.allocates log c
      then done (some (suc (length log))) (created c ∷ log)
      else done none (called c ∷ log)
