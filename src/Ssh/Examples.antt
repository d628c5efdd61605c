-- ===== src/Ssh/Examples.antt =====
-- A library whose calls all succeed, one that refuses every log-in, and the theorems with them.
use esp.Base.{
  Bool, ◌%◌, ◌^◌, ◌++◌, replicate, length, zero, suc, ap, ℕ, leb, if◌then◌else◌, ◌≡◌, refl, true,
  false, some, [], ◌∷◌, arith,
}
use esp.Base.Bytes.{c_str, Text, text}
use esp.Base.Int.{ℤ, pos, negsuc}
use esp.Strings.Reference.{reference, reference-IsLawful}
use esp.Ssh.{
  sd_available, ssh_userauth_kbdint, ssh_userauth_kbdint_getnprompts, ssh_userauth_list,
  ssh_userauth_password, ssh_scp_read, Libssh, Call, ssh_userauth_none, Log, created, called,
  ssh_new, ssh_channel_new, libssh_begin, out_of_fuel,
}
use esp.Ssh.Ledger.{Keeps}
use esp.Ssh.Login.{
  zero_four, authenticate_console, offers_gssapi, offers_password, connect_ssh, auth_turn,
}
use esp.Ssh.Login.Resources.{returned, connect_ssh-Keeps}
use esp.Ssh.Login.Retries.{Sends, refused_clears_password, no_method_loops}
use esp.Ssh.Conn.{Conn, null, at, connect, brutal_exception}
use esp.Ssh.Conn.Ownership.{OwnsAfter, GivenBack, connect-Owns, brutal_exception-Owns}
use esp.Ssh.Transfer.{exec_cmd}
use esp.Ssh.Transfer.Delivery.{IsClosing, Answered, exec_cmd-Answered}
use esp.Ssh.Scp.{scp_write, scp_read, directories, split_tokens}
use esp.Ssh.Scp.Tokens.{pieces, drop_empty, directories_lem}
use esp.Ssh.Interactive.{authenticate_kbdint}
use esp.Ssh.Interactive.Rounds.{IsSatisfied, IsVerdict, authenticate_kbdint-IsVerdict}
use esp.Ssh.Scp.Sending.{IsShort, GivesBackScp, scp_write-GivesBackScp}
use esp.Ssh.Scp.Receiving.{Returned, scp_read-Returned}

abbrev good : Libssh
good = record {
  returns = λ log c. pos 0;
  holds = λ log c. true;
  allocates = λ log c. true;
  receives = λ log c. [];
  now = λ log. 0;
}

-- Every code is an error, so no log-in and no channel is granted.
abbrev bad : Libssh
bad = record good { returns = λ log c. negsuc 0 }

-- The log-in is denied with the code 1, and the list of methods is empty.
denial : Call → ℤ
denial (ssh_userauth_none s) = pos 1
denial _ = pos 0

abbrev deaf : Libssh
deaf = record good { returns = λ log c. denial c }

abbrev secret : Text
secret = text "hunter2"

abbrev idle : Conn
idle = record {
  host = text "10.0.0.2";
  user = text "root";
  password = secret;
  channel = null;
  session = null;
  conn = false;
}

-- A session and a channel were made.
abbrev busy : Conn
busy = record idle { session = at 2; channel = at 3; conn = true }

abbrev busy_log : Log
busy_log = created (ssh_channel_new 2) ∷ created ssh_new ∷ called libssh_begin ∷ []

connect-Owns_example : OwnsAfter 0 (connect bad 3 idle [])
connect-Owns_example =
    connect-Owns bad 0 3 idle [] (record { no_session = refl; no_channel = refl })
      (record { owns_session = refl; owns_channel = refl; owns_start = refl })

brutal_exception-Owns_example : GivenBack 0 busy (brutal_exception good busy busy_log)
brutal_exception-Owns_example =
    brutal_exception-Owns good 0 busy busy_log
      (record { has_session = λ e. cc; has_channel = λ e. cc })
      (record { owns_session = refl; owns_channel = refl; owns_start = refl })

connect_ssh-Keeps_example :
    Keeps returned [] (connect_ssh bad 3 secret (text "10.0.0.2") (some (text "root")) (pos 0) [])
connect_ssh-Keeps_example =
    connect_ssh-Keeps bad 3 secret (text "10.0.0.2") (some (text "root")) (pos 0) []

-- Every password is denied.
abbrev denying : Libssh
denying = record good { returns = λ log c. pos 1 }

refused_clears_password_example :
    Sends 9 [] [] (auth_turn denying 9 (pos 2) (pos 1) (zero_four secret) [])
unfolding auth_turn offers_gssapi esp.Base.Int.to_uint32 offers_password
refused_clears_password_example =
    refused_clears_password denying 1 (pos 2) (pos 1) secret [] (pos 1) (zero_four secret)
      (called (ssh_userauth_password 1 (c_str secret)) ∷ []) 9 (pos 2) (pos 1) [] refl refl refl

no_method_loops_example : authenticate_console deaf 100 1 secret [] ≡ out_of_fuel
unfolding offers_gssapi esp.Base.Int.to_uint32 offers_password denial
no_method_loops_example = no_method_loops deaf 1 100 secret [] refl refl refl refl (omega arith)

-- A server that denies the first passwords, then accepts them, and whose channels are at their end.
answer : ℕ → Call → ℤ
answer k (ssh_userauth_none s) = pos 1
answer k (ssh_userauth_list s) = pos 2
answer k (ssh_userauth_password s password) = if leb 10 k then pos 0 else pos 1
answer k (ssh_scp_read scp n) = pos n
answer k _ = pos 0

brought : Call → Text
brought (ssh_scp_read scp n) = replicate n b'x'
brought _ = []

abbrev server : Libssh
server = record good { returns = λ log c. answer (length log) c; receives = λ log c. brought c }

server-IsClosing : IsClosing server 0
server-IsClosing = record { at_eof = λ log c h. refl }

exec_cmd-Answered_example :
    Answered server busy_log (exec_cmd server reference 1 busy (text "echo alive") busy_log)
exec_cmd-Answered_example =
    exec_cmd-Answered server 0 reference busy (text "echo alive") busy_log server-IsClosing
      (λ e. cc)

scp_read-Returned_example : Returned busy_log (scp_read server 3 busy (text "/etc/motd") busy_log)
scp_read-Returned_example = scp_read-Returned server 3 busy (text "/etc/motd") busy_log

length-replicate : (n c : ℕ) → length (replicate n c) ≡ n
length-replicate zero c = refl
length-replicate (suc n) c = ap suc (length-replicate n c)

-- The directories that an upload makes.
made_directories :
    directories reference (text "/home//alext/notes.txt") ≡ text "home" ∷ text "alext" ∷ []
unfolding directories split_tokens esp.Strings.Reference.substring
    esp.Strings.Reference.last_index_of esp.Base.Bytes.c_str
made_directories = refl

directories_lem_example :
    directories reference (text "/home//alext" ++ (b'/' ∷ text "notes.txt"))
    ≡ drop_empty (pieces (text "/home//alext"))
directories_lem_example =
    directories_lem reference (text "/home//alext") (text "notes.txt") reference-IsLawful
      (omega arith) (omega arith) (omega arith)

-- A server that asks for two answers before it decides.
asks : ℕ → Call → ℤ
asks k (ssh_userauth_kbdint s) = if leb 9 k then pos 0 else pos 3
asks k (ssh_userauth_kbdint_getnprompts s) = pos 2
asks k _ = pos 0

abbrev asking : Libssh
asking = record good { returns = λ log c. asks (length log) c }

asking-IsSatisfied : IsSatisfied asking 9
unfolding asks
asking-IsSatisfied = record { satisfied = λ log s h. ground arith }

authenticate_kbdint-IsVerdict_example : IsVerdict (authenticate_kbdint asking 11 2 (some secret) [])
authenticate_kbdint-IsVerdict_example =
    authenticate_kbdint-IsVerdict asking 9 asking-IsSatisfied 2 (some secret) []

-- A file that is at its end from the call with the number 20 on.
has_more : ℕ → Call → Bool
has_more k sd_available = if leb 20 k then false else true
has_more k _ = true

abbrev card : Libssh
card = record good { holds = λ log c. has_more (length log) c }

card-IsShort : IsShort card 20
unfolding has_more
card-IsShort = record { at_end = λ log h. ground arith }

scp_write-GivesBackScp_example :
    GivesBackScp busy_log (scp_write card reference 21 busy (text "/home/alext/notes.txt") busy_log)
scp_write-GivesBackScp_example =
    scp_write-GivesBackScp card 20 reference busy (text "/home/alext/notes.txt") busy_log
      card-IsShort (λ e. cc)
