-- ===== src/Control/Handlers/Examples.antt =====
-- Files of two equal bytes, and a library that serves and takes them a byte at a time.
use esp.Base.{
  ℕ, ◌+◌, ◌<◌, ap, ◌∙◌, length-append, ◌≡◌, refl, Bool, true, [], ◌∷◌, ◌++◌, length, ltb,
  if◌then◌else◌, arith,
}
use esp.Base.Bytes.{text_eq, Text, text, c_str}
use esp.Base.Int.{ℤ, pos}
use esp.Strings.Reference.{reference, reference-IsLawful}
use esp.Http.{Request}
use esp.Ssh.{
  Call, Libssh, Log, ssh_scp_new_read, ssh_scp_pull_request, ssh_scp_request_get_size, ssh_scp_read,
  sd_available, sd_size, sd_read, sd_open_read, called,
}
use esp.Ssh.Scp.Fetching.{accepted}
use esp.Ssh.Scp.Pushing.{IsTaking, read_out}
use esp.Control.{Control, turn}
use esp.Control.Examples.{quiet_library, up, board, table}
use esp.Control.Served.{no_requests}
use esp.Control.Handlers.{handle_upload}
use esp.Control.Handlers.Carrying.{IsUp, Sent}
use esp.Control.Handlers.Transfers.{upload_without_slash}

abbrev two_bytes : Text
two_bytes = text "aa"

-- How often the card's file was read since it was opened.
abbrev sd_reads : Log → ℕ
sd_reads [] = 0
sd_reads (called (sd_open_read path) ∷ log) = 0
sd_reads (called (sd_read n) ∷ log) = sd_reads log + 1
sd_reads (e ∷ log) = sd_reads log

abbrev answer : Log → Call → ℤ
answer log (ssh_scp_pull_request scp) = if accepted log then pos 3 else pos 2
answer log (ssh_scp_request_get_size scp) = pos 2
answer log sd_size = pos 2
answer log (ssh_scp_read scp n) = pos 1
answer log c = pos 0

abbrev brought : Log → Call → Text
brought log (ssh_scp_read scp n) = text "a"
brought log (sd_read n) = text "a"
brought log c = []

abbrev said : Log → Call → Bool
said log sd_available = ltb (sd_reads log) 2
said log c = true

-- No other path can be read.
abbrev granted : Call → Bool
granted (ssh_scp_new_read s path) = text_eq path (text "/etc/motd")
granted c = true

abbrev byte_library : Libssh
byte_library = record quiet_library {
  returns = answer;
  receives = brought;
  allocates = λ log c. granted c;
  holds = said;
}

rest_of :
    (s rest : Text)
    → s ++ rest ≡ two_bytes
    → 0 < length rest
    → (more : Text) × (rest ≡ text "a" ++ more)
rest_of [] rest e h = (text "a", e)
rest_of (c ∷ []) rest e h = ([], ground arith)
rest_of (c ∷ d ∷ s) rest e h = absurd (omega (arith, ap length e, length-append s rest))

counted : (log : Log) → length (read_out byte_library log) ≡ sd_reads log
counted [] = refl
counted (called (sd_open_read path) ∷ log) = refl
counted (called (sd_read n) ∷ log) =
    length-append (read_out byte_library log) (text "a") ∙ ap (λ (k : ℕ). k + 1) (counted log)
counted (e ∷ log) = counted log

takes : IsTaking byte_library two_bytes
takes = record {
  makes = λ log s path. refl;
  begins = λ log scp. refl;
  enters = λ log scp token. refl;
  sized = λ log. refl;
  accepts = λ log scp name size. refl;
  takes = λ log scp bytes. refl;
  reads = λ log n rest p e h.
      let (more, parts) = rest_of (read_out byte_library log) rest e h in
      (more, parts, omega arith, p);
  lasts = λ log rest e h.
      ground (arith, counted log, ap length e, length-append (read_out byte_library log) rest);
  ends = λ log e. ground (arith, counted log, ap length e);
}

board-IsUp : IsUp (record board { mail = no_requests }) up
board-IsUp = record {
  is_server = refl;
  is_up = refl;
  channel = 3;
  has_channel = refl;
  session = 2;
  has_session = refl;
  no_switch = refl;
  no_command = refl;
}

abbrev idle_board : Control
idle_board = record board { mail = no_requests }

-- A file of two parts for a directory.
abbrev form : Request
form = record {
  header = λ name. text "docs/a.txt";
  request_string = text "/upload";
  chunks = text "a" ∷ text "a" ∷ [];
}

abbrev bare_form : Request
bare_form = record form { header = λ name. text "a.txt" }

upload_without_slash_example : Sent (text "a.txt" ∷ []) (text "a.txt") (text "aa") (
    turn reference byte_library 3 table true
      (record idle_board { mail = (handle_upload bare_form no_requests).0 })
      [])
unfolding handle_upload c_str
upload_without_slash_example =
    upload_without_slash reference byte_library 3 table true bare_form idle_board up (text "a.txt")
      [] reference-IsLawful takes (omega arith) board-IsUp refl (λ e. ground arith) (omega arith)
      (omega arith) (omega arith) (omega arith)
