-- ===== src/Ssh/Scp/Pushing.antt =====
-- The bytes that `scp_write` takes from the SD card to a server.
use mathlib.Core.List.{append-nil, append_assoc}
use esp.Base.{
  ℕ, zero, suc, ◌≡◌, ◌≤◌, ◌<◌, refl, sym, ap, ◌∙◌, true, false, none, Option, List, some, [], ◌∷◌,
  ◌++◌, length, length-append, arith, ◌==◌,
}
use esp.Base.Bytes.{Text, c_str}
use esp.Base.Int.{ℤ, pos}
use esp.Strings.{StringApi, next_index}
use esp.Ssh.{
  Libssh, Log, Outcome, done, undefined, out_of_fuel, called, created, ssh_scp_new_write,
  ssh_scp_write, ssh_scp_init, ssh_scp_push_directory, ssh_scp_push_file, sd_read, sd_available,
  sd_size, sd_open_read,
}
use esp.Ssh.Conn.{ssh_ok}
use esp.Ssh.Scp.{push_directories, send_chunk, send_file}

-- What was read of the file that was last opened on the card.
abbrev pub read_out : Libssh → Log → Text
read_out E [] = []
read_out E (called (sd_open_read path) ∷ log) = []
read_out E (called (sd_read n) ∷ log) = read_out E log ++ E.receives log (sd_read n)
read_out E (e ∷ log) = read_out E log

-- The bytes that the last transfer has sent of its file.
abbrev pub pushed : Log → Text
pushed [] = []
pushed (called (ssh_scp_push_file scp name size) ∷ log) = []
pushed (called (ssh_scp_write scp bytes) ∷ log) = pushed log ++ bytes
pushed (e ∷ log) = pushed log

-- The name and the size that it has announced.
abbrev pub announced : Log → Option (Text × ℤ)
announced [] = none
announced (created (ssh_scp_new_write s path) ∷ log) = none
announced (called (ssh_scp_push_file scp name size) ∷ log) = some (name, size)
announced (e ∷ log) = announced log

-- The directories that it has entered.
abbrev pub entered : Log → List Text
entered [] = []
entered (created (ssh_scp_new_write s path) ∷ log) = []
entered (called (ssh_scp_push_directory scp token) ∷ log) = entered log ++ (token ∷ [])
entered (e ∷ log) = entered log

-- The card's file has these bytes, its reads bring a next part of them, at least a byte, until there is
-- no more, and the server accepts whatever is pushed.
pub record IsTaking (E : Libssh) (content : Text) : Type 0 where
  pub makes : (log : Log) (s : ℕ) (path : Text) → E.allocates log (ssh_scp_new_write s path) ≡ true
  pub begins : (log : Log) (scp : ℕ) → E.returns log (ssh_scp_init scp) ≡ ssh_ok
  pub enters :
      (log : Log) (scp : ℕ) (token : Text)
      → E.returns log (ssh_scp_push_directory scp token) ≡ ssh_ok
  pub sized : (log : Log) → E.returns log sd_size ≡ pos (length content)
  pub accepts :
      (log : Log) (scp : ℕ) (name : Text) (size : ℤ)
      → E.returns log (ssh_scp_push_file scp name size) ≡ ssh_ok
  pub takes :
      (log : Log) (scp : ℕ) (bytes : Text) → E.returns log (ssh_scp_write scp bytes) ≡ ssh_ok
  pub reads :
      (log : Log) (n : ℕ) (rest : Text)
      → 0 < n
      → read_out E log ++ rest ≡ content
      → 0 < length rest
      → let got = E.receives log (sd_read n) in
        (more : Text) × (rest ≡ got ++ more) × (0 < length got) × (length got ≤ n)
  pub lasts :
      (log : Log) (rest : Text)
      → read_out E log ++ rest ≡ content
      → 0 < length rest
      → E.holds log sd_available ≡ true
  pub ends : (log : Log) → read_out E log ≡ content → E.holds log sd_available ≡ false

-- The last part of a path, as far as a C string goes.
abbrev pub base_name : StringApi → Text → Text
base_name S filepath =
    c_str (S.substring filepath (next_index (S.last_index_of filepath b'/')) (length filepath))

-- It has sent the file, announced before, to these directories.
abbrev pub Sends : {A : Type 0} → List Text → Text → Text → Outcome A → Type 0
Sends path name content (done a after) =
    (entered after ≡ path)
    × (announced after ≡ some (name, pos (length content)))
    × (pushed after ≡ content)
Sends path name content undefined = ⊥
Sends path name content out_of_fuel = ⊥

-- The log behind the directories.
abbrev pub enter : ℕ → List Text → Log → Log
enter scp [] log = log
enter scp (token ∷ tokens) log = enter scp tokens (called (ssh_scp_push_directory scp token) ∷ log)

pub entered-enter :
    (scp : ℕ) (tokens : List Text) (log : Log)
    → entered (enter scp tokens log) ≡ entered log ++ tokens
entered-enter scp [] log = sym (append-nil (entered log))
entered-enter scp (token ∷ tokens) log =
    entered-enter scp tokens (called (ssh_scp_push_directory scp token) ∷ log)
    ∙ append_assoc (entered log) (token ∷ []) tokens

module _ (E : Libssh) (content : Text) (taking : IsTaking E content) where
  pub send_file-Sends :
      (path : List Text) (name : Text) (fuel scp : ℕ) (rest : Text) (log : Log)
      → read_out E log ++ rest ≡ content
      → pushed log ≡ read_out E log
      → entered log ≡ path
      → announced log ≡ some (name, pos (length content))
      → length rest < fuel
      → Sends path name content (send_file E fuel scp log)
  unfolding send_file send_chunk
  send_file-Sends path name zero scp rest log so_far same dirs told f = absurd (omega arith)
  send_file-Sends path name (suc fuel) scp [] log so_far same dirs told f =
      let all = sym (append-nil (read_out E log)) ∙ so_far in
      rw (taking.ends log all, send_file) (dirs, told, same ∙ all)
  send_file-Sends path name (suc fuel) scp (c ∷ rest) log so_far same dirs told f =
      let asked = called sd_available ∷ log in
      let got = E.receives asked (sd_read 512) in
      let goes_on = taking.lasts log (c ∷ rest) so_far (ground arith) in
      let (more, parts, some_bytes, not_more) =
        taking.reads asked 512 (c ∷ rest) (omega arith) so_far (ground arith) in
      let lengths = ap length parts ∙ length-append got more in
      let read = called (sd_read 512) ∷ asked in
      let not_empty : (length got == 0) ≡ false = ground arith in
      rw (goes_on, send_file, send_chunk, not_empty, taking.takes read scp got)
        (send_file-Sends path name fuel scp more (called (ssh_scp_write scp got) ∷ read)
          (append_assoc (read_out E log) got more
            ∙ ap (λ (t : Text). read_out E log ++ t) (sym parts)
            ∙ so_far)
          (ap (λ (t : Text). t ++ got) same) dirs told (omega arith))

  pub push_directories-Enters :
      (scp : ℕ) (tokens : List Text) (log : Log)
      → push_directories E scp tokens log ≡ done none (enter scp tokens log)
  unfolding push_directories
  push_directories-Enters scp [] log = refl
  push_directories-Enters scp (token ∷ tokens) log =
      rw (taking.enters log scp token, push_directories)
        (push_directories-Enters scp tokens (called (ssh_scp_push_directory scp token) ∷ log))
