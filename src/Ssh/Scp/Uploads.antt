-- ===== src/Ssh/Scp/Uploads.antt =====
-- A file from the SD card to a server, by `scp_write`.

use esp.Base.{ℕ, suc, ◌≡◌, ◌≢◌, ◌<◌, refl, ap, ◌∙◌, none, List, some, [], ◌∷◌, ◌++◌, length}
use esp.Base.Bytes.{Text, text}
use esp.Base.Int.{ℤ, pos}
use esp.Strings.{StringApi}
use esp.Ssh.{
  create, Libssh, Log, M, Outcome, done, undefined, out_of_fuel, continue, called, created, pure,
  ◌>>=◌, ◌>>◌, tell, ssh_scp_new_write, ssh_scp_init, ssh_scp_push_file, sd_size, sd_open_read,
  sd_close,
}
use esp.Ssh.Conn.{Pointer, uninitialised, null, at, Conn, load, ssh_ok, ssh_error}
use esp.Ssh.Scp.Handles.{OpensScp, Leaves, scp_write-Leaves}
use esp.Ssh.Scp.{close_scp, push_file, write_on, scp_write, directories}
use esp.Ssh.Scp.Pushing.{
  IsTaking, Sends, base_name, pushed, announced, entered, enter, entered-enter, send_file-Sends,
  push_directories-Enters,
}

-- It returns SSH_OK with its transfer given back, and has sent the file to the directories that `filepath`
-- names, under its last part, with its size announced before.
abbrev pub Uploads : StringApi → Text → Text → Log → Outcome ℤ → Type 0
Uploads S filepath content before (done rc after) =
    (rc ≡ ssh_ok)
    × (entered after ≡ directories S filepath)
    × (announced after ≡ some (base_name S filepath, pos (length content)))
    × (pushed after ≡ content)
    × OpensScp 0 before after
Uploads S filepath content before undefined = ⊥
Uploads S filepath content before out_of_fuel = ⊥

module _ (E : Libssh) (content : Text) (taking : IsTaking E content) (S : StringApi) (fuel : ℕ)
    (enough : length content < fuel) (filepath : Text) where
  abbrev name : Text
  name = base_name S filepath

  -- What is left when all goes well.
  abbrev Uploaded : List Text → Outcome ℤ → Type 0
  Uploaded path (done rc after) = (rc ≡ ssh_ok) × Sends path name content (done rc after)
  Uploaded path undefined = ⊥
  Uploaded path out_of_fuel = ⊥

  closed :
      (path : List Text) (scp : ℕ) (m : Outcome (Unit {0}))
      → Sends path name content m
      → Uploaded path (continue m (λ r. tell E sd_close >> close_scp E scp ssh_ok))
  unfolding close_scp
  closed path scp (done r log) s = (refl, s)
  closed path scp undefined s = s
  closed path scp out_of_fuel s = s

  push_file-Uploaded :
      (path : List Text) (scp : ℕ) (log : Log)
      → entered log ≡ path
      → Uploaded path (push_file E S fuel scp filepath log)
  unfolding push_file
  push_file-Uploaded path scp log dirs =
      let opened = called (sd_open_read (text "/downloads/upload")) ∷ log in
      let sized = called sd_size ∷ opened in
      rw (taking.sized opened, push_file, taking.accepts sized scp name (pos (length content)))
        (closed path scp _ (
          send_file-Sends E content taking path name fuel scp content
            (called (ssh_scp_push_file scp name (pos (length content))) ∷ sized) refl refl dirs refl
            enough))

  write_on-Uploaded :
      (scp : ℕ) (log : Log)
      → entered log ≡ []
      → Uploaded (directories S filepath) (write_on E S fuel scp filepath log)
  unfolding write_on
  write_on-Uploaded scp log none_yet =
      let after = called (ssh_scp_init scp) ∷ log in
      rw
        (
          taking.begins log scp,
          write_on,
          push_directories-Enters E content taking scp (directories S filepath) after,
        )
        (push_file-Uploaded (directories S filepath) scp (enter scp (directories S filepath) after)
          (entered-enter scp (directories S filepath) after
            ∙ ap (λ (d : List Text). d ++ directories S filepath) none_yet))

  write_from-Uploaded :
      (s : ℕ) (log : Log)
      → Uploaded (directories S filepath) (
          continue (create E (ssh_scp_new_write s (text "/home/alext/")) log) λ made.
            elim made as (λ m. M ℤ) [
              | none ↦ pure ssh_error
              | some scp ↦ write_on E S fuel scp filepath
            ])
  write_from-Uploaded s log =
      let new = ssh_scp_new_write s (text "/home/alext/") in
      rw (taking.makes log s (text "/home/alext/"))
        (write_on-Uploaded (suc (length log)) (created new ∷ log) refl)

  write_pointer-Uploaded :
      (p : Pointer) (log : Log)
      → p ≢ uninitialised
      → Uploaded (directories S filepath) (
          continue (load p log) λ s.
            create E (ssh_scp_new_write s (text "/home/alext/")) >>= λ made.
            elim made as (λ m. M ℤ) [
              | none ↦ pure ssh_error
              | some scp ↦ write_on E S fuel scp filepath
            ])
  write_pointer-Uploaded uninitialised log h = absurd (h refl)
  write_pointer-Uploaded null log h = write_from-Uploaded 0 log
  write_pointer-Uploaded (at s) log h = write_from-Uploaded s log

  scp_write-Uploaded :
      (c : Conn) (log : Log)
      → c.session ≢ uninitialised
      → Uploaded (directories S filepath) (scp_write E S fuel c filepath log)
  unfolding scp_write
  scp_write-Uploaded c log h = write_pointer-Uploaded c.session log h

  leaves :
      (before : Log) (m : Outcome ℤ)
      → Uploaded (directories S filepath) m
      → Leaves 0 before m
      → Uploads S filepath content before m
  leaves before (done rc after) (e, (d, n, b)) o = (e, d, n, b, o)
  leaves before undefined u o = u
  leaves before out_of_fuel u o = u

  -- With a card that holds a file and a server that accepts all that is pushed, `scp_write` on a connection
  -- whose session pointer has a value ends with SSH_OK, with nothing undefined and its transfer given
  -- back. It has entered the directories of the path in their order, announced the path's last part with
  -- the file's size, and sent the bytes of the file. Fuel of one more than the bytes is enough.
  pub scp_write-Uploads :
      (c : Conn) (log : Log)
      → c.session ≢ uninitialised
      → Uploads S filepath content log (scp_write E S fuel c filepath log)
  scp_write-Uploads c log h =
      leaves log (scp_write E S fuel c filepath log) (scp_write-Uploaded c log h)
        (scp_write-Leaves E S fuel c filepath log h)
