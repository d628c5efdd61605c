-- ===== src/Ssh/Scp/Handles.antt =====
-- The transfers give back their handles.
use esp.Base.{
  ℕ, zero, suc, ◌+◌, ◌≡◌, ◌≢◌, refl, inl, inr, Bool, true, false, Bool-cases, Option, none, some,
  List, [], ◌∷◌, length, if◌then◌else◌, arith,
}
use esp.Base.Bytes.{Text, text, c_str}
use esp.Base.Int.{ℤ, int_eq}
use esp.Strings.{StringApi, next_index}
use esp.Ssh.{
  create, Libssh, Log, M, Outcome, done, undefined, out_of_fuel, continue, called, created, pure,
  ◌>>=◌, ssh_scp_new_write, ssh_scp_push_directory, ssh_scp_init, sd_available, sd_open_read,
  sd_size, ssh_scp_push_file,
}
use esp.Ssh.Ledger.{ledger, Opens}
use esp.Ssh.Conn.{Pointer, uninitialised, null, at, Conn, load, ssh_ok, ssh_error}
use esp.Ssh.Scp.{
  close_scp, push_directories, send_chunk, send_file, push_file, write_on, scp_write, directories,
}

-- From the first log to the second so many more transfers are open, and nothing else.
pub record OpensScp (n : ℕ) (before after : Log) : Type 0 where
  pub scps_opened :
      (ledger after).scps_made + (ledger before).scps_freed
      ≡ (ledger before).scps_made + (ledger after).scps_freed + n
  pub others : Opens 0 0 0 before after

-- What a computation opens if it ends; nothing undefined happens.
abbrev pub Leaves : {A : Type 0} → ℕ → Log → Outcome A → Type 0
Leaves n before (done a after) = OpensScp n before after
Leaves n before undefined = ⊥
Leaves n before out_of_fuel = Unit

Leaves-continue :
    {A B : Type 0} (k n : ℕ) (before : Log) (m : Outcome A) (f : A → M B)
    → Leaves k before m
    → ((a : A) (log : Log) → OpensScp k before log → Leaves n before (f a log))
    → Leaves n before (continue m f)
Leaves-continue k n before (done a log) f l h = h a log l
Leaves-continue k n before undefined f l h = absurd l
Leaves-continue k n before out_of_fuel f l h = tt

module _ (E : Libssh) (before : Log) (k : ℕ) where
  push_directories-Leaves :
      (scp : ℕ) (tokens : List Text) (log : Log)
      → OpensScp k before log
      → Leaves k before (push_directories E scp tokens log)
  unfolding push_directories
  push_directories-Leaves scp [] log o = o
  push_directories-Leaves scp (token ∷ tokens) log o =
      let after = called (ssh_scp_push_directory scp token) ∷ log in
      ground (arith, push_directories-Leaves scp tokens after (ground arith))

  send_chunk-Leaves :
      (scp : ℕ) (log : Log) → OpensScp k before log → Leaves k before (send_chunk E scp log)
  unfolding send_chunk
  send_chunk-Leaves scp log o = ground arith

  send_more :
      (next : M (Unit {0})) (goes_on : Bool) (log : Log)
      → Leaves k before (next log)
      → OpensScp k before log
      → Leaves {A = Unit {0}} k before ((if goes_on then next else pure tt) log)
  send_more next true log l o = l
  send_more next false log l o = o

  send_file-Leaves :
      (fuel scp : ℕ) (log : Log)
      → OpensScp k before log
      → Leaves k before (send_file E fuel scp log)
  unfolding send_file
  send_file-Leaves zero scp log o = tt
  send_file-Leaves (suc fuel) scp log o =
      let after = called sd_available ∷ log in
      elim (Bool-cases (E.holds log sd_available)) [
        | inl e ↦
            rw (e, send_file)
              (Leaves-continue k k before (send_chunk E scp after) _
                (send_chunk-Leaves scp after (omega arith))
                (λ goes_on log' o'.
                  send_more (send_file E fuel scp) goes_on log' (send_file-Leaves fuel scp log' o')
                    o'))
        | inr e ↦ rw (e, send_file) (omega arith)
      ]

  -- A computation with one more transfer open, which it gives back.
  close_scp-Leaves :
      (scp : ℕ) (rc : ℤ) (log : Log)
      → OpensScp (k + 1) before log
      → Leaves k before (close_scp E scp rc log)
  unfolding close_scp
  close_scp-Leaves scp rc log o = ground arith

module _ (E : Libssh) (S : StringApi) (fuel : ℕ) (before : Log) where
  push_file-Leaves :
      (scp : ℕ) (filepath : Text) (log : Log)
      → OpensScp 1 before log
      → Leaves 0 before (push_file E S fuel scp filepath log)
  unfolding push_file close_scp
  push_file-Leaves scp filepath log o =
      let opened = called (sd_open_read (text "/downloads/upload")) ∷ log in
      let sized = called sd_size ∷ opened in
      let start = next_index (S.last_index_of filepath b'/') in
      let name = c_str (S.substring filepath start (length filepath)) in
      let push = ssh_scp_push_file scp name (E.returns opened sd_size) in
      let pushed = called push ∷ sized in
      elim (Bool-cases (int_eq (E.returns sized push) ssh_ok)) [
        | inl e ↦
            rw (e, push_file)
              (Leaves-continue 1 0 before (send_file E fuel scp pushed) _
                (send_file-Leaves E before 1 fuel scp pushed (omega arith))
                (λ r log' o'. omega arith))
        | inr e ↦ rw (e, push_file) (omega arith)
      ]

  after_directories :
      (scp : ℕ) (filepath : Text) (failed : Option ℤ) (log : Log)
      → OpensScp 1 before log
      → Leaves 0 before (
          (elim failed as (λ f. M ℤ) [
            | some rc ↦ close_scp E scp rc
            | none ↦ push_file E S fuel scp filepath
          ])
            log)
  after_directories scp filepath none log o = push_file-Leaves scp filepath log o
  after_directories scp filepath (some rc) log o = close_scp-Leaves E before 0 scp rc log o

  write_on-Leaves :
      (scp : ℕ) (filepath : Text) (log : Log)
      → OpensScp 1 before log
      → Leaves 0 before (write_on E S fuel scp filepath log)
  unfolding write_on
  write_on-Leaves scp filepath log o =
      let after = called (ssh_scp_init scp) ∷ log in
      elim (Bool-cases (int_eq (E.returns log (ssh_scp_init scp)) ssh_ok)) [
        | inl e ↦
            rw (e, write_on)
              (Leaves-continue 1 0 before (push_directories E scp (directories S filepath) after) _
                (push_directories-Leaves E before 1 scp (directories S filepath) after
                  (omega arith))
                (after_directories scp filepath))
        | inr e ↦ rw (e, write_on) (omega arith)
      ]

module _ (E : Libssh) (S : StringApi) (fuel : ℕ) where
  write_from :
      (s : ℕ) (filepath : Text) (log : Log)
      → Leaves 0 log (
          continue (create E (ssh_scp_new_write s (text "/home/alext/")) log) λ made.
            elim made as (λ m. M ℤ) [
              | none ↦ pure ssh_error
              | some scp ↦ write_on E S fuel scp filepath
            ])
  write_from s filepath log =
      let new = ssh_scp_new_write s (text "/home/alext/") in
      elim (Bool-cases (E.allocates log new)) [
        | inl e ↦ rw e (
            write_on-Leaves E S fuel log (suc (length log)) filepath (created new ∷ log)
              (omega arith))
        | inr e ↦ rw e (omega arith)
      ]

  write_pointer :
      (p : Pointer) (filepath : Text) (log : Log)
      → p ≢ uninitialised
      → Leaves 0 log (
          continue (load p log) λ s.
            create E (ssh_scp_new_write s (text "/home/alext/")) >>= λ made.
            elim made as (λ m. M ℤ) [
              | none ↦ pure ssh_error
              | some scp ↦ write_on E S fuel scp filepath
            ])
  write_pointer uninitialised filepath log h = absurd (h refl)
  write_pointer null filepath log h = write_from 0 filepath log
  write_pointer (at s) filepath log h = write_from s filepath log

  -- On a connection whose session pointer has a value, nothing that `scp_write` does is undefined, and
  -- when it ends, successfully or at any of its errors, it has given back its transfer.
  pub scp_write-Leaves :
      (c : Conn) (filepath : Text) (log : Log)
      → c.session ≢ uninitialised
      → Leaves 0 log (scp_write E S fuel c filepath log)
  unfolding scp_write
  scp_write-Leaves c filepath log h = write_pointer c.session filepath log h
