-- ===== src/Ssh/Scp/Sending.antt =====
-- When an upload to a server comes to an end.
use esp.Base.{
  ℕ, zero, suc, ◌+◌, ◌≡◌, ◌≢◌, ◌≤◌, ◌<◌, refl, inl, inr, Bool, true, false, Bool-cases, Option,
  none, some, List, [], ◌∷◌, length, if◌then◌else◌, arith,
}
use esp.Base.Bytes.{Text, text, c_str}
use esp.Base.Int.{ℤ, int_eq}
use esp.Strings.{StringApi, next_index}
use esp.Ssh.{
  create, Libssh, Log, M, Outcome, done, undefined, out_of_fuel, continue, called, created, pure,
  ssh_scp_new_write, ssh_scp_push_directory, ssh_scp_init, sd_available, sd_open_read, sd_size,
  ssh_scp_push_file,
}
use esp.Ssh.Returns.{Grows}
use esp.Ssh.Login.Ends.{Ends, Ends-continue}
use esp.Ssh.Conn.{Pointer, uninitialised, null, at, Conn, load, ssh_ok, ssh_error}
use esp.Ssh.Scp.{
  close_scp, push_directories, send_chunk, send_file, push_file, write_on, scp_write, directories,
}
use esp.Ssh.Scp.Handles.{OpensScp, Leaves, scp_write-Leaves}

-- From the call with the number `n` on the file has nothing more to read.
pub record IsShort (E : Libssh) (n : ℕ) : Type 0 where
  pub at_end : (log : Log) → n ≤ length log → E.holds log sd_available ≡ false

module _ (E : Libssh) where
  send_chunk-Grows : (scp : ℕ) (log : Log) → Grows log (send_chunk E scp log)
  unfolding send_chunk
  send_chunk-Grows scp log = ground arith

  next_chunk :
      (next : M (Unit {0})) (before : Log) (m : Outcome Bool)
      → Grows before m
      → ((log : Log) → length before ≤ length log → Ends (next log))
      → Ends (continue m λ goes_on. if goes_on then next else pure tt)
  next_chunk next before (done true log) g h = h log g
  next_chunk next before (done false log) g h = tt
  next_chunk next before undefined g h = g
  next_chunk next before out_of_fuel g h = g

  send_file-Ends :
      (n : ℕ)
      → IsShort E n
      → (fuel scp : ℕ) (log : Log) → 0 < fuel
      → n + 1 ≤ length log + fuel
      → Ends (send_file E fuel scp log)
  unfolding send_file
  send_file-Ends n short zero scp log p b = absurd (omega arith)
  send_file-Ends n short (suc fuel) scp log p b = elim (Bool-cases (E.holds log sd_available)) [
    | inr e ↦ rw (e, send_file) tt
    | inl e ↦
        let early : length log < n = ground (arith, short.at_end log) in
        let after = called sd_available ∷ log in
        rw (e, send_file)
          (next_chunk (send_file E fuel scp) after (send_chunk E scp after)
            (send_chunk-Grows scp after)
            (λ log' g. send_file-Ends n short fuel scp log' (omega arith) (omega arith)))
  ]

  push_directories-Ends :
      (scp : ℕ) (tokens : List Text) (log : Log) → Ends (push_directories E scp tokens log)
  unfolding push_directories
  push_directories-Ends scp [] log = tt
  push_directories-Ends scp (token ∷ tokens) log =
      ground
        (arith, push_directories-Ends scp tokens (called (ssh_scp_push_directory scp token) ∷ log))

module _ (E : Libssh) (S : StringApi) (fuel : ℕ)
    (ends : (scp : ℕ) (log : Log) → Ends (send_file E fuel scp log)) where
  push_file-Ends :
      (scp : ℕ) (filepath : Text) (log : Log) → Ends (push_file E S fuel scp filepath log)
  unfolding push_file close_scp
  push_file-Ends scp filepath log =
      let opened = called (sd_open_read (text "/downloads/upload")) ∷ log in
      let sized = called sd_size ∷ opened in
      let start = next_index (S.last_index_of filepath b'/') in
      let name = c_str (S.substring filepath start (length filepath)) in
      let push = ssh_scp_push_file scp name (E.returns opened sd_size) in
      elim (Bool-cases (int_eq (E.returns sized push) ssh_ok)) [
        | inl e ↦
            rw (e, push_file)
              (Ends-continue (send_file E fuel scp (called push ∷ sized)) _
                (ends scp (called push ∷ sized)) (λ r log'. tt))
        | inr e ↦ rw (e, push_file) tt
      ]

  after_directories :
      (scp : ℕ) (filepath : Text) (failed : Option ℤ) (log : Log)
      → Ends (
          (elim failed as (λ f. M ℤ) [
            | some rc ↦ close_scp E scp rc
            | none ↦ push_file E S fuel scp filepath
          ])
            log)
  unfolding close_scp
  after_directories scp filepath none log = push_file-Ends scp filepath log
  after_directories scp filepath (some rc) log = tt

  write_on-Ends :
      (scp : ℕ) (filepath : Text) (log : Log) → Ends (write_on E S fuel scp filepath log)
  unfolding write_on
  write_on-Ends scp filepath log =
      let after = called (ssh_scp_init scp) ∷ log in
      elim (Bool-cases (int_eq (E.returns log (ssh_scp_init scp)) ssh_ok)) [
        | inl e ↦
            rw (e, write_on)
              (Ends-continue (push_directories E scp (directories S filepath) after) _
                (push_directories-Ends E scp (directories S filepath) after)
                (after_directories scp filepath))
        | inr e ↦ rw (e, write_on) tt
      ]

  write_from-Ends :
      (s : ℕ) (filepath : Text) (log : Log)
      → Ends (
          continue (create E (ssh_scp_new_write s (text "/home/alext/")) log) λ made.
            elim made as (λ m. M ℤ) [
              | none ↦ pure ssh_error
              | some scp ↦ write_on E S fuel scp filepath
            ])
  write_from-Ends s filepath log =
      let new = ssh_scp_new_write s (text "/home/alext/") in
      elim (Bool-cases (E.allocates log new)) [
        | inl e ↦ rw e (write_on-Ends (suc (length log)) filepath (created new ∷ log))
        | inr e ↦ rw e tt
      ]

  load-Ends :
      {A : Type 0} (p : Pointer) (f : ℕ → M A) (log : Log)
      → p ≢ uninitialised
      → ((s : ℕ) → Ends (f s log))
      → Ends (continue (load p log) f)
  load-Ends uninitialised f log h k = absurd (h refl)
  load-Ends null f log h k = k 0
  load-Ends (at s) f log h k = k s

  scp_write-Ends :
      (c : Conn) (filepath : Text) (log : Log)
      → c.session ≢ uninitialised
      → Ends (scp_write E S fuel c filepath log)
  unfolding scp_write
  scp_write-Ends c filepath log h =
      load-Ends c.session _ log h (λ s. write_from-Ends s filepath log)

-- A result, with all transfers given back.
abbrev pub GivesBackScp : Log → Outcome ℤ → Type 0
GivesBackScp before (done rc after) = OpensScp 0 before after
GivesBackScp before undefined = ⊥
GivesBackScp before out_of_fuel = ⊥

both : (before : Log) (m : Outcome ℤ) → Ends m → Leaves 0 before m → GivesBackScp before m
both before (done rc after) e l = l
both before undefined e l = e
both before out_of_fuel e l = e

-- On a connection whose session pointer has a value, `scp_write` ends, successfully or at any of its errors,
-- if from some call on the file on the SD card has nothing more to read: fuel of one more than the
-- number of that call is enough. Nothing that it does is undefined, it has given back its
-- transfer, and it has opened nothing else.
pub scp_write-GivesBackScp :
    (E : Libssh) (n : ℕ) (S : StringApi) (c : Conn) (filepath : Text) (log : Log)
    → IsShort E n
    → c.session ≢ uninitialised
    → GivesBackScp log (scp_write E S (suc n) c filepath log)
scp_write-GivesBackScp E n S c filepath log short h =
    both log (scp_write E S (suc n) c filepath log)
      (scp_write-Ends E S (suc n)
        (λ scp before. send_file-Ends E n short (suc n) scp before (omega arith) (omega arith)) c
        filepath log h)
      (scp_write-Leaves E S (suc n) c filepath log h)
