-- ===== src/Ssh/Scp/Receiving.antt =====
-- `scp_read`: its handle, and the bytes that it writes to the SD card.
use esp.Base.{
  ℕ, zero, suc, ◌+◌, ◌^◌, ◌≡◌, ◌≤◌, ◌<◌, refl, ◌⊎◌, inl, inr, Bool, true, false, Bool-cases, none,
  some, [], ◌∷◌, length, if◌then◌else◌, arith, ◌==◌, ltb,
}
use esp.Base.Bytes.{Text, text, c_str}
use esp.Base.Int.{ℤ, int_eq, pos, to_uint32, is_negative}
use esp.Ssh.{
  create, Libssh, Log, M, Outcome, done, undefined, out_of_fuel, continue, called, created, pure,
  fault, tell, ◌>>=◌, ◌>>◌, ssh_scp_new_read, ssh_scp_read, sd_write, ssh_scp_init,
  ssh_scp_pull_request, ssh_scp_request_get_size, ssh_scp_request_get_filename,
  ssh_scp_request_get_permissions, ssh_scp_accept_request, sd_open_write,
}
use esp.Ssh.Conn.{Pointer, uninitialised, null, at, Conn, load, ssh_ok, ssh_error}
use esp.Ssh.Transfer.{sub32}
use esp.Ssh.Scp.{
  close_scp, receive_file, finish_read, accept_file, read_on, scp_read, ssh_scp_request_newfile,
}
use esp.Ssh.Scp.Handles.{OpensScp}

-- What the loop opens: nothing, if it ends.
abbrev Quiet : {A : Type 0} → ℕ → Log → Outcome A → Type 0
Quiet n before (done a after) = OpensScp n before after
Quiet n before undefined = Unit
Quiet n before out_of_fuel = Unit

-- The transfer is given back, or it stays open and the result is SSH_ERROR.
abbrev pub Returned : Log → Outcome ℤ → Type 0
Returned before (done rc after) =
    OpensScp 0 before after ⊎ (OpensScp 1 before after × (rc ≡ ssh_error))
Returned before undefined = Unit
Returned before out_of_fuel = Unit

module _ (E : Libssh) (before : Log) where
  after_receive :
      (next : ℕ → M Bool) (remaining : ℕ) (rc : ℤ) (bytes : Text) (log : Log)
      → OpensScp 1 before log
      → ((remaining : ℕ) (log : Log) → OpensScp 1 before log → Quiet 1 before (next remaining log))
      → Quiet {A = Bool} 1 before (
          (if int_eq rc ssh_error
              then pure false
              else if is_negative rc
              then fault
              else (tell E (sd_write bytes) >> next (sub32 remaining (to_uint32 rc))))
            log)
  after_receive next remaining rc bytes log o h =
      ground
        (arith, h (sub32 remaining (to_uint32 rc)) (called (sd_write bytes) ∷ log) (omega arith))

  receive_file-Quiet :
      (fuel scp remaining : ℕ) (log : Log)
      → OpensScp 1 before log
      → Quiet 1 before (receive_file E fuel scp remaining log)
  unfolding receive_file
  receive_file-Quiet zero scp remaining log o = tt
  receive_file-Quiet (suc fuel) scp remaining log o =
      let read = ssh_scp_read scp (if ltb remaining 1024 then remaining else 1024) in
      elim (Bool-cases (remaining == 0)) [
        | inl e ↦ rw (e, receive_file) o
        | inr e ↦
            rw (e, receive_file)
              (after_receive (receive_file E fuel scp) remaining (E.returns log read)
                (E.receives log read) (called read ∷ log) (omega arith)
                (receive_file-Quiet fuel scp))
      ]

  finish_read-Returned :
      (scp : ℕ) (complete : Bool) (log : Log)
      → OpensScp 1 before log
      → Returned before (finish_read E scp complete log)
  unfolding finish_read close_scp
  finish_read-Returned scp complete log o = ground arith

  after_file :
      (scp : ℕ) (m : Outcome Bool)
      → Quiet 1 before m
      → Returned before (continue m (finish_read E scp))
  after_file scp (done complete log) q = finish_read-Returned scp complete log q
  after_file scp undefined q = tt
  after_file scp out_of_fuel q = tt

  accept_file-Returned :
      (fuel scp : ℕ) (log : Log)
      → OpensScp 1 before log
      → Returned before (accept_file E fuel scp log)
  unfolding accept_file
  accept_file-Returned fuel scp log o =
      let l1 = called (ssh_scp_request_get_size scp) ∷ log in
      let l2 = called (ssh_scp_request_get_filename scp) ∷ l1 in
      let l3 = called (ssh_scp_request_get_permissions scp) ∷ l2 in
      let l4 = called (ssh_scp_accept_request scp) ∷ l3 in
      let new_file = sd_open_write (text "/downloads/file") in
      let size = to_uint32 (E.returns log (ssh_scp_request_get_size scp)) in
      elim (Bool-cases (E.holds l4 new_file)) [
        | inl e ↦
            rw (e, accept_file)
              (after_file scp (receive_file E fuel scp size (called new_file ∷ l4))
                (receive_file-Quiet fuel scp size (called new_file ∷ l4) (omega arith)))
        | inr e ↦ rw (e, accept_file) (inr (omega arith, refl))
      ]

  read_on-Returned :
      (fuel scp : ℕ) (log : Log) → OpensScp 1 before log → Returned before (read_on E fuel scp log)
  unfolding read_on
  read_on-Returned fuel scp log o =
      let init = called (ssh_scp_init scp) ∷ log in
      let ready = called (ssh_scp_pull_request scp) ∷ init in
      elim (Bool-cases (int_eq (E.returns log (ssh_scp_init scp)) ssh_ok)) [
        | inr e ↦ rw (e, read_on) (inl (omega arith))
        | inl e ↦
            elim (Bool-cases
              (int_eq (E.returns init (ssh_scp_pull_request scp)) ssh_scp_request_newfile)) [
                | inl e' ↦ rw (e, read_on, e') (accept_file-Returned fuel scp ready (omega arith))
                | inr e' ↦ rw (e, read_on, e') (inr (omega arith, refl))
              ]
      ]

module _ (E : Libssh) (fuel : ℕ) where
  read_from :
      (s : ℕ) (filepath : Text) (log : Log)
      → Returned log (
          continue (create E (ssh_scp_new_read s (c_str filepath)) log) λ made.
            elim made as (λ m. M ℤ) [ none ↦ pure ssh_error | some scp ↦ read_on E fuel scp ])
  read_from s filepath log =
      let new = ssh_scp_new_read s (c_str filepath) in
      elim (Bool-cases (E.allocates log new)) [
        | inl e ↦
            rw e (read_on-Returned E log fuel (suc (length log)) (created new ∷ log) (omega arith))
        | inr e ↦ rw e (inl (omega arith))
      ]

  read_pointer :
      (p : Pointer) (filepath : Text) (log : Log)
      → Returned log (
          continue (load p log) λ s. create E (ssh_scp_new_read s (c_str filepath)) >>= λ made.
          elim made as (λ m. M ℤ) [ none ↦ pure ssh_error | some scp ↦ read_on E fuel scp ])
  read_pointer uninitialised filepath log = tt
  read_pointer null filepath log = read_from 0 filepath log
  read_pointer (at s) filepath log = read_from s filepath log

  -- When `scp_read` ends, it has given back its transfer, or it returns SSH_ERROR and keeps one open.
  pub scp_read-Returned :
      (c : Conn) (filepath : Text) (log : Log) → Returned log (scp_read E fuel c filepath log)
  unfolding scp_read
  scp_read-Returned c filepath log = read_pointer c.session filepath log

-- The bytes that a log writes to the SD card.
abbrev pub written : Log → ℕ
written [] = 0
written (called (sd_write bytes) ∷ log) = length bytes + written log
written (e ∷ log) = written log

-- Every read brings at least one byte, at most as many as were asked for, and as many as it says.
pub record IsSending (E : Libssh) : Type 0 where
  pub brings :
      (log : Log) (scp n : ℕ)
      → 0 < n
      → (0 < length (E.receives log (ssh_scp_read scp n)))
        × (length (E.receives log (ssh_scp_read scp n)) ≤ n)
        × (E.returns log (ssh_scp_read scp n) ≡ pos (length (E.receives log (ssh_scp_read scp n))))

-- The loop ends well, and has written so many bytes more.
abbrev pub Writes : ℕ → Log → Outcome Bool → Type 0
Writes n before (done complete log) = (complete ≡ true) × (written log ≡ written before + n)
Writes n before undefined = ⊥
Writes n before out_of_fuel = ⊥

Writes-after :
    (k n total : ℕ) (before log : Log) (m : Outcome Bool)
    → total ≡ k + n
    → written log ≡ written before + k
    → Writes n log m
    → Writes total before m
Writes-after k n total before log (done complete after) t e w = (w.0, omega arith)
Writes-after k n total before log undefined t e w = w
Writes-after k n total before log out_of_fuel t e w = w

unfoldable pub chunk : ℕ → ℕ
chunk remaining = if ltb remaining 1024 then remaining else 1024

pub chunk_lem :
    (remaining : ℕ) → 0 < remaining → (0 < chunk remaining) × (chunk remaining ≤ remaining)
unfolding chunk
chunk_lem remaining h = ground arith

pub rest_lem :
    (remaining k : ℕ)
    → k ≤ remaining
    → remaining < 2 ^ 32
    → sub32 remaining (to_uint32 (pos k)) + k ≡ remaining
unfolding to_uint32
rest_lem remaining k h b = omega arith

-- With a server that sends, the loop that receives a file of less than 2 ^ 32 bytes ends, with nothing
-- undefined, and writes as many bytes to the SD card as the file has. Fuel of one more than the
-- bytes is enough.
receive_file-Writes :
    (E : Libssh) (fuel scp remaining : ℕ) (log : Log)
    → IsSending E
    → remaining < fuel
    → remaining < 2 ^ 32
    → Writes remaining log (receive_file E fuel scp remaining log)
unfolding receive_file chunk
receive_file-Writes E zero scp remaining log sending f b = absurd (omega arith)
receive_file-Writes E (suc fuel) scp remaining log sending f b =
    elim (Bool-cases (remaining == 0)) [
      | inl e ↦ rw (e, receive_file) (refl, ground arith)
      | inr e ↦
          let small = chunk_lem remaining (ground arith) in
          let read = ssh_scp_read scp (chunk remaining) in
          let got = sending.brings log scp (chunk remaining) small.0 in
          let k = length (E.receives log read) in
          let left = sub32 remaining (to_uint32 (pos k)) in
          let after = called (sd_write (E.receives log read)) ∷ called read ∷ log in
          let rest = rest_lem remaining k (omega arith) b in
          rw (e, receive_file, got.2)
            (Writes-after k left remaining log after _ (omega arith) (omega arith)
              (receive_file-Writes E fuel scp left after sending (omega arith) (omega arith)))
    ]
