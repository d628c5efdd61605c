-- ===== src/Ssh/Scp/Fetching.antt =====
-- The bytes that `scp_read` brings from a server to the SD card.
use mathlib.Core.List.{append-nil, append_assoc}
use esp.Base.{
  Option, none, some, ℕ, zero, suc, ◌^◌, ◌≡◌, ◌≤◌, ◌<◌, refl, sym, ap, ◌∙◌, inl, inr, Bool, true,
  false, Bool-cases, [], ◌∷◌, ◌++◌, length, length-append, arith, ◌==◌,
}
use esp.Base.Bytes.{Text}
use esp.Base.Int.{pos, to_uint32}
use esp.Ssh.{
  Libssh, Log, Outcome, done, undefined, out_of_fuel, called, created, ssh_scp_new_read,
  ssh_scp_read, sd_write, ssh_scp_init, ssh_scp_pull_request, ssh_scp_request_get_size,
  ssh_scp_accept_request, sd_open_write,
}
use esp.Ssh.Conn.{ssh_ok}
use esp.Ssh.Transfer.{sub32}
use esp.Ssh.Scp.Receiving.{chunk, chunk_lem, rest_lem}
use esp.Ssh.Scp.{receive_file, ssh_scp_request_newfile, ssh_scp_request_eof}

-- What the last transfer has received.
abbrev pub received : Libssh → Log → Text
received E [] = []
received E (called (ssh_scp_read scp n) ∷ log) =
    received E log ++ E.receives log (ssh_scp_read scp n)
received E (created (ssh_scp_new_read s path) ∷ log) = []
received E (e ∷ log) = received E log

-- Whether the last transfer has accepted its file.
abbrev pub accepted : Log → Bool
accepted [] = false
accepted (called (ssh_scp_accept_request scp) ∷ log) = true
accepted (created (ssh_scp_new_read s path) ∷ log) = false
accepted (e ∷ log) = accepted log

-- The path that the last transfer was made for.
abbrev pub opened : Log → Option Text
opened [] = none
opened (created (ssh_scp_new_read s path) ∷ log) = some path
opened (e ∷ log) = opened log

-- The file on the SD card that was last opened to be written, from what the log writes to it.
abbrev pub sd_file : Log → Text
sd_file [] = []
sd_file (called (sd_open_write path) ∷ log) = []
sd_file (called (sd_write bytes) ∷ log) = sd_file log ++ bytes
sd_file (e ∷ log) = sd_file log

-- At this path the server has a file with these bytes. In a transfer that was made for the path it is offered
-- once, its size is told, and each read brings a next part of it, at least a byte and at most as many as
-- were asked for. Of other paths nothing is said. The card can be written.
pub record IsServing (E : Libssh) (path content : Text) : Type 0 where
  pub makes : (log : Log) (s : ℕ) → E.allocates log (ssh_scp_new_read s path) ≡ true
  pub begins :
      (log : Log) (scp : ℕ) → opened log ≡ some path → E.returns log (ssh_scp_init scp) ≡ ssh_ok
  pub offers :
      (log : Log) (scp : ℕ)
      → opened log ≡ some path
      → accepted log ≡ false
      → E.returns log (ssh_scp_pull_request scp) ≡ ssh_scp_request_newfile
  pub tells :
      (log : Log) (scp : ℕ)
      → opened log ≡ some path
      → E.returns log (ssh_scp_request_get_size scp) ≡ pos (length content)
  pub opens : (log : Log) (file : Text) → E.holds log (sd_open_write file) ≡ true
  pub brings :
      (log : Log) (scp n : ℕ) (rest : Text)
      → opened log ≡ some path
      → 0 < n
      → received E log ++ rest ≡ content
      → 0 < length rest
      → let got = E.receives log (ssh_scp_read scp n) in
        (more : Text) × (rest ≡ got ++ more)
        × (0 < length got)
        × (length got ≤ n)
        × (E.returns log (ssh_scp_read scp n) ≡ pos (length got))
  pub ends :
      (log : Log) (scp : ℕ)
      → opened log ≡ some path
      → accepted log ≡ true
      → received E log ≡ content
      → E.returns log (ssh_scp_pull_request scp) ≡ ssh_scp_request_eof

-- It ends well, with the whole file received and written.
abbrev pub Has : Libssh → Text → Text → Outcome Bool → Type 0
Has E path content (done complete log) =
    (complete ≡ true)
    × (received E log ≡ content)
    × (sd_file log ≡ content)
    × (accepted log ≡ true)
    × (opened log ≡ some path)
Has E path content undefined = ⊥
Has E path content out_of_fuel = ⊥

whole : (s rest content : Text) → length rest ≡ 0 → s ++ rest ≡ content → s ≡ content
whole s [] content e h = sym (append-nil s) ∙ h
whole s (c ∷ rest) content e h = ground arith

module _ (E : Libssh) (path content : Text) (serving : IsServing E path content) where
  pub receive_file-Has :
      (fuel scp remaining : ℕ) (rest : Text) (log : Log)
      → received E log ++ rest ≡ content
      → sd_file log ≡ received E log
      → accepted log ≡ true
      → opened log ≡ some path
      → remaining ≡ length rest
      → remaining < fuel
      → remaining < 2 ^ 32
      → Has E path content (receive_file E fuel scp remaining log)
  unfolding receive_file chunk
  receive_file-Has zero scp remaining rest log so_far same acc o l f b = absurd (omega arith)
  receive_file-Has (suc fuel) scp remaining rest log so_far same acc o l f b =
      elim (Bool-cases (remaining == 0)) [
        | inl e ↦
            rw (e, receive_file)
              (
                refl,
                whole (received E log) rest content (ground arith) so_far,
                same ∙ whole (received E log) rest content (ground arith) so_far,
                acc,
                o,
              )
        | inr e ↦
            let fits = chunk_lem remaining (ground arith) in
            let read = ssh_scp_read scp (chunk remaining) in
            let (more, parts, some_bytes, not_more, told) =
              serving.brings log scp (chunk remaining) rest o fits.0 so_far (ground arith) in
            let got = E.receives log read in
            let left = sub32 remaining (to_uint32 (pos (length got))) in
            let lengths = ap length parts ∙ length-append got more in
            let fewer = rest_lem remaining (length got) (omega arith) b in
            let after = called (sd_write got) ∷ called read ∷ log in
            rw (e, receive_file, told)
              (receive_file-Has fuel scp left more after
                (append_assoc (received E log) got more
                  ∙ ap (λ (t : Text). received E log ++ t) (sym parts)
                  ∙ so_far)
                (ap (λ (t : Text). t ++ got) same) acc o (omega arith) (omega arith) (omega arith))
      ]
