-- ===== src/Ssh/Scp/Downloads.antt =====
-- A file from a server to the SD card, by `scp_read`.

use esp.Base.{
  none, some, ℕ, suc, ◌^◌, ◌≡◌, ◌≢◌, ◌<◌, refl, sym, ap, ◌∙◌, inl, inr, Bool, true, false, none,
  some, [], ◌∷◌, ◌++◌, length, arith,
}
use esp.Base.Bytes.{Text, text, c_str}
use esp.Base.Int.{ℤ, pos, to_uint32}
use esp.Ssh.{
  create, Libssh, Log, M, Outcome, done, undefined, out_of_fuel, continue, called, created, pure,
  ◌>>=◌, sd_close, sd_size, sd_flush, ssh_scp_new_read, ssh_scp_init, ssh_scp_pull_request,
  ssh_scp_request_get_size, ssh_scp_request_get_filename, ssh_scp_request_get_permissions,
  ssh_scp_accept_request,
}
use esp.Ssh.Conn.{Pointer, uninitialised, null, at, Conn, load, ssh_ok, ssh_error}
use esp.Ssh.Scp.Receiving.{Returned, scp_read-Returned}
use esp.Ssh.Scp.Handles.{OpensScp}
use esp.Ssh.Scp.{close_scp, finish_read, accept_file, read_on, scp_read, ssh_scp_request_eof}
use esp.Ssh.Scp.Fetching.{IsServing, Has, receive_file-Has, received, accepted, opened, sd_file}

fits_uint32 : (n : ℕ) → n < 2 ^ 32 → to_uint32 (pos n) ≡ n
unfolding to_uint32
fits_uint32 n h = omega arith

-- It returns SSH_OK, and the card's file is the server's.
abbrev pub Fetches : Text → Outcome ℤ → Type 0
Fetches content (done rc after) = (rc ≡ ssh_ok) × (sd_file after ≡ content)
Fetches content undefined = ⊥
Fetches content out_of_fuel = ⊥

-- And its transfer is given back.
abbrev pub Downloads : Text → Log → Outcome ℤ → Type 0
Downloads content before (done rc after) =
    (rc ≡ ssh_ok) × (sd_file after ≡ content) × OpensScp 0 before after
Downloads content before undefined = ⊥
Downloads content before out_of_fuel = ⊥

returned :
    (content : Text) (before : Log) (m : Outcome ℤ)
    → Fetches content m
    → Returned before m
    → Downloads content before m
returned content before (done rc after) (e, w) (inl o) = (e, w, o)
returned content before (done rc after) (e, w) (inr (o, e')) = ground arith
returned content before undefined f r = f
returned content before out_of_fuel f r = f

module _ (E : Libssh) (filepath content : Text)
    (serving : IsServing E (c_str filepath) content) where
  finish_read-Fetches :
      (scp : ℕ) (log : Log)
      → received E log ≡ content
      → sd_file log ≡ content
      → accepted log ≡ true
      → opened log ≡ some (c_str filepath)
      → Fetches content (finish_read E scp true log)
  unfolding finish_read close_scp
  finish_read-Fetches scp log r w a o =
      let closed = called sd_close ∷ called sd_size ∷ called sd_flush ∷ log in
      let e : E.returns closed (ssh_scp_pull_request scp) ≡ ssh_scp_request_eof =
        serving.ends closed scp o a r in
      rw (e, finish_read) (refl, w)

  after_file :
      (scp : ℕ) (m : Outcome Bool)
      → Has E (c_str filepath) content m
      → Fetches content (continue m (finish_read E scp))
  after_file scp (done complete log) (e, r, w, a, o) = rw e (finish_read-Fetches scp log r w a o)
  after_file scp undefined h = h
  after_file scp out_of_fuel h = h

  module _ (fuel : ℕ) (enough : length content < fuel) (small : length content < 2 ^ 32) where
    accept_file-Fetches :
        (scp : ℕ) (log : Log)
        → received E log ≡ []
        → opened log ≡ some (c_str filepath)
        → Fetches content (accept_file E fuel scp log)
    unfolding accept_file
    accept_file-Fetches scp log r o =
        let sized = called (ssh_scp_request_get_size scp) ∷ log in
        let ready =
          called (ssh_scp_accept_request scp)
          ∷ called (ssh_scp_request_get_permissions scp)
          ∷ called (ssh_scp_request_get_filename scp)
          ∷ sized in
        let e = serving.opens ready (text "/downloads/file") in
        let size : to_uint32 (E.returns log (ssh_scp_request_get_size scp)) ≡ length content =
          ap to_uint32 (serving.tells log scp o) ∙ fits_uint32 (length content) small in
        rw (e, accept_file, size)
          (after_file scp _ (
            receive_file-Has E (c_str filepath) content serving fuel scp (length content) content _
              (ap (λ (t : Text). t ++ content) r) (sym r) refl o refl enough small))

    read_on-Fetches :
        (scp : ℕ) (log : Log)
        → received E log ≡ []
        → accepted log ≡ false
        → opened log ≡ some (c_str filepath)
        → Fetches content (read_on E fuel scp log)
    unfolding read_on
    read_on-Fetches scp log r a o =
        let e = serving.begins log scp o in
        let e' = serving.offers (called (ssh_scp_init scp) ∷ log) scp o a in
        rw (e, read_on, e')
          (accept_file-Fetches scp
            (called (ssh_scp_pull_request scp) ∷ called (ssh_scp_init scp) ∷ log) r o)

    read_from-Fetches :
        (s : ℕ) (log : Log)
        → Fetches content (
            continue (create E (ssh_scp_new_read s (c_str filepath)) log) λ made.
              elim made as (λ m. M ℤ) [ none ↦ pure ssh_error | some scp ↦ read_on E fuel scp ])
    read_from-Fetches s log =
        let new = ssh_scp_new_read s (c_str filepath) in
        rw (serving.makes log s)
          (read_on-Fetches (suc (length log)) (created new ∷ log) refl refl refl)

    read_pointer-Fetches :
        (p : Pointer) (log : Log)
        → p ≢ uninitialised
        → Fetches content (
            continue (load p log) λ s. create E (ssh_scp_new_read s (c_str filepath)) >>= λ made.
            elim made as (λ m. M ℤ) [ none ↦ pure ssh_error | some scp ↦ read_on E fuel scp ])
    read_pointer-Fetches uninitialised log h = absurd (h refl)
    read_pointer-Fetches null log h = read_from-Fetches 0 log
    read_pointer-Fetches (at s) log h = read_from-Fetches s log

    scp_read-Fetches :
        (c : Conn) (log : Log)
        → c.session ≢ uninitialised
        → Fetches content (scp_read E fuel c filepath log)
    unfolding scp_read
    scp_read-Fetches c log h = read_pointer-Fetches c.session log h

    -- From a server that has a file of less than 2 ^ 32 bytes at the path, `scp_read` on a connection whose session
    -- pointer has a value ends with SSH_OK, with nothing undefined and its transfer given back, and the
    -- file on the SD card has the bytes of the server's file. Fuel of one more than its bytes is enough.
    pub scp_read-Downloads :
        (c : Conn) (log : Log)
        → c.session ≢ uninitialised
        → Downloads content log (scp_read E fuel c filepath log)
    scp_read-Downloads c log h =
        returned content log (scp_read E fuel c filepath log) (scp_read-Fetches c log h)
          (scp_read-Returned E fuel c filepath log)
