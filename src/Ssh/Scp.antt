-- ===== src/Ssh/Scp.antt =====
-- `scp_write` and `scp_read` of `ssh_conn` in src/main.cpp. The file on the SD card is read and written
-- by calls of its own, whose answers are as free as those of the SSH library.
pub mod Handles
pub mod Receiving
pub mod Fetching
pub mod Downloads
pub mod Pushing
pub mod Uploads
pub mod Sending
pub mod Tokens
use esp.Base.{
  ℕ, zero, suc, ◌+◌, ◌-◌, ◌%◌, ◌^◌, Bool, true, false, not, ◌||◌, Option, none, some, List, [], ◌∷◌,
  ◌++◌, length, take, ◌==◌, ltb, if◌then◌else◌,
}
use esp.Base.Bytes.{Text, text, c_str}
use esp.Base.Int.{ℤ, pos, negsuc, int_eq, to_uint32, is_negative}
use esp.Strings.{StringApi, next_index, unsigned_index}
use esp.Ssh.{
  ssh_scp_new_write, ssh_scp_new_read, ssh_scp_init, ssh_scp_close, ssh_scp_free,
  ssh_scp_pull_request, ssh_scp_accept_request, ssh_scp_request_get_size,
  ssh_scp_request_get_filename, ssh_scp_request_get_permissions, ssh_scp_push_directory,
  ssh_scp_write, ssh_scp_push_file, ssh_scp_read, sd_open_read, sd_open_write, sd_write,
  sd_available, sd_size, sd_flush, sd_close, sd_read, Libssh, M, Outcome, done, out_of_fuel,
  continue, ◌>>=◌, ◌>>◌, pure, fault, tell, ask, test, receive, create,
}
use esp.Ssh.Conn.{Conn, load, ssh_ok, ssh_error}
use esp.Ssh.Transfer.{sub32}

-- `strtok` with the delimiters "/\\": the parts between them that are not empty.
abbrev pub is_delimiter : ℕ → Bool
is_delimiter c = c == b'/' || c == 92

abbrev pub flush : Text → List Text → List Text
flush [] rest = rest
flush (c ∷ s) rest = (c ∷ s) ∷ rest

unfoldable pub split_tokens : Text → Text → List Text
split_tokens token [] = flush token []
split_tokens token (c ∷ s) = elim (is_delimiter c) [
  | true ↦ flush token (split_tokens [] s)
  | false ↦ split_tokens (token ++ (c ∷ [])) s
]

-- `path_copy`, cut to the buffer, and its tokens.
unfoldable pub directories : StringApi → Text → List Text
unfolding split_tokens
directories S filepath =
    let parent = S.substring filepath 0 (unsigned_index (S.last_index_of filepath b'/')) in
    split_tokens [] (take 255 (c_str parent))

abbrev pub ssh_scp_request_newfile : ℤ
ssh_scp_request_newfile = pos 2

abbrev pub ssh_scp_request_eof : ℤ
ssh_scp_request_eof = pos 3

module _ (E : Libssh) where
  -- `ssh_scp_close`, `ssh_scp_free` and the return of a code.
  unfoldable pub close_scp : ℕ → ℤ → M ℤ
  close_scp scp rc = tell E (ssh_scp_close scp) >> (tell E (ssh_scp_free scp) >> pure rc)

  -- The loop that makes the directories; `none` if all were made, else the code.
  unfoldable pub push_directories : ℕ → List Text → M (Option ℤ)
  push_directories scp [] = pure none
  push_directories scp (token ∷ tokens) = do
    rc ← ask E (ssh_scp_push_directory scp token)
    if int_eq rc ssh_ok then push_directories scp tokens else pure (some rc)

  -- The body of the loop that sends the file: whether to go on.
  unfoldable pub send_chunk : ℕ → M Bool
  send_chunk scp = do
    (n, bytes) ← receive E (sd_read 512)
    if length bytes == 0
        then pure true
        else (do rc ← ask E (ssh_scp_write scp bytes); pure (int_eq rc ssh_ok))

  unfoldable pub send_file : ℕ → ℕ → M (Unit {0})
  unfolding send_chunk
  send_file zero scp log = out_of_fuel
  send_file (suc fuel) scp log =
      let next = send_file fuel scp in
      continue (test E sd_available log) λ available.
        if available
        then (send_chunk scp >>= λ goes_on. if goes_on then next else pure tt)
        else pure tt

  -- From `sdPath` on.
  unfoldable pub push_file : StringApi → ℕ → ℕ → Text → M ℤ
  unfolding close_scp send_file
  push_file S fuel scp filepath = do
    tell E (sd_open_read (text "/downloads/upload"))
    let start = next_index (S.last_index_of filepath b'/')
    size ← ask E sd_size
    rc ← ask E (ssh_scp_push_file scp (c_str (S.substring filepath start (length filepath))) size)
    if not (int_eq rc ssh_ok)
        then close_scp scp rc
        else (send_file fuel scp >> (tell E sd_close >> close_scp scp ssh_ok))

  -- With the new transfer.
  unfoldable pub write_on : StringApi → ℕ → ℕ → Text → M ℤ
  unfolding close_scp push_directories push_file
  write_on S fuel scp filepath = do
    rc ← ask E (ssh_scp_init scp)
    if not (int_eq rc ssh_ok) then (tell E (ssh_scp_free scp) >> pure rc) else (do
      failed ← push_directories scp (directories S filepath)
      elim failed as (λ f. M ℤ) [
        | some rc ↦ close_scp scp rc
        | none ↦ push_file S fuel scp filepath
      ])

  unfoldable pub scp_write : StringApi → ℕ → Conn → Text → M ℤ
  scp_write S fuel this filepath = do
    s ← load this.session
    made ← create E (ssh_scp_new_write s (text "/home/alext/"))
    elim made as (λ m. M ℤ) [ none ↦ pure ssh_error | some scp ↦ write_on S fuel scp filepath ]

  -- The loop that receives the file: whether it came to its end, or read an error. Another negative
  -- code would be taken for the number of bytes to write out of the buffer, which is undefined.
  unfoldable pub receive_file : ℕ → ℕ → ℕ → M Bool
  receive_file zero scp remaining log = out_of_fuel
  receive_file (suc fuel) scp remaining log =
      let next = receive_file fuel scp in
      if remaining == 0
      then done true log
      else continue
          (receive E (ssh_scp_read scp (if ltb remaining 1024 then remaining else 1024)) log)
          λ (rc, bytes).
            if int_eq rc ssh_error
            then pure false
            else if is_negative rc
            then fault
            else (tell E (sd_write bytes) >> next (sub32 remaining (to_uint32 rc)))

  -- Behind the loop.
  unfoldable pub finish_read : ℕ → Bool → M ℤ
  unfolding close_scp
  finish_read scp false = tell E sd_close >> close_scp scp ssh_error
  finish_read scp true = do
    tell E sd_flush
    tell E sd_size
    tell E sd_close
    rc ← ask E (ssh_scp_pull_request scp)
    close_scp scp (if int_eq rc ssh_scp_request_eof then ssh_ok else ssh_error)

  -- From the request for a new file on.
  unfoldable pub accept_file : ℕ → ℕ → M ℤ
  unfolding receive_file finish_read
  accept_file fuel scp = do
    size ← ask E (ssh_scp_request_get_size scp)
    tell E (ssh_scp_request_get_filename scp)
    tell E (ssh_scp_request_get_permissions scp)
    tell E (ssh_scp_accept_request scp)
    opened ← test E (sd_open_write (text "/downloads/file"))
    if opened then (receive_file fuel scp (to_uint32 size) >>= finish_read scp) else pure ssh_error

  unfoldable pub read_on : ℕ → ℕ → M ℤ
  unfolding accept_file
  read_on fuel scp = do
    rc ← ask E (ssh_scp_init scp)
    if not (int_eq rc ssh_ok) then (tell E (ssh_scp_free scp) >> pure rc) else (do
      request ← ask E (ssh_scp_pull_request scp)
      if int_eq request ssh_scp_request_newfile then accept_file fuel scp else pure ssh_error)

  unfoldable pub scp_read : ℕ → Conn → Text → M ℤ
  unfolding read_on
  scp_read fuel this filepath = do
    s ← load this.session
    made ← create E (ssh_scp_new_read s (c_str filepath))
    elim made as (λ m. M ℤ) [ none ↦ pure ssh_error | some scp ↦ read_on fuel scp ]
