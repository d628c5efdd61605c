-- ===== src/Ssh/Transfer.antt =====
-- `read` and `exec_cmd` of `ssh_conn` in src/main.cpp.
pub mod Channels
pub mod Delivery
use esp.Base.{
  ℕ, zero, suc, ◌+◌, ◌-◌, ◌%◌, ◌^◌, Bool, true, false, not, ◌&&◌, Option, none, some, List, [], ◌∷◌,
  ◌++◌, map, ltb, if◌then◌else◌,
}
use esp.Base.Bytes.{Text, text, c_str}
use esp.Base.Int.{ℤ, pos, negsuc, int_eq, is_positive}
use esp.Strings.{StringApi}
use esp.Clients.{Registry, ssh_broadcast}
use esp.Ssh.{
  ssh_is_connected, ssh_channel_new, ssh_channel_open_session, ssh_channel_request_exec,
  ssh_channel_read_nonblocking, ssh_channel_is_open, ssh_channel_is_eof, ssh_channel_close,
  ssh_channel_free, Libssh, M, Outcome, done, out_of_fuel, continue, ◌>>=◌, ◌>>◌, pure, fault, tell,
  ask, test, receive, clock, create,
}
use esp.Ssh.Conn.{
  Pointer, uninitialised, null, at, Conn, load, ssh_ok, ssh_error, ssh_single_exec_timeout,
}

-- `a - b` of two `unsigned long` values.
abbrev pub sub32 : ℕ → ℕ → ℕ
sub32 a b = (a + 2 ^ 32 - b) % 2 ^ 32

-- What `read` returns, and the messages that it sends.
pub record Reading : Type 0 where
  pub rbytes : ℤ
  pub sent : List (ℕ × Text)

unfoldable pub both_set : Pointer → Pointer → M Bool
both_set uninitialised session = fault
both_set null session = pure false
both_set (at c) uninitialised = fault
both_set (at c) null = pure false
both_set (at c) (at s) = pure true

-- How the loop of `exec_cmd` ends: with what it gathered, or by the `return "-1"` in it.
pub data LoopEnd : Type 0 where
  leaves : Text → LoopEnd
  fails : LoopEnd

module _ (E : Libssh) where
  -- The tests in front of `read`, in their order.
  unfoldable pub can_read : Conn → M Bool
  unfolding both_set
  can_read this = do
    set ← both_set this.channel this.session
    if set
        then (do
          c ← load this.channel
          is_open ← test E (ssh_channel_is_open c)
          if is_open then (do s ← load this.session; test E (ssh_is_connected s)) else pure false)
        else pure false

  unfoldable pub read : Registry → Bool → Conn → M Reading
  unfolding can_read
  read clients got this = do
    ready ← can_read this
    if ready
        then (do
          c ← load this.channel
          (rbytes, msg) ← receive E (ssh_channel_read_nonblocking c 256)
          pure (record {
            rbytes = rbytes;
            sent =
                if is_positive rbytes
                then map (λ h. (h, msg)) (ssh_broadcast clients got).0
                else [];
          }))
        else pure (record { rbytes = negsuc 0; sent = [] })

  -- The lines that follow a read: output is gathered and restarts the clock, an error leaves `none`.
  unfoldable pub gather : ℕ → Text → ℕ → M (Option (Text × ℕ))
  gather c output start = do
    (nbytes, bytes) ← receive E (ssh_channel_read_nonblocking c 256)
    if is_positive nbytes
        then (do now ← clock E; pure (some (output ++ bytes, now)))
        else (if int_eq nbytes ssh_error then pure none else pure (some (output, start)))

  -- `ssh_channel_is_open(channel_oneoff) && !ssh_channel_is_eof(channel_oneoff)`
  unfoldable pub wants_more : ℕ → M Bool
  wants_more c = do
    is_open ← test E (ssh_channel_is_open c)
    if is_open then (do is_eof ← test E (ssh_channel_is_eof c); pure (not is_eof)) else pure false

  -- The rest of a turn, by what the read brought: the loop ends ten seconds after the last output.
  unfoldable pub after_gather : (Text → ℕ → M LoopEnd) → Option (Text × ℕ) → M LoopEnd
  after_gather next none = pure fails
  after_gather next (some (output, start)) = do
    now ← clock E
    if ltb ssh_single_exec_timeout (sub32 now start)
        then pure (leaves output)
        else next output start

  -- The `while` loop.
  unfoldable pub exec_loop : ℕ → ℕ → Text → ℕ → M LoopEnd
  unfolding gather wants_more after_gather
  exec_loop zero c output start log = out_of_fuel
  exec_loop (suc fuel) c output start log =
      let next = exec_loop fuel c in
      continue (wants_more c log)
        λ more. if more then gather c output start >>= after_gather next else pure (leaves output)

  -- The part of `exec_cmd` behind the loop.
  unfoldable pub finish_exec : ℕ → Text → M Text
  unfolding gather
  finish_exec c output = gather c output 0 >>= elim [
    | none ↦ pure (text "-1")
    | some (all, start) ↦ do tell E (ssh_channel_close c); tell E (ssh_channel_free c); pure all
  ]

  -- `exec_cmd` with its new channel.
  unfoldable pub exec_on : StringApi → ℕ → Text → ℕ → M Text
  exec_on S fuel command c = do
    opened ← ask E (ssh_channel_open_session c)
    if not (int_eq opened ssh_ok)
        then (tell E (ssh_channel_free c) >> pure (S.of_int opened))
        else (do
          requested ← ask E (ssh_channel_request_exec c (c_str command))
          if not (int_eq requested ssh_ok)
              then (do
                tell E (ssh_channel_close c)
                tell E (ssh_channel_free c)
                pure (S.of_int requested))
              else (do
                start ← clock E
                ended ← exec_loop fuel c [] start
                elim ended as (λ e. M Text) [
                  | fails ↦ pure (text "-1")
                  | leaves output ↦ finish_exec c output
                ]))

  unfoldable pub exec_cmd : StringApi → ℕ → Conn → Text → M Text
  exec_cmd S fuel this command = do
    s ← load this.session
    made ← create E (ssh_channel_new s)
    elim made as (λ m. M Text) [ none ↦ pure (text "-1") | some c ↦ exec_on S fuel command c ]
