-- ===== src/Clients.antt =====
-- The tables of websocket clients of src/main.cpp: `activeClients`, `activeClientsFan`, their
-- mutexes, and `create`, `onClose`, `onMessage` of `SSHHandler` and `FanHandler`. A client is the
-- address of its handler object, which the caller supplies, since `new` is the allocator's. Whether
-- a mutex was created and whether a take got it within 100 ms is known only at run time: the first
-- is a field, the second an argument. Printing and yielding are left out.
pub mod Spec
pub mod Counts
pub mod Refinement
pub mod Locks
pub mod Sockets
mod Examples
use esp.Base.{
  ℕ, Bool, true, false, ◌&&◌, Option, none, some, List, [], ◌∷◌, ◌++◌, ◌==◌, if◌then◌else◌, length,
  replicate,
}
use esp.Base.Bytes.{Text, c_str}

abbrev pub max_clients : ℕ
max_clients = 10

-- A table and whether its mutex exists.
pub record Registry : Type 0 where
  pub has_mutex : Bool
  pub slots : List (Option ℕ)

-- Both tables are globals, so they start out with null pointers and no mutex.
unfoldable pub empty_registry : Registry
empty_registry = record { has_mutex = false; slots = replicate max_clients none }

-- `xSemaphoreTake` with its result, and `xSemaphoreGive`.
pub data LockCall : Type 0 where
  take : Bool → LockCall
  give : LockCall

-- The loop that stores the handler in the first free slot and stops there.
unfoldable pub insert_first : ℕ → List (Option ℕ) → List (Option ℕ)
insert_first h [] = []
insert_first h (none ∷ s) = some h ∷ s
insert_first h (some x ∷ s) = some x ∷ insert_first h s

-- The test of one slot in `onClose`.
unfoldable pub clear_slot : ℕ → Option ℕ → Option ℕ
clear_slot h none = none
clear_slot h (some x) = if x == h then none else some x

-- The loop that clears every slot which holds the handler.
unfoldable pub clear_all : ℕ → List (Option ℕ) → List (Option ℕ)
unfolding clear_slot
clear_all h [] = []
clear_all h (o ∷ s) = clear_slot h o ∷ clear_all h s

-- The loop that sends to every slot which holds a handler: those that are sent to, in order.
unfoldable pub recipients : List (Option ℕ) → List ℕ
recipients [] = []
recipients (none ∷ s) = recipients s
recipients (some x ∷ s) = x ∷ recipients s

-- The lock's calls of a critical section: none without a mutex, as `&&` stops there.
unfoldable pub section_calls : Bool → Bool → List LockCall
section_calls has_mutex got =
    if has_mutex then (if got then take true ∷ give ∷ [] else take false ∷ []) else []

-- `SSHHandler::create`; the handler is returned in every case.
unfoldable pub ssh_create : Registry → Bool → ℕ → Registry × List LockCall
unfolding section_calls insert_first
ssh_create r got h = (
  if r.has_mutex && got then record r { slots = insert_first h r.slots } else r,
  section_calls r.has_mutex got,
)

-- `FanHandler::create`, the same code over the other table.
unfoldable pub fan_create : Registry → Bool → ℕ → Registry × List LockCall
unfolding section_calls insert_first
fan_create r got h = (
  if r.has_mutex && got then record r { slots = insert_first h r.slots } else r,
  section_calls r.has_mutex got,
)

-- `SSHHandler::onClose`
unfoldable pub ssh_on_close : Registry → Bool → ℕ → Registry × List LockCall
unfolding section_calls clear_all
ssh_on_close r got h = (
  if r.has_mutex && got then record r { slots = clear_all h r.slots } else r,
  section_calls r.has_mutex got,
)

-- `FanHandler::onClose`
unfoldable pub fan_on_close : Registry → Bool → ℕ → Registry × List LockCall
unfolding section_calls clear_all
fan_on_close r got h = (
  if r.has_mutex && got then record r { slots = clear_all h r.slots } else r,
  section_calls r.has_mutex got,
)

-- The critical section of `ssh_conn::read`, which passes output on to every client.
unfoldable pub ssh_broadcast : Registry → Bool → List ℕ × List LockCall
unfolding section_calls recipients
ssh_broadcast r got =
    (if r.has_mutex && got then recipients r.slots else [], section_calls r.has_mutex got)

-- The critical section of `loop`. Its `else` branch gives the semaphore too.
unfoldable pub fan_broadcast : Registry → Bool → List ℕ × List LockCall
unfolding section_calls recipients
fan_broadcast r got =
    if r.has_mutex && got
    then (recipients r.slots, section_calls r.has_mutex got)
    else ([], section_calls r.has_mutex got ++ (give ∷ []))

-- The assignment of `SSHHandler::onMessage`: a null buffer leaves the command as it was.
unfoldable pub ssh_on_message : Option Text → Text → Text
ssh_on_message none ssh_command = ssh_command
ssh_on_message (some msg) ssh_command = c_str msg

-- `FanHandler::onMessage` returns at once.
unfoldable pub fan_on_message : Option Text → Registry → Registry
fan_on_message inbuf r = r
