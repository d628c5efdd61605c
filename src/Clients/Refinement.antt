-- ===== src/Clients/Refinement.antt =====
-- The tables implement their specification, after any history of connections.
use esp.Base.{
  ℕ, ◌+◌, ◌≤◌, ◌≡◌, refl, ap, ◌∙◌, Bool, true, false, List, [], ◌∷◌, ◌==◌, if◌then◌else◌, length,
  arith, fun_ext,
}
use esp.Clients.{
  Registry, max_clients, insert_first, clear_all, recipients, ssh_create, ssh_on_close, fan_create,
  fan_on_close, ssh_broadcast, fan_broadcast,
}
use esp.Clients.Spec.{
  Members, Call, creates, closes, member_step, member_run, Table, ssh_table, fan_table, step, run,
  sent, creations,
}
use esp.Clients.Counts.{
  count, length-insert_first, length-clear_all, count-insert_first, size-insert_first,
  count-clear_all, size-clear_all,
}

-- The tables have as many slots as the code's arrays, and their mutexes were created.
pub record IsReady (r : Registry) : Type 0 where
  pub full_length : length r.slots ≡ max_clients
  pub created : r.has_mutex ≡ true

unfoldable pub view : Registry → Members
view r = record { times = λ a. count a (recipients r.slots); size = length (recipients r.slots) }

pub step-IsReady : (t : Table) (r : Registry) (c : Call) → IsReady r → IsReady (step t r c)
unfolding step ssh_create ssh_on_close fan_create fan_on_close
step-IsReady ssh_table r (creates h got) v = ground (arith, length-insert_first h r.slots)
step-IsReady ssh_table r (closes h got) v = ground (arith, length-clear_all h r.slots)
step-IsReady fan_table r (creates h got) v = ground (arith, length-insert_first h r.slots)
step-IsReady fan_table r (closes h got) v = ground (arith, length-clear_all h r.slots)

Members-ext : (m n : Members) → ((a : ℕ) → m.times a ≡ n.times a) → m.size ≡ n.size → m ≡ n
Members-ext m n h e = λ i. record { times = fun_ext h i; size = e i }

module _ (r : Registry) (h : ℕ) (v : IsReady r) where
  view-creates :
      (a : ℕ)
      → (count a (recipients (insert_first h r.slots))
          ≡ (member_step (view r) (creates h true)).times a)
        × (length (recipients (insert_first h r.slots))
            ≡ (member_step (view r) (creates h true)).size)
  unfolding view member_step
  view-creates a =
      ground (arith, v.full_length, count-insert_first a h r.slots, size-insert_first h r.slots)

  view-closes :
      (a : ℕ)
      → (count a (recipients (clear_all h r.slots))
          ≡ (member_step (view r) (closes h true)).times a)
        × (length (recipients (clear_all h r.slots)) ≡ (member_step (view r) (closes h true)).size)
  unfolding view member_step
  view-closes a = ground (arith, count-clear_all a h r.slots, size-clear_all h r.slots)

  view-insert_first :
      view (record r { slots = insert_first h r.slots }) ≡ member_step (view r) (creates h true)
  unfolding view
  view-insert_first = Members-ext _ _ (λ a. (view-creates a).0) (view-creates 0).1

  view-clear_all :
      view (record r { slots = clear_all h r.slots }) ≡ member_step (view r) (closes h true)
  unfolding view
  view-clear_all = Members-ext _ _ (λ a. (view-closes a).0) (view-closes 0).1

-- One call does to the table what it does to the members.
pub view-step :
    (t : Table) (r : Registry) (c : Call) → IsReady r → view (step t r c) ≡ member_step (view r) c
unfolding step ssh_create ssh_on_close fan_create fan_on_close member_step view
view-step ssh_table r (creates h true) v = rw v.created (view-insert_first r h v)
view-step ssh_table r (creates h false) v = ground (arith, v.created)
view-step ssh_table r (closes h true) v = rw v.created (view-clear_all r h v)
view-step ssh_table r (closes h false) v = ground (arith, v.created)
view-step fan_table r (creates h true) v = rw v.created (view-insert_first r h v)
view-step fan_table r (creates h false) v = ground (arith, v.created)
view-step fan_table r (closes h true) v = rw v.created (view-clear_all r h v)
view-step fan_table r (closes h false) v = ground (arith, v.created)

-- After any history of connections that open and close, with or without the lock, either table of a
-- ready registry holds what the specification says.
pub view-run :
    (t : Table) (r : Registry) (cs : List Call)
    → IsReady r
    → (view (run t r cs) ≡ member_run (view r) cs) × IsReady (run t r cs)
unfolding run member_run
view-run t r [] v = (refl, v)
view-run t r (c ∷ cs) v =
    let rest = view-run t (step t r c) cs (step-IsReady t r c v) in
    (rest.0 ∙ ap (λ m. member_run m cs) (view-step t r c v), rest.1)

times-run-le :
    (m : Members) (a : ℕ) (cs : List Call) → (member_run m cs).times a ≤ m.times a + creations a cs
unfolding member_run creations
times-run-le m a [] = omega arith
times-run-le m a (creates h got ∷ cs) =
    ground (arith, times-run-le (member_step m (creates h got)) a cs, times-creates m a h got)
  where
    times-creates :
        (m : Members) (a h : ℕ) (got : Bool)
        → (member_step m (creates h got)).times a ≤ m.times a + (if a == h then 1 else 0)
    times-creates m a h got = unfold member_step in ground arith
times-run-le m a (closes h got ∷ cs) =
    ground (arith, times-run-le (member_step m (closes h got)) a cs, times-closes m a h got)
  where
    times-closes :
        (m : Members) (a h : ℕ) (got : Bool) → (member_step m (closes h got)).times a ≤ m.times a
    times-closes m a h got = unfold member_step in ground arith

sent-IsReady : (t : Table) (r : Registry) → IsReady r → sent t r true ≡ recipients r.slots
unfolding sent ssh_broadcast fan_broadcast
sent-IsReady ssh_table r v = ground (arith, v.created)
sent-IsReady fan_table r v = ground (arith, v.created)

-- A broadcast under the lock sends to a client as often as the history of the table says: never
-- to a client that was not opened, and never more often than it was opened.
pub sent-run :
    (t : Table) (r : Registry) (cs : List Call) (a : ℕ)
    → IsReady r
    → (count a (sent t (run t r cs) true) ≡ (member_run (view r) cs).times a)
      × (count a (sent t (run t r cs) true) ≤ count a (recipients r.slots) + creations a cs)
unfolding view
sent-run t r cs a v =
    let kept = view-run t r cs v in
    let here = ap (λ (m : Members). m.times a) kept.0 in
    rw (sent-IsReady t (run t r cs) kept.1) (here, omega (arith, here, times-run-le (view r) a cs))
