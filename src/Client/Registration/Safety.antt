-- ===== src/Client/Registration/Safety.antt =====
-- The client that a thread has been given is not released under it.
use mac_osx_vfs_redirector.Base.{
  ltb, Bool-cases, inl, inr, sym, ℕ, ◌≤◌, ◌<◌, ◌≡◌, ◌≢◌, refl, Bool, true, false, ◌==◌, arith,
}
use mac_osx_vfs_redirector.DataMap.{null}
use mac_osx_vfs_redirector.Client.Registration.Threads.{
  Point, away, using, Unregistration, swapped, drained, Driver, update, weight, total, total-update,
  total-away, total-ge, total-le,
}
use mac_osx_vfs_redirector.Client.Registration.Steps.{
  test_client, count_invocation, load_client, exchange_same, exchange_null, uncount_invocation,
  begin_unregistration, swap_out, poll, release, test_pending, swap_in, Step, test_step, count_step,
  load_step, same_step, null_step, fail_step, put_step, begin_step, swap_step, poll_step,
  release_step, pending_step, register_step, Reach, start, later,
}

-- The client in a thread's local variable
abbrev pub holds : Point → ℕ
holds (Point.loaded c) = c
holds (Point.kept c) = c
holds (Point.using c) = c
holds _ = null

-- After the first exchange
abbrev pub has_client : Point → Bool
has_client (Point.kept _) = true
has_client (Point.using _) = true
has_client _ = false

-- The client whose exchange with NULL has been made, and the one whose invocations have returned
abbrev pub swapped_out : Unregistration → ℕ
swapped_out (Unregistration.swapped c) = c
swapped_out (Unregistration.drained c) = c
swapped_out _ = null

abbrev pub drained_client : Unregistration → ℕ
drained_client (Unregistration.drained c) = c
drained_client _ = null

pub record Inv (n : ℕ) (d : Driver) : Type 0 where
  pub counted : d.client_invocations ≡ total n d.thread
  pub beyond : (t : ℕ) → n ≤ t → d.thread t ≡ away
  pub current : d.user_client ≢ null → d.is_released d.user_client ≡ false
  pub held : (t : ℕ) → holds (d.thread t) ≢ null → d.is_released (holds (d.thread t)) ≡ false
  pub real : (t : ℕ) → has_client (d.thread t) ≡ true → holds (d.thread t) ≢ null
  pub gone : swapped_out d.unregistration ≢ null → swapped_out d.unregistration ≢ d.user_client
  pub quiet :
      (t : ℕ)
      → drained_client d.unregistration ≢ null
      → holds (d.thread t) ≢ drained_client d.unregistration

-- A thread that moves with the count kept.
Inv-move :
    (n t : ℕ) (p : Point) (d : Driver)
    → t < n
    → weight p ≡ weight (d.thread t)
    → (has_client p ≡ true → holds p ≢ null)
    → (holds p ≢ null
        → (d.is_released (holds p) ≡ false) × (drained_client d.unregistration ≢ holds p))
    → Inv n d
    → Inv n (record d { thread = update d.thread t p })
Inv-move n t p d lt w r h inv = record {
  counted = omega (arith, inv.counted, total-update n t d.thread p lt);
  beyond = λ u a. ground (arith, inv.beyond u);
  current = inv.current;
  held = λ u. ground (arith, inv.held u);
  real = λ u. ground (arith, inv.real u);
  gone = inv.gone;
  quiet = λ u. ground (arith, inv.quiet u);
}

-- The end of an invocation
uncount-Inv :
    (n t : ℕ) (d : Driver)
    → t < n
    → weight (d.thread t) ≡ 1
    → Inv n d
    → Inv n (uncount_invocation t d)
unfolding uncount_invocation
uncount-Inv n t d lt w inv = record {
  counted = omega (arith, inv.counted, total-update n t d.thread away lt, w);
  beyond = λ u a. ground (arith, inv.beyond u);
  current = inv.current;
  held = λ u. ground (arith, inv.held u);
  real = λ u. ground (arith, inv.real u);
  gone = inv.gone;
  quiet = λ u. ground (arith, inv.quiet u);
}

-- No invocation is left, so no thread holds a client.
none-holds : (n t : ℕ) (d : Driver) → d.client_invocations ≡ 0 → Inv n d → holds (d.thread t) ≡ null
none-holds n t d z inv = elim (Bool-cases (ltb t n)) [
  | inl below ↦ ground (arith, inv.counted, total-ge n t d.thread)
  | inr above ↦ ground (arith, inv.beyond t)
]

poll-Inv : (n c : ℕ) (d : Driver) → d.unregistration ≡ swapped c → Inv n d → Inv n (poll c d)
unfolding poll
poll-Inv n c d h inv = elim (Bool-cases (d.client_invocations == 0)) [
  | inl zero ↦ rw zero (record {
    counted = inv.counted;
    beyond = inv.beyond;
    current = inv.current;
    held = inv.held;
    real = λ u. ground (arith, inv.real u);
    gone = ground (arith, inv.gone);
    quiet = λ t. ground (arith, none-holds n t d);
  })
  | inr more ↦ rw more inv
]

release-Inv : (n c : ℕ) (d : Driver) → d.unregistration ≡ drained c → Inv n d → Inv n (release c d)
unfolding release
release-Inv n c d h inv = record {
  counted = inv.counted;
  beyond = inv.beyond;
  current = ground (arith, inv.current, inv.gone);
  held = λ t. ground (arith, inv.held t, inv.quiet t);
  real = λ u. ground (arith, inv.real u);
  gone = ground arith;
  quiet = λ t. ground arith;
}

Step-Inv : {n : ℕ} {d d' : Driver} → Step n d d' → Inv n d → Inv n d'
unfolding test_client count_invocation load_client exchange_same exchange_null uncount_invocation
    begin_unregistration swap_out poll release test_pending swap_in
Step-Inv {n} {d} (test_step t lt h) inv =
    Inv-move n t _ d lt (ground arith) (ground (arith, inv.real t)) (ground arith) inv
Step-Inv {n} {d} (count_step t lt h) inv = record {
  counted = ground (arith, inv.counted, total-update n t d.thread Point.counted lt);
  beyond = λ u a. ground (arith, inv.beyond u);
  current = inv.current;
  held = λ u. ground (arith, inv.held u);
  real = λ u. ground (arith, inv.real u);
  gone = inv.gone;
  quiet = λ u. ground (arith, inv.quiet u);
}
Step-Inv {n} {d} (load_step t lt h) inv =
    Inv-move n t _ d lt (ground arith) (ground (arith, inv.real t))
      (ground (arith, inv.current, inv.gone)) inv
Step-Inv {n} {d} (same_step t c lt h) inv =
    Inv-move n t _ d lt (ground arith) (ground (arith, inv.real t))
      (ground (arith, inv.held t, inv.quiet t)) inv
Step-Inv {n} {d} (null_step t c lt h) inv =
    Inv-move n t _ d lt (ground arith) (ground (arith, inv.real t))
      (ground (arith, inv.held t, inv.quiet t)) inv
Step-Inv {n} {d} (fail_step t lt h) inv = uncount-Inv n t d lt (ground arith) inv
Step-Inv {n} {d} (put_step t c lt h) inv = uncount-Inv n t d lt (ground arith) inv
Step-Inv {n} {d} (begin_step c h i) inv = ground (arith, inv)
Step-Inv {n} {d} (swap_step c h) inv = ground (arith, inv)
Step-Inv {n} {d} (poll_step c h) inv = poll-Inv n c d h inv
Step-Inv {n} {d} (release_step c h) inv = release-Inv n c d h inv
Step-Inv {n} {d} (pending_step c h) inv = ground (arith, inv)
Step-Inv {n} {d} (register_step c h f g) inv = ground (arith, inv)

Reach-Inv : {n : ℕ} {d : Driver} → Reach n d → Inv n d
Reach-Inv {n} start = record {
  counted = sym (total-away n);
  beyond = λ t h. refl;
  current = ground arith;
  held = λ t. ground arith;
  real = λ u. ground arith;
  gone = ground arith;
  quiet = λ t. ground arith;
}
Reach-Inv (later r st) = Step-Inv st (Reach-Inv r)

-- In every state that is reached by any number of threads and the client's registrations and
-- unregistrations, a thread to which `getClient` has returned a client has one that is not NULL, and
-- whose reference has not been given back; it is counted in `clientInvocations`, and the counter is
-- at most the number of threads.
pub used_is_retained :
    {n : ℕ} {d : Driver} (t c : ℕ)
    → Reach n d
    → d.thread t ≡ using c
    → (c ≢ null)
      × (d.is_released c ≡ false)
      × (1 ≤ d.client_invocations)
      × (d.client_invocations ≤ n)
used_is_retained {n} {d} t c r h = ground (
  arith,
  inv.counted,
  inv.beyond t,
  inv.held t,
  inv.real t,
  total-ge n t d.thread,
  total-le n d.thread,
)
  where
    inv : Inv n d
    inv = Reach-Inv r
