-- ===== src/Client/Requests/Honest.antt =====
-- A client that replies to the messages it reads, each once: what its replies in progress refer to.
use mac_osx_vfs_redirector.Base.{
  ℕ, ◌+◌, ◌≤◌, ◌≡◌, refl, subst, Bool, true, false, List, [], ◌∷◌, ◌++◌, ◌==◌, if◌then◌else◌, arith,
  Bool-cases, inl, inr, ==_refl,
}
use mac_osx_vfs_redirector.Event.{one_if}
use mac_osx_vfs_redirector.DataMap.{null, add_data_by_key, get_data_by_key}
use mac_osx_vfs_redirector.DataMap.Laws.{get-add, get-remove, add_succeeds}
use mac_osx_vfs_redirector.Client.Waiting.{this, is_listed, enter, must_block, signal}
use mac_osx_vfs_redirector.Client.Requests.Threads.{
  Stacks, AreSeparate, Point, away, built, listed, unsent, sent, ending, System, update, Callback,
  Replier, outside, found, stored, inserted_at, thread_wakeup,
}
use mac_osx_vfs_redirector.Client.Requests.Steps.{
  is_filter, build, enter_list, send, wait, signal_key, cancel, finish, look_up, store, wake,
}
use mac_osx_vfs_redirector.Client.Requests.Steps.{
  Step, build_step, enter_step, send_step, wait_step, cancel_step, finish_step, read_step,
  forge_step, store_step, wake_step, Reach, start, later,
}
use mac_osx_vfs_redirector.Client.Requests.Reached.{Reach-Inv}
use mac_osx_vfs_redirector.Client.Requests.Lists.{Inv, apart_ids}

-- How often a message with the id is yet to be answered: in the queue, and in `reply`.
abbrev pub occurrences : ℕ → List ℕ → ℕ
occurrences id [] = 0
occurrences id (m ∷ ms) = one_if (m == id) + occurrences id ms

abbrev pub held : ℕ → Replier → ℕ
held id outside = 0
held id (Replier.found x p) = one_if (x == id)
held id (Replier.stored x) = one_if (x == id)

occurrences-append :
    (id x : ℕ) (ms : List ℕ) → occurrences id (ms ++ x ∷ []) ≡ occurrences id ms + one_if (x == id)
occurrences-append id x [] = omega arith
occurrences-append id x (m ∷ ms) = omega (arith, occurrences-append id x ms)

abbrev pub was_sent : Point → Bool
was_sent (Point.sent _) = true
was_sent (Point.asleep _) = true
was_sent _ = false

abbrev pub has_entered : Point → Bool
has_entered (Point.listed _) = true
has_entered (Point.unsent _) = true
has_entered _ = false

-- The callback record that a reply to the id has found
abbrev pub Located : ℕ → ℕ → Replier → Type 0
Located id address (Replier.found x p) = (x == id) ≡ true → p ≡ address
Located id address _ = Unit

-- What holds of one thread, by the messages and replies for its id.
pub record Honest (p : Point) (id address : ℕ) (is_waited_for : Bool) (messages : List ℕ)
    (r : Replier) : Type 0 where
  pub once : occurrences id messages + held id r ≤ one_if is_waited_for
  pub unasked : was_sent p ≡ false → occurrences id messages + held id r ≡ 0
  pub entered : has_entered p ≡ true → is_waited_for ≡ true
  pub finds : Located id (if inserted_at p then address else null) r

module _ (stacks : Stacks) where
  open stacks use {id_of, in_data}

  abbrev pub HonestAt : System → ℕ → Type 0
  HonestAt s t =
      Honest (s.thread t) (id_of t) (in_data t) (is_listed (id_of t) s.waiting) s.messages s.replier

module _ {stacks : Stacks} (separate : AreSeparate stacks) where
  open stacks use {id_of, in_data}

  -- A thread that moves, and may enter the list or send its message.
  Honest-move :
      (t : ℕ) (p : Point) (s : System) (w : _) (ms : List ℕ)
      → Honest p (id_of t) (in_data t) (is_listed (id_of t) w) ms s.replier
      → ((j : ℕ) → (id_of t == j) ≡ false → get_data_by_key j w ≡ get_data_by_key j s.waiting)
      → ((j : ℕ) → (id_of t == j) ≡ false → occurrences j ms ≡ occurrences j s.messages)
      → (u : ℕ) → HonestAt stacks s u
      → Honest (update s.thread t p u) (id_of u) (in_data u) (is_listed (id_of u) w) ms s.replier
  Honest-move t p s w ms new at_w at_ms u old = elim (Bool-cases (t == u)) [
    | inl same ↦
        subst
          (λ v.
            Honest (if t == v then p else s.thread v) (id_of v) (in_data v) (is_listed (id_of v) w)
              ms s.replier)
          {x = t} {y = u} (grind arith) (rw (==_refl t) new)
    | inr other ↦
        rw (other, at_w (id_of u) (apart_ids separate t u other))
          (ground (arith, at_ms (id_of u) (apart_ids separate t u other), old))
  ]

  -- A step in which a thread moves and nothing else is seen.
  Honest-pass :
      (t : ℕ) (p : Point) (s : System)
      → Honest p (id_of t) (in_data t) (is_listed (id_of t) s.waiting) s.messages s.replier
      → ((u : ℕ) → HonestAt stacks s u)
      → (u : ℕ) → HonestAt stacks (record s { thread = update s.thread t p }) u
  Honest-pass t p s new old u =
      Honest-move t p s s.waiting s.messages new (λ j e. refl) (λ j e. refl) u (old u)

  build-Honest :
      (a : Bool) (t : ℕ) (c : Callback) (s : System)
      → s.thread t ≡ away
      → ((u : ℕ) → HonestAt stacks s u)
      → (u : ℕ) → HonestAt stacks (build stacks a t c s) u
  unfolding build
  build-Honest a t c s h old u = elim (Bool-cases (is_filter c.op)) [
    | inl filter ↦ rw filter (Honest-pass t _ s (ground (arith, old t)) old u)
    | inr other ↦ rw other (Honest-pass t _ s (ground (arith, old t)) old u)
  ]

  enter_unallocated-Honest :
      (t : ℕ) {i : Bool} (s : System)
      → s.thread t ≡ built i
      → ((u : ℕ) → HonestAt stacks s u)
      → (u : ℕ) → HonestAt stacks (enter_list stacks false t s) u
  unfolding enter_list enter add_data_by_key
  enter_unallocated-Honest t s h old u = Honest-pass t _ s (ground (arith, old t)) old u

  enter_list-Honest :
      (a : Bool) (t : ℕ) {i : Bool} (s : System)
      → s.thread t ≡ built i
      → ((u : ℕ) → HonestAt stacks s u)
      → (u : ℕ) → HonestAt stacks (enter_list stacks a t s) u
  unfolding enter_list enter
  enter_list-Honest false t s h old u = enter_unallocated-Honest t s h old u
  enter_list-Honest true t s h old u = rw (add_succeeds (id_of t) this s.waiting) (
      Honest-move t _ s _ s.messages
        (ground (arith, old t, get-add (id_of t) (id_of t) this s.waiting, ==_refl (id_of t)))
        (λ j e. ground (arith, get-add j (id_of t) this s.waiting)) (λ j e. refl) u (old u))

  send-Honest :
      (n : ℕ) (room : Bool) (t : ℕ) {i : Bool} (s : System)
      → s.thread t ≡ listed i
      → ((u : ℕ) → HonestAt stacks s u)
      → (u : ℕ) → HonestAt stacks (send stacks n room t s) u
  unfolding send
  send-Honest n room t s h old u = elim (Bool-cases (n == 0)) [
    | inl empty ↦ rw empty (Honest-pass t _ s (ground (arith, old t)) old u)
    | inr some_bytes ↦ rw some_bytes (
        Honest-move t _ s s.waiting _
          (ground (arith, old t, occurrences-append (id_of t) (id_of t) s.messages)) (λ j e. refl)
          (λ j e. ground (arith, occurrences-append j (id_of t) s.messages)) u (old u))
  ]

  wait-Honest :
      (t : ℕ) {i : Bool} (s : System)
      → s.thread t ≡ sent i
      → ((u : ℕ) → HonestAt stacks s u)
      → (u : ℕ) → HonestAt stacks (wait stacks t s) u
  unfolding wait must_block
  wait-Honest t s h old u = Honest-pass t _ s (ground (arith, old t)) old u

  finish-Honest :
      (t : ℕ) {i : Bool} (s : System)
      → s.thread t ≡ ending i
      → ((u : ℕ) → HonestAt stacks s u)
      → (u : ℕ) → HonestAt stacks (finish stacks t s) u
  unfolding finish
  finish-Honest t s h old u = Honest-pass t away s (ground (arith, old t)) old u

  read-Honest :
      (id : ℕ) (rest : List ℕ) (s : System)
      → s.replier ≡ outside
      → s.messages ≡ id ∷ rest
      → Inv stacks s
      → ((u : ℕ) → HonestAt stacks s u)
      → (u : ℕ) → HonestAt stacks (record (look_up stacks id s) { messages = rest }) u
  unfolding look_up
  read-Honest id rest s h e inv old u = ground (arith, old u, inv.fits u)

  store-Honest :
      (id p : ℕ) (answer : Bool) (s : System)
      → s.replier ≡ found id p
      → ((u : ℕ) → HonestAt stacks s u)
      → (u : ℕ) → HonestAt stacks (store stacks id p answer s) u
  unfolding store
  store-Honest id p answer s h old u = ground (arith, old u)

  signal_key-Honest :
      (id : ℕ) (s : System)
      → s.replier ≡ stored id
      → Inv stacks s
      → ((u : ℕ) → HonestAt stacks s u)
      → (u : ℕ) → HonestAt stacks (wake stacks id s) u
  unfolding wake signal_key thread_wakeup signal
  signal_key-Honest id s h inv old u = elim (Bool-cases (is_listed id s.waiting)) [
    | inl here ↦
        rw here (ground (arith, old u, get-remove (id_of u) id s.waiting inv.waiting_valid))
    | inr gone ↦ rw gone (ground (arith, old u))
  ]

  cancel-Honest :
      (t : ℕ) {i : Bool} (s : System)
      → s.thread t ≡ unsent i
      → Inv stacks s
      → ((u : ℕ) → HonestAt stacks s u)
      → (u : ℕ) → HonestAt stacks (cancel stacks t s) u
  unfolding cancel signal_key thread_wakeup signal
  cancel-Honest t s h inv old u = elim (Bool-cases (is_listed (id_of t) s.waiting)) [
    | inl here ↦ rw here (
        ground (
          arith,
          old u,
          old t,
          apart_ids separate t u,
          get-remove (id_of u) (id_of t) s.waiting inv.waiting_valid,
        ))
    | inr gone ↦ rw gone (ground (arith, old u, old t))
  ]

  Step-Honest :
      {s s' : System}
      → Step stacks false s s'
      → Inv stacks s
      → ((u : ℕ) → HonestAt stacks s u)
      → (u : ℕ) → HonestAt stacks s' u
  Step-Honest (build_step a t c h) inv old = build-Honest a t c _ h old
  Step-Honest (enter_step a t h) inv old = enter_list-Honest a t _ h old
  Step-Honest (send_step n room t h) inv old = send-Honest n room t _ h old
  Step-Honest (wait_step t h) inv old = wait-Honest t _ h old
  Step-Honest (cancel_step t h) inv old = cancel-Honest t _ h inv old
  Step-Honest (finish_step t h) inv old = finish-Honest t _ h old
  Step-Honest (read_step id h e) inv old = read-Honest id _ _ h e inv old
  Step-Honest (forge_step id f h) inv old = absurd (cc f)
  Step-Honest (store_step id p answer h) inv old = store-Honest id p answer _ h old
  Step-Honest (wake_step id h) inv old = signal_key-Honest id _ h inv old

  pub Reach-Honest : {s : System} → Reach stacks false s → (u : ℕ) → HonestAt stacks s u
  unfolding get_data_by_key
  Reach-Honest start u = ground arith
  Reach-Honest (later r st) u = Step-Honest st (Reach-Inv separate r) (Reach-Honest r) u
