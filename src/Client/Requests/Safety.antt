-- ===== src/Client/Requests/Safety.antt =====
-- What the threads in `preOperationCallbackAndWaitForReply` and the client in `reply` promise.
use mac_osx_vfs_redirector.Base.{
  ℕ, ◌≤◌, ◌≡◌, ◌≢◌, ◌==◌, ◌&&◌, refl, ap, ◌∙◌, Bool, true, false, if◌then◌else◌, arith, ==_refl,
  ltb,
}
use mac_osx_vfs_redirector.DataMap.{null, get_data_by_key}
use mac_osx_vfs_redirector.Client.Waiting.{is_listed, signal}
use mac_osx_vfs_redirector.Client.Requests.Threads.{
  Stacks, AreSeparate, away, asleep, ending, System, update, outside, found, inserted_at,
  thread_wakeup,
}
use mac_osx_vfs_redirector.Client.Requests.Steps.{
  signal_key, finish, look_up, store, wake, reply, Reach,
}
use mac_osx_vfs_redirector.Client.Requests.Lists.{Inv, FitsAt, Inv-elsewhere}
use mac_osx_vfs_redirector.Client.Requests.Reached.{
  Reach-Inv, finish-Inv, store-Inv, signal_key-Inv,
}
use mac_osx_vfs_redirector.Client.Requests.Kinds.{Reach-Filter}
use mac_osx_vfs_redirector.Client.Requests.Honest.{was_sent, Reach-Honest}

module _ {stacks : Stacks} (separate : AreSeparate stacks) where
  open stacks use {id_of, in_data}

  -- No wakeup is lost: in every state that is reached, whatever ids the client replies to, the id of
  -- a thread that sleeps is in the waiting list, so that a signal of the id is still to come and
  -- wakes it.
  pub asleep-is_listed :
      {b : Bool} {s : System} (t : ℕ) {i : Bool}
      → Reach stacks b s
      → s.thread t ≡ asleep i
      → is_listed (id_of t) s.waiting ≡ true
  asleep-is_listed t r h = ground (arith, (Reach-Inv separate r).fits t)

  -- When a client replies to the messages that it reads, a callback record found for the id of a
  -- thread is the record of that thread, and the thread has not come to the end of its waiting: the
  -- store goes to a live record.
  pub found_is_live :
      {s : System} (t p : ℕ)
      → Reach stacks false s
      → s.replier ≡ found (id_of t) p
      → p ≢ null
      → (p ≡ in_data t) × (inserted_at (s.thread t) ≡ true) × (was_sent (s.thread t) ≡ true)
  found_is_live t p r h n = ground (arith, Reach-Honest separate r t, ==_refl (id_of t))

  -- A thread that is away has left nothing: neither list has an entry for its id.
  pub away_is_clean :
      {b : Bool} {s : System} (t : ℕ)
      → Reach stacks b s
      → s.thread t ≡ away
      → (get_data_by_key (id_of t) s.waiting ≡ null)
        × (get_data_by_key (id_of t) s.pre_operation ≡ null)
  away_is_clean t r h = ground (arith, (Reach-Inv separate r).fits t)

  pub signalled_ending :
      {s : System} (t : ℕ) {i : Bool}
      → Inv stacks s
      → s.thread t ≡ asleep i
      → (signal_key stacks (id_of t) s).thread t ≡ ending i
  unfolding signal_key thread_wakeup signal
  signalled_ending t inv h = ground (arith, inv.fits t, ==_refl (id_of t))

  -- `reply` past the test of the size
  abbrev replied : ℕ → Bool → System → System
  replied t answer s = wake stacks (id_of t) (
      store stacks (id_of t) (get_data_by_key (id_of t) s.pre_operation) answer
        (look_up stacks (id_of t) s))

  stored_answer :
      {b : Bool} {s : System} (t : ℕ) (answer : Bool) {i : Bool}
      → Reach stacks b s
      → s.thread t ≡ asleep i
      → (replied t answer s).callback ≡ (
          if i
          then update s.callback
              (in_data t)
              (record (s.callback (in_data t)) { is_controlled_file = answer })
          else s.callback)
  unfolding store look_up wake signal_key
  stored_answer t answer r h =
      ground (arith, (Reach-Inv separate r).fits t, Reach-Filter separate r t, separate.somewhere t)

  pub replied-Inv :
      {s : System} (id : ℕ) (answer : Bool)
      → Inv stacks s
      → Inv stacks
          (store stacks id (get_data_by_key id s.pre_operation) answer (look_up stacks id s))
  unfolding look_up
  replied-Inv id answer inv =
      store-Inv separate id _ answer _ (Inv-elsewhere separate _ _ refl refl refl inv)

  pub woken-Inv : {s : System} (id : ℕ) → Inv stacks s → Inv stacks (wake stacks id s)
  unfolding wake
  woken-Inv id inv = Inv-elsewhere separate _ _ refl refl refl (signal_key-Inv separate id _ inv)

  replied_thread :
      (s : System) (id p : ℕ) (answer : Bool)
      → (store stacks id p answer (look_up stacks id s)).thread ≡ s.thread
  unfolding store look_up
  replied_thread s id p answer = ground arith

  replied_ending :
      {s : System} (t : ℕ) (answer : Bool) {i : Bool}
      → Inv stacks s
      → s.thread t ≡ asleep i
      → (replied t answer s).thread t ≡ ending i
  unfolding wake
  replied_ending {s} t answer inv h = signalled_ending t (replied-Inv (id_of t) answer inv) (
      ap (λ f. f t) (replied_thread s (id_of t) (get_data_by_key (id_of t) s.pre_operation) answer)
      ∙ h)

  pub finished_away : (t : ℕ) (s : System) → (finish stacks t s).thread t ≡ away
  unfolding finish
  finished_away t s = rw (==_refl t) refl

  -- A thread that sleeps, in any state that is reached, is woken by the reply of its id, whose store
  -- is the answer that its caller reads: in the callback record of a filter request that has an entry
  -- in gPreOperationDataMap, and in none otherwise. Its next step is the last one, and leaves neither
  -- list with an entry for it.
  pub reply_returns :
      {b : Bool} {s : System} (t n : ℕ) (answer : Bool) {i : Bool}
      → Reach stacks b s
      → s.thread t ≡ asleep i
      → 16 ≤ n
      → let replied = reply stacks n (id_of t) answer s in
        let returned = finish stacks t replied.1 in
        (replied.0 ≡ 0)
        × (replied.1.thread t ≡ ending i)
        × (replied.1.callback ≡ (
            if i
            then update s.callback
                (in_data t)
                (record (s.callback (in_data t)) { is_controlled_file = answer })
            else s.callback))
        × (returned.thread t ≡ away)
        × (get_data_by_key (id_of t) returned.waiting ≡ null)
        × (get_data_by_key (id_of t) returned.pre_operation ≡ null)
  unfolding reply
  reply_returns {s} t n answer {i} r h big = rw large (
    refl,
    ending_now,
    stored_answer t answer r h,
    gone,
    at_end.outsider (rw gone refl),
    at_end.callback ∙ rw gone refl,
  )
    where
      large : ltb n 16 ≡ false
      large = ground arith

      ending_now : (replied t answer s).thread t ≡ ending i
      ending_now = replied_ending t answer (Reach-Inv separate r) h

      gone : (finish stacks t (replied t answer s)).thread t ≡ away
      gone = finished_away t (replied t answer s)

      at_end : FitsAt stacks (finish stacks t (replied t answer s)) t
      at_end =
          (finish-Inv separate t (replied t answer s) ending_now
              (woken-Inv (id_of t) (replied-Inv (id_of t) answer (Reach-Inv separate r)))).fits
            t

  -- A reply of less than the size of a VFSClientReply fails with kIOReturnBadArgument and changes
  -- nothing, whatever its id; one of enough bytes succeeds, and if its id is in neither list it changes
  -- nothing either. How many bytes more there are makes no difference.
  pub reply_errors :
      (n id : ℕ) (answer : Bool) (s : System)
      → s.replier ≡ outside
      → reply stacks n id answer s ≡ (
          if ltb n 16
          then (0xe00002c2, s)
          else if get_data_by_key id s.waiting == null && get_data_by_key id s.pre_operation == null
          then (0, s)
          else (0, (reply stacks 16 id answer s).1))
  unfolding reply look_up store wake signal_key signal
  reply_errors n id answer s c = ground arith
