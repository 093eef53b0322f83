-- ===== src/Client/Requests/Kinds.antt =====
-- The callback of a thread that is in gPreOperationDataMap is a filter request.
use mac_osx_vfs_redirector.Base.{ℕ, ◌≡◌, Bool, true, arith, Bool-cases, inl, inr}
use mac_osx_vfs_redirector.Client.Requests.Threads.{
  Stacks, AreSeparate, Point, away, System, update, Callback, inserted_at, thread_wakeup,
}
use mac_osx_vfs_redirector.Client.Requests.Steps.{
  is_filter, build, enter_list, send, wait, signal_key, cancel, finish, look_up, store, wake, Step,
  build_step, enter_step, send_step, wait_step, cancel_step, finish_step, read_step, forge_step,
  store_step, wake_step, Reach, start, later,
}

module _ (stacks : Stacks) where
  open stacks use {id_of, in_data}

  abbrev pub FilterAt : System → ℕ → Type 0
  FilterAt s t = inserted_at (s.thread t) ≡ true → is_filter (s.callback (in_data t)).op ≡ true

module _ {stacks : Stacks} (separate : AreSeparate stacks) where
  open stacks use {id_of, in_data}

  build-Filter :
      (a : Bool) (t : ℕ) (c : Callback) (s : System)
      → s.thread t ≡ away
      → ((u : ℕ) → FilterAt stacks s u)
      → (u : ℕ) → FilterAt stacks (build stacks a t c s) u
  unfolding build
  build-Filter a t c s h old u = elim (Bool-cases (is_filter c.op)) [
    | inl filter ↦ rw filter (ground (arith, old u, separate.apart_data t u))
    | inr other ↦ rw other (ground (arith, old u, separate.apart_data t u))
  ]

  -- A thread that moves and inserts nothing.
  Filter-pass :
      (t : ℕ) (p : Point) (s : System)
      → inserted_at p ≡ inserted_at (s.thread t)
      → ((u : ℕ) → FilterAt stacks s u)
      → (u : ℕ) → FilterAt stacks (record s { thread = update s.thread t p }) u
  Filter-pass t p s h old u = ground (arith, old u)

  store-Filter :
      (id p : ℕ) (answer : Bool) (s : System)
      → ((u : ℕ) → FilterAt stacks s u)
      → (u : ℕ) → FilterAt stacks (store stacks id p answer s) u
  unfolding store
  store-Filter id p answer s old u = ground (arith, old u)

  signal_key-Filter :
      (key : ℕ) (s : System)
      → ((u : ℕ) → FilterAt stacks s u)
      → (u : ℕ) → FilterAt stacks (signal_key stacks key s) u
  unfolding signal_key thread_wakeup
  signal_key-Filter key s old u = ground (arith, old u)

  finish-Filter :
      (t : ℕ) (s : System)
      → ((u : ℕ) → FilterAt stacks s u)
      → (u : ℕ) → FilterAt stacks (finish stacks t s) u
  unfolding finish
  finish-Filter t s old u = ground (arith, old u)

  Step-Filter :
      {b : Bool} {s s' : System}
      → Step stacks b s s'
      → ((u : ℕ) → FilterAt stacks s u)
      → (u : ℕ) → FilterAt stacks s' u
  unfolding enter_list send wait cancel look_up wake
  Step-Filter (build_step a t c h) old u = build-Filter a t c _ h old u
  Step-Filter (enter_step a t h) old u = ground (arith, old u)
  Step-Filter (send_step n room t h) old u = ground (arith, old u)
  Step-Filter (wait_step t h) old u = ground (arith, old u)
  Step-Filter {s} (cancel_step t h) old u = ground (arith, signal_key-Filter (id_of t) s old u)
  Step-Filter (finish_step t h) old u = finish-Filter t _ old u
  Step-Filter (read_step id h e) old u = old u
  Step-Filter (forge_step id f h) old u = old u
  Step-Filter (store_step id p answer h) old u = store-Filter id p answer _ old u
  Step-Filter (wake_step id h) old u = signal_key-Filter id _ old u

  pub Reach-Filter : {b : Bool} {s : System} → Reach stacks b s → (u : ℕ) → FilterAt stacks s u
  Reach-Filter start u = λ h. cc h
  Reach-Filter (later r st) u = Step-Filter st (Reach-Filter r) u
