-- ===== src/Client/Requests/Reached.antt =====
-- Every step keeps what the waiting list and gPreOperationDataMap hold of every thread.
use mac_osx_vfs_redirector.Base.{
  ℕ, ◌≡◌, refl, Bool, true, false, ◌==◌, arith, Bool-cases, inl, inr, ==_refl,
}
use mac_osx_vfs_redirector.DataMap.{null, add_data_by_key, get_data_by_key}
use mac_osx_vfs_redirector.DataMap.Laws.{
  add_succeeds, get-add, get-remove, add-IsValid, remove-IsValid,
}
use mac_osx_vfs_redirector.Client.Waiting.{this, is_listed, enter, must_block, signal}
use mac_osx_vfs_redirector.Client.Requests.Threads.{
  Stacks, AreSeparate, away, built, listed, unsent, sent, ending, System, Callback, inserted_at,
  thread_wakeup,
}
use mac_osx_vfs_redirector.Client.Requests.Steps.{
  is_filter, build, enter_list, send, wait, signal_key, cancel, finish, look_up, store, wake, Step,
  build_step, enter_step, send_step, wait_step, cancel_step, finish_step, read_step, forge_step,
  store_step, wake_step, Reach, start, later,
}
use mac_osx_vfs_redirector.Client.Requests.Lists.{
  Inv, get-same, get-signal, signal-IsValid, Fits-move, Inv-move, Inv-elsewhere,
}

module _ {stacks : Stacks} (separate : AreSeparate stacks) where
  open stacks use {id_of, in_data}

  build_unallocated-Inv :
      (t : ℕ) (c : Callback) (s : System)
      → s.thread t ≡ away
      → is_filter c.op ≡ true
      → Inv stacks s
      → Inv stacks (build stacks false t c s)
  unfolding build add_data_by_key
  build_unallocated-Inv t c s h f inv = rw f (
      Inv-elsewhere separate _ _ refl refl refl
        (Inv-move separate t (built false) s inv (ground (arith, inv.fits t))))

  build_inserted-Inv :
      (t : ℕ) (c : Callback) (s : System)
      → s.thread t ≡ away
      → is_filter c.op ≡ true
      → Inv stacks s
      → Inv stacks (build stacks true t c s)
  unfolding build
  build_inserted-Inv t c s h f inv =
      rw (f, add_succeeds (id_of t) (in_data t) s.pre_operation)
        (record {
          waiting_valid = inv.waiting_valid;
          pre_operation_valid =
              add-IsValid true (id_of t) (in_data t) s.pre_operation (separate.somewhere t)
                inv.pre_operation_valid;
          fits = λ u.
              Fits-move separate t (built true) _ (in_data t) s.waiting s.pre_operation s.waiting _
                s.thread (ground (arith, inv.fits t)) (λ j. get-same j (id_of t) s.waiting)
                (λ j. get-add j (id_of t) (in_data t) s.pre_operation) u (inv.fits u);
        })

  build-Inv :
      (a : Bool) (t : ℕ) (c : Callback) (s : System)
      → s.thread t ≡ away
      → Inv stacks s
      → Inv stacks (build stacks a t c s)
  unfolding build
  build-Inv a t c s h inv = elim (Bool-cases (is_filter c.op)) [
    | inl filter ↦ elim a as (λ b. Inv stacks (build stacks b t c s)) [
      | false ↦ build_unallocated-Inv t c s h filter inv
      | true ↦ build_inserted-Inv t c s h filter inv
    ]
    | inr other ↦ rw other (
        Inv-elsewhere separate _ _ refl refl refl
          (Inv-move separate t (built false) s inv (ground (arith, inv.fits t))))
  ]

  enter_list-Inv :
      (a : Bool) (t : ℕ) {i : Bool} (s : System)
      → s.thread t ≡ built i
      → Inv stacks s
      → Inv stacks (enter_list stacks a t s)
  unfolding enter_list enter add_data_by_key
  enter_list-Inv false t s h inv = Inv-move separate t _ s inv (ground (arith, inv.fits t))
  enter_list-Inv true t s h inv = record {
    waiting_valid = add-IsValid true (id_of t) this s.waiting (ground arith) inv.waiting_valid;
    pre_operation_valid = inv.pre_operation_valid;
    fits = λ u.
        Fits-move separate t _ _ _ s.waiting s.pre_operation _ s.pre_operation s.thread
          (ground (arith, inv.fits t)) (λ j. get-add j (id_of t) this s.waiting)
          (λ j. get-same j (id_of t) s.pre_operation) u (inv.fits u);
  }

  send-Inv :
      (n : ℕ) (room : Bool) (t : ℕ) {i : Bool} (s : System)
      → s.thread t ≡ listed i
      → Inv stacks s
      → Inv stacks (send stacks n room t s)
  unfolding send
  send-Inv n room t s h inv = elim (Bool-cases (n == 0)) [
    | inl empty ↦ rw empty (Inv-move separate t _ s inv (ground (arith, inv.fits t)))
    | inr some_bytes ↦ rw some_bytes (
        Inv-elsewhere separate _ _ refl refl refl
          (Inv-move separate t _ s inv (ground (arith, inv.fits t))))
  ]

  wait-Inv :
      (t : ℕ) {i : Bool} (s : System)
      → s.thread t ≡ sent i
      → Inv stacks s
      → Inv stacks (wait stacks t s)
  unfolding wait must_block
  wait-Inv t s h inv = Inv-move separate t _ s inv (ground (arith, inv.fits t))

  pub signal_key-Inv : (key : ℕ) (s : System) → Inv stacks s → Inv stacks (signal_key stacks key s)
  unfolding signal_key thread_wakeup signal
  signal_key-Inv key s inv = record {
    waiting_valid = signal-IsValid key s.waiting inv.waiting_valid;
    pre_operation_valid = inv.pre_operation_valid;
    fits = λ u. elim (Bool-cases (is_listed key s.waiting)) [
      | inl here ↦ rw here (ground (arith, inv.fits u, get-remove (id_of u) key s.waiting))
      | inr gone ↦ rw gone (inv.fits u)
    ];
  }

  pub signalled_unlisted :
      (key : ℕ) (s : System)
      → Inv stacks s
      → get_data_by_key key (signal_key stacks key s).waiting ≡ null
  unfolding signal_key
  signalled_unlisted key s inv =
      ground (arith, get-signal key key s.waiting inv.waiting_valid, ==_refl key)

  cancel-Inv :
      (t : ℕ) {i : Bool} (s : System)
      → s.thread t ≡ unsent i
      → Inv stacks s
      → Inv stacks (cancel stacks t s)
  unfolding cancel
  cancel-Inv t s h inv =
      Inv-move separate t _ (signal_key stacks (id_of t) s) (signal_key-Inv (id_of t) s inv) (
        ground (arith, (signal_key-Inv (id_of t) s inv).fits t, signalled_unlisted (id_of t) s inv))

  pub finish-Inv :
      (t : ℕ) {i : Bool} (s : System)
      → s.thread t ≡ ending i
      → Inv stacks s
      → Inv stacks (finish stacks t s)
  unfolding finish
  finish-Inv t s h inv = elim (Bool-cases (inserted_at (s.thread t))) [
    | inl kept ↦ rw kept (record {
      waiting_valid = inv.waiting_valid;
      pre_operation_valid = remove-IsValid (id_of t) s.pre_operation inv.pre_operation_valid;
      fits = λ u.
          Fits-move separate t away _ null s.waiting s.pre_operation s.waiting _ s.thread
            (ground (arith, inv.fits t)) (λ j. get-same j (id_of t) s.waiting)
            (λ j. get-remove j (id_of t) s.pre_operation inv.pre_operation_valid) u (inv.fits u);
    })
    | inr never ↦ rw never (Inv-move separate t away s inv (ground (arith, inv.fits t)))
  ]

  pub store-Inv :
      (id p : ℕ) (answer : Bool) (s : System)
      → Inv stacks s
      → Inv stacks (store stacks id p answer s)
  unfolding store
  store-Inv id p answer s inv = elim (Bool-cases (p == null)) [
    | inl none ↦ rw none (Inv-elsewhere separate _ _ refl refl refl inv)
    | inr one ↦ rw one (Inv-elsewhere separate _ _ refl refl refl inv)
  ]

  pub Step-Inv : {b : Bool} {s s' : System} → Step stacks b s s' → Inv stacks s → Inv stacks s'
  unfolding look_up wake
  Step-Inv (build_step a t c h) inv = build-Inv a t c _ h inv
  Step-Inv (enter_step a t h) inv = enter_list-Inv a t _ h inv
  Step-Inv (send_step n room t h) inv = send-Inv n room t _ h inv
  Step-Inv (wait_step t h) inv = wait-Inv t _ h inv
  Step-Inv (cancel_step t h) inv = cancel-Inv t _ h inv
  Step-Inv (finish_step t h) inv = finish-Inv t _ h inv
  Step-Inv (read_step id h e) inv = Inv-elsewhere separate _ _ refl refl refl inv
  Step-Inv (forge_step id f h) inv = Inv-elsewhere separate _ _ refl refl refl inv
  Step-Inv (store_step id p answer h) inv = store-Inv id p answer _ inv
  Step-Inv (wake_step id h) inv =
      Inv-elsewhere separate _ _ refl refl refl (signal_key-Inv id _ inv)

  pub Reach-Inv : {b : Bool} {s : System} → Reach stacks b s → Inv stacks s
  unfolding get_data_by_key
  Reach-Inv start = record {
    waiting_valid = tt;
    pre_operation_valid = tt;
    fits = λ t. ground arith;
  }
  Reach-Inv (later r st) = Step-Inv st (Reach-Inv r)
