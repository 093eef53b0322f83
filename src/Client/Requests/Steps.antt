-- ===== src/Client/Requests/Steps.antt =====
-- The steps of the threads and of the client.
use mac_osx_vfs_redirector.Base.{
  ℕ, ◌≡◌, Bool, true, false, List, [], ◌∷◌, ◌++◌, ◌==◌, if◌then◌else◌, ltb,
}
use mac_osx_vfs_redirector.DataMap.{null, add_data_by_key, remove_key, get_data_by_key}
use mac_osx_vfs_redirector.Event.{Opcode}
use mac_osx_vfs_redirector.Client.Waiting.{enter, must_block, signal}
use mac_osx_vfs_redirector.Client.Requests.Threads.{
  Stacks, away, built, listed, unsent, sent, asleep, ending, outside, found, stored, Callback,
  System, update, inserted_at, thread_wakeup,
}

abbrev pub is_filter : Opcode → Bool
is_filter Opcode.filter = true
is_filter _ = false

-- Every thread is away, and nothing waits to be read or answered.
abbrev pub at_rest : System
at_rest = record {
  waiting = [];
  pre_operation = [];
  messages = [];
  thread = λ _. away;
  replier = outside;
  callback = λ _. record { op = Opcode.unknown; is_controlled_file = false };
}

module _ (stacks : Stacks) where
  open stacks use {id_of, in_data}

  -- The switch on `inData->op`, for a thread whose caller passes `callback`: a filter request goes to
  -- gPreOperationDataMap, and is answered with false where there is no memory for its entry.
  unfoldable pub build : (allocated : Bool) → ℕ → Callback → System → System
  build allocated t c s =
      let added = add_data_by_key allocated (id_of t) (in_data t) s.pre_operation in
      if is_filter c.op
      then record s {
        pre_operation = added.1;
        callback =
            update s.callback (in_data t)
              (if added.0 then c else record c { is_controlled_file = false });
        thread = update s.thread t (built added.0);
      }
      else record s {
        callback = update s.callback (in_data t) c;
        thread = update s.thread t (built false);
      }

  -- gFileOpenWaitingList.enter
  unfoldable pub enter_list : (allocated : Bool) → ℕ → System → System
  enter_list allocated t s =
      let entered = enter allocated (id_of t) s.waiting in
      record s {
        waiting = entered.1;
        thread = update s.thread t (
            if entered.0
            then listed (inserted_at (s.thread t))
            else ending (inserted_at (s.thread t)));
      }

  -- `sendVFSDataToClient` for a message of `size` bytes: nothing is sent when it is 0, and what
  -- `enqueue` says of the queue's room is not looked at.
  unfoldable pub send : (size : ℕ) (room : Bool) → ℕ → System → System
  send size room t s =
      if size == 0
      then record s { thread = update s.thread t (unsent (inserted_at (s.thread t))) }
      else record s {
        messages = if room then s.messages ++ id_of t ∷ [] else s.messages;
        thread = update s.thread t (sent (inserted_at (s.thread t)));
      }

  -- gFileOpenWaitingList.wait
  unfoldable pub wait : ℕ → System → System
  wait t s = record s {
    thread = update s.thread t (
        if must_block (id_of t) s.waiting
        then asleep (inserted_at (s.thread t))
        else ending (inserted_at (s.thread t)));
  }

  -- gFileOpenWaitingList.signal, by anyone
  unfoldable pub signal_key : ℕ → System → System
  signal_key key s =
      let signalled = signal key s.waiting in
      record s {
        waiting = signalled.1;
        thread = if signalled.0 then thread_wakeup stacks key s.thread else s.thread;
      }

  -- The signal of the thread itself, when nothing was sent
  unfoldable pub cancel : ℕ → System → System
  cancel t s =
      let s' = signal_key (id_of t) s in
      record s' { thread = update s'.thread t (ending (inserted_at (s'.thread t))) }

  -- The removal from gPreOperationDataMap, and the return
  unfoldable pub finish : ℕ → System → System
  finish t s = record s {
    pre_operation =
        if inserted_at (s.thread t) then remove_key (id_of t) s.pre_operation else s.pre_operation;
    thread = update s.thread t away;
  }

  -- `reply` up to the lookup, for a reply that passed the test of its size
  unfoldable pub look_up : ℕ → System → System
  look_up id s = record s { replier = found id (get_data_by_key id s.pre_operation) }

  -- The store to `inData`
  unfoldable pub store : (id p : ℕ) (answer : Bool) → System → System
  store id p answer s = if p == null then record s { replier = stored id } else record s {
    replier = stored id;
    callback =
        if is_filter (s.callback p).op
        then update s.callback p (record (s.callback p) { is_controlled_file = answer })
        else s.callback;
  }

  -- The signal, and the return
  unfoldable pub wake : ℕ → System → System
  wake id s = record (signal_key id s) { replier = outside }

  -- `reply` from end to end, with no other step in between: the result, kIOReturnBadArgument for a
  -- buffer that is too small for a VFSClientReply, and the state.
  unfoldable pub reply : (in_size id : ℕ) (answer : Bool) → System → ℕ × System
  reply in_size id answer s =
      if ltb in_size 16
      then (0xe00002c2, s)
      else (0, wake id (store id (get_data_by_key id s.pre_operation) answer (look_up id s)))

  -- `forging` clients reply to ids of their own choice; the others to the messages that they read,
  -- each once and in order.
  pub data Step (forging : Bool) (s : System) : System → Type 0 where
    build_step :
        (allocated : Bool) (t : ℕ) (c : Callback)
        → s.thread t ≡ away
        → Step forging s (build allocated t c s)
    enter_step :
        (allocated : Bool) (t : ℕ) {i : Bool}
        → s.thread t ≡ built i
        → Step forging s (enter_list allocated t s)
    send_step :
        (size : ℕ) (room : Bool) (t : ℕ) {i : Bool}
        → s.thread t ≡ listed i
        → Step forging s (send size room t s)
    wait_step : (t : ℕ) {i : Bool} → s.thread t ≡ sent i → Step forging s (wait t s)
    cancel_step : (t : ℕ) {i : Bool} → s.thread t ≡ unsent i → Step forging s (cancel t s)
    finish_step : (t : ℕ) {i : Bool} → s.thread t ≡ ending i → Step forging s (finish t s)
    read_step :
        (id : ℕ) {rest : List ℕ}
        → s.replier ≡ outside
        → s.messages ≡ id ∷ rest
        → Step forging s (record (look_up id s) { messages = rest })
    forge_step : (id : ℕ) → forging ≡ true → s.replier ≡ outside → Step forging s (look_up id s)
    store_step :
        (id p : ℕ) (answer : Bool) → s.replier ≡ found id p → Step forging s (store id p answer s)
    wake_step : (id : ℕ) → s.replier ≡ stored id → Step forging s (wake id s)

  pub data Reach (forging : Bool) : System → Type 0 where
    start : Reach forging at_rest
    later : {s s' : System} → Reach forging s → Step forging s s' → Reach forging s'

  pub data Run (forging : Bool) : System → System → Type 0 where
    stop : {s : System} → Run forging s s
    go : {s s' s'' : System} → Step forging s s' → Run forging s' s'' → Run forging s s''
