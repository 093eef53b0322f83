-- ===== src/Tests/Protocol.antt =====
-- Runs of the protocol with the client: the thread 0 asks the client whether a file is controlled.
use mac_osx_vfs_redirector.Base.{
  ℕ, ◌+◌, ◌*◌, ◌≤◌, ◌≡◌, ◌≢◌, refl, Bool, true, false, some, [], All, codes, length, arith,
}
use mac_osx_vfs_redirector.DataMap.{null, add_data_by_key, get_data_by_key}
use mac_osx_vfs_redirector.Event.{Opcode, FilePath}
use mac_osx_vfs_redirector.Client.Waiting.{is_listed, enter, must_block}
use mac_osx_vfs_redirector.Client.Requests.Threads.{
  Stacks, AreSeparate, away, asleep, ending, System, Callback, inserted_at, update,
}
use mac_osx_vfs_redirector.Client.Requests.Steps.{
  build, enter_list, send, wait, finish, look_up, reply, build_step, enter_step, send_step,
  wait_step, read_step, at_rest, Reach, start, later, Run, Step,
}
use mac_osx_vfs_redirector.Client.Requests.Honest.{was_sent}
use mac_osx_vfs_redirector.Client.Requests.Safety.{
  asleep-is_listed, found_is_live, away_is_clean, reply_returns, reply_errors,
}
use mac_osx_vfs_redirector.Client.Requests.Service.{serve_up_to, sleeper_is_served}
use mac_osx_vfs_redirector.Client.Registration.Threads.{Driver}
use mac_osx_vfs_redirector.Client.Registration.Steps.{
  test_client, count_invocation, load_client, exchange_same, exchange_null, test_pending, swap_in,
  test_step, count_step, load_step, same_step, null_step, pending_step, register_step, started,
}
use mac_osx_vfs_redirector.Client.Registration.Steps as Registration
use mac_osx_vfs_redirector.Client.Registration.Safety.{used_is_retained}
use mac_osx_vfs_redirector.Client.Messages.{
  Request, KernelData, Message, init_data, message_of, sizeof_data, strings, request_read,
  copy_path,
}
use mac_osx_vfs_redirector.Client.Messages.Bounds.{message_fits, request-read_lem}

abbrev stacks : Stacks
stacks = record { id_of = λ t. 2 * t + 100; in_data = λ t. 2 * t + 101 }

separate : AreSeparate stacks
separate = record {
  apart = λ t u e. omega arith;
  apart_data = λ t u e. omega arith;
  somewhere = λ t. omega arith;
}

abbrev question : Callback
question = record { op = Opcode.filter; is_controlled_file = false }

abbrev building : System
building = build stacks true 0 question at_rest

abbrev entering : System
entering = enter_list stacks true 0 building

abbrev sending : System
sending = send stacks 2100 true 0 entering

abbrev sleeping : System
sleeping = wait stacks 0 sending

abbrev finding : System
finding = record (look_up stacks 100 sleeping) { messages = [] }

sleeping_reached : {b : Bool} → Reach stacks b sleeping
unfolding build enter_list send wait enter add_data_by_key
sleeping_reached =
    later
      (later
        (later (later start (build_step true 0 question refl)) (enter_step true 0 {i = true} refl))
        (send_step 2100 true 0 {i = true} refl))
      (wait_step 0 {i = true} refl)

finding_reached : Reach stacks false finding
unfolding build enter_list send wait enter add_data_by_key
finding_reached = later sleeping_reached (read_step 100 refl refl)

asleep_now : sleeping.thread 0 ≡ asleep true
unfolding build enter_list send wait enter add_data_by_key must_block get_data_by_key
asleep_now = refl

asleep-is_listed_example : is_listed 100 sleeping.waiting ≡ true
asleep-is_listed_example = asleep-is_listed separate 0 (sleeping_reached {b = true}) asleep_now

found_is_live_example :
    (◌≡◌ {A = ℕ} 101 101)
    × (inserted_at (finding.thread 0) ≡ true)
    × (was_sent (finding.thread 0) ≡ true)
unfolding build enter_list send wait look_up enter add_data_by_key must_block get_data_by_key
found_is_live_example = found_is_live separate 0 101 finding_reached refl (omega arith)

away_is_clean_example :
    (get_data_by_key 102 sleeping.waiting ≡ null)
    × (get_data_by_key 102 sleeping.pre_operation ≡ null)
unfolding build enter_list send wait
away_is_clean_example = away_is_clean separate 1 (sleeping_reached {b = true}) refl

reply_returns_example :
    let replied = reply stacks 16 100 true sleeping in
    let returned = finish stacks 0 replied.1 in
    (replied.0 ≡ 0)
    × (replied.1.thread 0 ≡ ending true)
    × (replied.1.callback
        ≡ update sleeping.callback 101
            (record (sleeping.callback 101) { is_controlled_file = true }))
    × (returned.thread 0 ≡ away)
    × (get_data_by_key 100 returned.waiting ≡ null)
    × (get_data_by_key 100 returned.pre_operation ≡ null)
reply_returns_example =
    reply_returns separate 0 16 true (sleeping_reached {b = true}) asleep_now (omega arith)

reply_errors_example : reply stacks 16 7 true sleeping ≡ (0, sleeping)
unfolding build enter_list send wait enter add_data_by_key get_data_by_key
reply_errors_example = reply_errors separate 16 7 true sleeping refl

sleeper_is_served_example :
    let served = serve_up_to stacks [] 100 [] (λ id. true) sleeping in
    Run stacks false sleeping served
    × (served.messages ≡ [])
    × (served.thread 0 ≡ ending true)
    × Step stacks false served (finish stacks 0 served)
    × ((finish stacks 0 served).thread 0 ≡ away)
unfolding build enter_list send wait
sleeper_is_served_example =
    sleeper_is_served separate 0 [] [] (λ id. true) sleeping_reached asleep_now refl refl

abbrev registered : Driver
registered = swap_in 40 (test_pending 40 started)

abbrev in_use : Driver
in_use =
    exchange_null 0 40
      (exchange_same 0 40 (load_client 0 (count_invocation 0 (test_client 0 registered))))

used_is_retained_example :
    (◌≢◌ {A = ℕ} 40 null)
    × (in_use.is_released 40 ≡ false)
    × (1 ≤ in_use.client_invocations)
    × (in_use.client_invocations ≤ 1)
unfolding test_client count_invocation load_client exchange_same exchange_null test_pending swap_in
used_is_retained_example = used_is_retained {n = 1} 0 40 reached refl
  where
    reached : Registration.Reach 1 in_use
    reached =
        Registration.later
          (Registration.later
            (Registration.later
              (Registration.later
                (Registration.later
                  (Registration.later (Registration.later Registration.start (pending_step 40 refl))
                    (register_step 40 refl refl (λ e. cc e)))
                  (test_step 0 (omega arith) refl))
                (count_step 0 (omega arith) refl))
              (load_step 0 (omega arith) refl))
            (same_step 0 40 (omega arith) refl))
          (null_step 0 40 (omega arith) refl)

abbrev no_path : ℕ → ℕ × FilePath
no_path vn = (2, [])

abbrev asked : Request
asked = Request.filter Opcode.read (codes "/a.docx")

message_fits_example :
    (2088 ≤ sizeof_data)
    × All
        (λ (s : ℕ × FilePath). s.0 + length s.1 + 1 ≤ 2088)
        (strings (Message.filter 100 Opcode.read (codes "/a.docx")))
unfolding message_of copy_path
message_fits_example =
    message_fits no_path (KernelData.filter 100 Opcode.read (codes "/a.docx"))
      {m = Message.filter 100 Opcode.read (codes "/a.docx")} {size = 2088} (λ vn. omega arith) refl

request-read_lem_example :
    (m : Message) × (size : ℕ) × (message_of no_path (init_data 100 asked) ≡ some (m, size))
    × (size ≢ 0)
    × (request_read size m ≡ some (100, asked))
request-read_lem_example = request-read_lem no_path 100 asked (omega arith)
