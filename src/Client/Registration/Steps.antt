-- ===== src/Client/Registration/Steps.antt =====
-- The steps of the methods.
use mac_osx_vfs_redirector.Base.{
  ℕ, ◌+◌, ◌-◌, ◌<◌, ◌≡◌, ◌≢◌, true, false, not, ◌||◌, Option, none, some, ◌==◌, if◌then◌else◌,
}
use mac_osx_vfs_redirector.DataMap.{null}
use mac_osx_vfs_redirector.Client.Registration.Threads.{
  away, passed, counted, failed, loaded, kept, using, Unregistration, idle, marked, swapped,
  drained, Driver, update,
}

-- `getClient`: the test before anything is counted
unfoldable pub test_client : ℕ → Driver → Driver
test_client t d = record d {
  thread =
      update d.thread t
        (if d.user_client == null || d.pending_unregistration then away else passed);
}

-- OSIncrementAtomic
unfoldable pub count_invocation : ℕ → Driver → Driver
count_invocation t d = record d {
  client_invocations = d.client_invocations + 1;
  thread = update d.thread t counted;
}

unfoldable pub load_client : ℕ → Driver → Driver
load_client t d = record d { thread = update d.thread t (loaded d.user_client) }

-- The exchange of the client with itself
unfoldable pub exchange_same : (t client : ℕ) → Driver → Driver
exchange_same t c d = record d {
  thread = update d.thread t (if c == null || not (d.user_client == c) then failed else kept c);
}

-- The exchange of NULL with itself
unfoldable pub exchange_null : (t client : ℕ) → Driver → Driver
exchange_null t c d = record d {
  thread = update d.thread t (if d.user_client == null then failed else using c);
}

-- OSDecrementAtomic, where `getClient` gives up and in `putClient`
unfoldable pub uncount_invocation : ℕ → Driver → Driver
uncount_invocation t d = record d {
  client_invocations = d.client_invocations - 1;
  thread = update d.thread t away;
}

-- `unregisterUserClient` for a client: an error if it is not the registered one.
unfoldable pub begin_unregistration : ℕ → Driver → Driver
begin_unregistration c d =
    if d.user_client == c
    then record d { pending_unregistration = true; unregistration = marked c }
    else d

-- The exchange of the client with NULL, and the error where it fails
unfoldable pub swap_out : ℕ → Driver → Driver
swap_out c d =
    if d.user_client == c
    then record d { user_client = null; unregistration = swapped c }
    else record d { pending_unregistration = false; unregistration = idle }

-- One turn of the loop that waits for the invocations to return
unfoldable pub poll : ℕ → Driver → Driver
poll c d = if d.client_invocations == 0 then record d { unregistration = drained c } else d

-- `currentClient->release()`, and the end
unfoldable pub release : ℕ → Driver → Driver
release c d = record d {
  pending_unregistration = false;
  unregistration = idle;
  is_released = update d.is_released c true;
}

-- `registerUserClient`: the test, and the exchange of NULL with the client
unfoldable pub test_pending : ℕ → Driver → Driver
test_pending c d = if d.pending_unregistration then d else record d { registering = some c }

unfoldable pub swap_in : ℕ → Driver → Driver
swap_in c d =
    if d.user_client == null
    then record d { user_client = c; registering = none }
    else record d { registering = none }

-- The client that is being unregistered
abbrev pub unregistered_client : Unregistration → Option ℕ
unregistered_client idle = none
unregistered_client (Unregistration.marked c) = some c
unregistered_client (Unregistration.swapped c) = some c
unregistered_client (Unregistration.drained c) = some c

-- `n` threads, and one at a time in each of the client's methods. A client registers when it starts,
-- before it is closed: it is neither released nor being unregistered.
pub data Step (n : ℕ) (d : Driver) : Driver → Type 0 where
  test_step : (t : ℕ) → t < n → d.thread t ≡ away → Step n d (test_client t d)
  count_step : (t : ℕ) → t < n → d.thread t ≡ passed → Step n d (count_invocation t d)
  load_step : (t : ℕ) → t < n → d.thread t ≡ counted → Step n d (load_client t d)
  same_step : (t c : ℕ) → t < n → d.thread t ≡ loaded c → Step n d (exchange_same t c d)
  null_step : (t c : ℕ) → t < n → d.thread t ≡ kept c → Step n d (exchange_null t c d)
  fail_step : (t : ℕ) → t < n → d.thread t ≡ failed → Step n d (uncount_invocation t d)
  put_step : (t c : ℕ) → t < n → d.thread t ≡ using c → Step n d (uncount_invocation t d)
  begin_step : (c : ℕ) → c ≢ null → d.unregistration ≡ idle → Step n d (begin_unregistration c d)
  swap_step : (c : ℕ) → d.unregistration ≡ marked c → Step n d (swap_out c d)
  poll_step : (c : ℕ) → d.unregistration ≡ swapped c → Step n d (poll c d)
  release_step : (c : ℕ) → d.unregistration ≡ drained c → Step n d (release c d)
  pending_step : (c : ℕ) → d.registering ≡ none → Step n d (test_pending c d)
  register_step :
      (c : ℕ)
      → d.registering ≡ some c
      → d.is_released c ≡ false
      → unregistered_client d.unregistration ≢ some c
      → Step n d (swap_in c d)

-- `com_VFSFilter0::start`: no client
abbrev pub started : Driver
started = record {
  user_client = null;
  pending_unregistration = false;
  client_invocations = 0;
  thread = λ _. away;
  unregistration = idle;
  registering = none;
  is_released = λ _. false;
}

pub data Reach (n : ℕ) : Driver → Type 0 where
  start : Reach n started
  later : {d d' : Driver} → Reach n d → Step n d d' → Reach n d'
