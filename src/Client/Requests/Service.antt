-- ===== src/Client/Requests/Service.antt =====
-- A client that goes on replying serves every thread whose message is in the queue.
use mac_osx_vfs_redirector.Base.{
  ℕ, ◌≡◌, refl, Bool, false, List, [], ◌∷◌, ◌++◌, arith, inl, ==_refl, ◌⊎◌,
}
use mac_osx_vfs_redirector.DataMap.{get_data_by_key}
use mac_osx_vfs_redirector.Client.Waiting.{signal}
use mac_osx_vfs_redirector.Client.Requests.Threads.{
  Stacks, AreSeparate, Point, away, asleep, ending, System, outside, thread_wakeup,
}
use mac_osx_vfs_redirector.Client.Requests.Steps.{
  signal_key, finish, look_up, store, wake, read_step, store_step, wake_step, finish_step, Reach,
  Run, Step, stop, go,
}
use mac_osx_vfs_redirector.Client.Requests.Lists.{Inv, Inv-elsewhere}
use mac_osx_vfs_redirector.Client.Requests.Reached.{store-Inv, Reach-Inv}
use mac_osx_vfs_redirector.Client.Requests.Safety.{woken-Inv, finished_away}

module _ (stacks : Stacks) where
  open stacks use {id_of, in_data}

  -- One turn of the client: it reads the oldest message, and replies to it.
  unfoldable pub serve : (id : ℕ) (rest : List ℕ) (answer : Bool) → System → System
  serve id rest answer s =
      let s' = record (look_up stacks id s) { messages = rest } in
      wake stacks id (store stacks id (get_data_by_key id s.pre_operation) answer s')

  -- The client's turns for the messages `before` and the one of `id`, with an answer for each id.
  unfoldable pub serve_up_to :
      (before : List ℕ) (id : ℕ) (after : List ℕ) (answer : ℕ → Bool) → System → System
  unfolding serve
  serve_up_to [] id after answer s = serve id after (answer id) s
  serve_up_to (first ∷ before) id after answer s =
      serve_up_to before id after answer (serve first (before ++ id ∷ after) (answer first) s)

  serve-Run :
      (id : ℕ) (rest : List ℕ) (answer : Bool) (s : System) {last : System}
      → s.replier ≡ outside
      → s.messages ≡ id ∷ rest
      → Run stacks false (serve id rest answer s) last
      → Run stacks false s last
  unfolding serve look_up store
  serve-Run id rest answer s h e run = go (read_step id h e) (
      go (store_step id (get_data_by_key id s.pre_operation) answer refl)
        (go (wake_step id (ground arith)) run))

  served_queue :
      (id : ℕ) (rest : List ℕ) (answer : Bool) (s : System)
      → ((serve id rest answer s).replier ≡ outside) × ((serve id rest answer s).messages ≡ rest)
  unfolding serve wake store signal_key look_up
  served_queue id rest answer s = ground arith

  -- A thread sleeps, or has been woken.
  abbrev pub IsWaiting : Point → Bool → Type 0
  IsWaiting p i = (p ≡ asleep i) ⊎ (p ≡ ending i)

  served-IsWaiting :
      (t id : ℕ) (rest : List ℕ) (answer : Bool) {i : Bool} (s : System)
      → IsWaiting (s.thread t) i
      → IsWaiting ((serve id rest answer s).thread t) i
  unfolding serve wake store signal_key thread_wakeup look_up
  served-IsWaiting t id rest answer s h = ground arith

module _ {stacks : Stacks} (separate : AreSeparate stacks) where
  open stacks use {id_of, in_data}

  served-Inv :
      (id : ℕ) (rest : List ℕ) (answer : Bool) (s : System)
      → Inv stacks s
      → Inv stacks (serve stacks id rest answer s)
  unfolding serve look_up
  served-Inv id rest answer s inv =
      woken-Inv separate id
        (store-Inv separate id _ answer _ (Inv-elsewhere separate _ _ refl refl refl inv))

  served_ending :
      (t : ℕ) (rest : List ℕ) (answer : Bool) {i : Bool} (s : System)
      → Inv stacks s
      → IsWaiting stacks (s.thread t) i
      → (serve stacks (id_of t) rest answer s).thread t ≡ ending i
  unfolding serve wake store signal_key signal thread_wakeup look_up
  served_ending t rest answer s inv h = ground (arith, inv.fits t, ==_refl (id_of t))

  pub served_from :
      (t : ℕ) (before after : List ℕ) (answer : ℕ → Bool) {i : Bool} (s : System)
      → Inv stacks s
      → IsWaiting stacks (s.thread t) i
      → s.replier ≡ outside
      → s.messages ≡ before ++ id_of t ∷ after
      → let served = serve_up_to stacks before (id_of t) after answer s in
        Run stacks false s served × (served.thread t ≡ ending i) × (served.messages ≡ after)
  unfolding serve_up_to
  served_from t [] after answer s inv h o e = (
    serve-Run stacks (id_of t) after (answer (id_of t)) s o e stop,
    served_ending t after (answer (id_of t)) s inv h,
    (served_queue stacks (id_of t) after (answer (id_of t)) s).1,
  )
  served_from t (id ∷ before) after answer s inv h o e =
      let rest : List ℕ = before ++ id_of t ∷ after in
      let queue = served_queue stacks id rest (answer id) s in
      let later =
        served_from t before after answer (serve stacks id rest (answer id) s)
          (served-Inv id rest (answer id) s inv) (served-IsWaiting stacks t id rest (answer id) s h)
          queue.0 queue.1 in
      (serve-Run stacks id rest (answer id) s o e later.0, later.1, later.2)

  -- A thread that sleeps and whose message is in the queue, in any state that is reached in which the
  -- client is between two replies, is served by the client alone: when the client has read and answered
  -- the messages up to the thread's own, whatever it answers, which is a run, and has left the later
  -- messages in the queue, the thread has been woken, and its own next step, the return, is a step of
  -- the relation, after which it is away.
  pub sleeper_is_served :
      {s : System} (t : ℕ) (before after : List ℕ) (answer : ℕ → Bool) {i : Bool}
      → Reach stacks false s
      → s.thread t ≡ asleep i
      → s.replier ≡ outside
      → s.messages ≡ before ++ id_of t ∷ after
      → let served = serve_up_to stacks before (id_of t) after answer s in
        Run stacks false s served
        × (served.messages ≡ after)
        × (served.thread t ≡ ending i)
        × Step stacks false served (finish stacks t served)
        × ((finish stacks t served).thread t ≡ away)
  sleeper_is_served {s} t before after answer r h o e =
      let done = served_from t before after answer s (Reach-Inv separate r) (inl h) o e in
      let served = serve_up_to stacks before (id_of t) after answer s in
      (done.0, done.2, done.1, finish_step t done.1, finished_away separate t served)
