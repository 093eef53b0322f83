-- ===== src/Client/Requests/Threads.antt =====
-- Where a thread stands in `preOperationCallbackAndWaitForReply` and the client in `reply`, and the
-- state they share.
use mac_osx_vfs_redirector.Base.{ℕ, ◌≡◌, Bool, false, List, ◌==◌, if◌then◌else◌, ◌≢◌}
use mac_osx_vfs_redirector.DataMap.{null, DataMap}
use mac_osx_vfs_redirector.Event.{Opcode}
use mac_osx_vfs_redirector.Client.Waiting.{WaitingList}

-- The kernel stacks: `id_of` is `&data` of a thread, the id of its request, and `in_data` the address
-- of the callback record that its caller passes. Threads are numbered.
pub record Stacks : Type 0 where
  pub id_of : ℕ → ℕ
  pub in_data : ℕ → ℕ

-- Variables of different threads have different addresses, and none has the address NULL.
pub record AreSeparate (stacks : Stacks) : Type 0 where
  pub apart : (t u : ℕ) → stacks.id_of t ≡ stacks.id_of u → t ≡ u
  pub apart_data : (t u : ℕ) → stacks.in_data t ≡ stacks.in_data u → t ≡ u
  pub somewhere : (t : ℕ) → stacks.in_data t ≢ null

-- A thread's next step: `away` is outside of the function, `built` before `enter`, `listed` before
-- `sendVFSDataToClient`, `unsent` and `sent` after it by `data.Status.WasEnqueued`, `asleep` in the
-- `thread_block` of `wait`, `ending` after the waiting. Each carries `insertedInPreOperationDataMap`.
pub data Point : Type 0 where
  away : Point
  built listed unsent sent asleep ending : (inserted : Bool) → Point

-- `reply`, between the calls of the client; after the lookup of the callback, with its address; and
-- before the signal.
pub data Replier : Type 0 where
  outside : Replier
  found : (id in_data : ℕ) → Replier
  stored : (id : ℕ) → Replier

-- `QvrPreOperationCallback`, the part that is read and written by both sides
pub record Callback : Type 0 where
  pub op : Opcode
  pub is_controlled_file : Bool

-- `messages` is the data queue, the oldest first, and `callback` the memory of the callback records
-- by address.
pub record System : Type 0 where
  pub waiting : WaitingList
  pub pre_operation : DataMap
  pub messages : List ℕ
  pub thread : ℕ → Point
  pub replier : Replier
  pub callback : ℕ → Callback

abbrev pub update {ℓ} : {A : Type ℓ} → (ℕ → A) → ℕ → A → ℕ → A
update f i a j = if i == j then a else f j

-- insertedInPreOperationDataMap
abbrev pub inserted_at : Point → Bool
inserted_at away = false
inserted_at (Point.built i) = i
inserted_at (Point.listed i) = i
inserted_at (Point.unsent i) = i
inserted_at (Point.sent i) = i
inserted_at (Point.asleep i) = i
inserted_at (Point.ending i) = i

-- `thread_wakeup`, to a thread that waits for the key
abbrev pub awaken : Point → Point
awaken (Point.asleep i) = Point.ending i
awaken p = p

module _ (stacks : Stacks) where
  -- `thread_wakeup` of a key
  unfoldable pub thread_wakeup : ℕ → (ℕ → Point) → ℕ → Point
  thread_wakeup key thread t = if stacks.id_of t == key then awaken (thread t) else thread t
