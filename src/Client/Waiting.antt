-- ===== src/Client/Waiting.antt =====
-- VFSFilter0/VFSFilter0/WaitingList.h, class WaitingList: the keys that threads wait for, in a
-- DataMap. `wait` and `signal` hold the list's lock while they read and change it, and `enter` is one
-- call of the DataMap, so each is one step. A thread waits for a key between `assert_wait` and
-- `thread_wakeup` of the key; `thread_block` returns at once when the wakeup came before it.
use mac_osx_vfs_redirector.Base.{ℕ, Bool, true, false, not, ◌==◌, if◌then◌else◌}
use mac_osx_vfs_redirector.DataMap.{null, DataMap, add_data_by_key, remove_key, get_data_by_key}

abbrev pub WaitingList : Type 0
WaitingList = DataMap

-- `this`, the data of every entry: an address
abbrev pub this : ℕ
this = 1

-- whether `list.getDataByKey(key)` is not NULL
abbrev pub is_listed : ℕ → WaitingList → Bool
is_listed key list = not (get_data_by_key key list == null)

unfoldable pub enter : (allocated : Bool) → ℕ → WaitingList → Bool × WaitingList
enter allocated key list = add_data_by_key allocated key this list

-- `wait` under the lock: whether the thread is to block.
unfoldable pub must_block : ℕ → WaitingList → Bool
must_block key list = if is_listed key list then true else false

-- `signal`: whether the threads that wait for the key are woken, and the list left.
unfoldable pub signal : ℕ → WaitingList → Bool × WaitingList
signal key list = if is_listed key list then (true, remove_key key list) else (false, list)
