-- ===== src/Recursion.antt =====
-- VFSFilter0/VFSFilter0/RecursionEngine.h, class RecursionEngine: a DataMap from threads to cookies.
-- A thread that has an entry makes a recursive call, and the hooks pass it through.
use mac_osx_vfs_redirector.Base.{ℕ, ◌≡◌, Bool, true, false, not, ◌==◌, if◌then◌else◌, arith}
use mac_osx_vfs_redirector.DataMap.Laws.{IsValid, get-add, get-remove}
use mac_osx_vfs_redirector.DataMap.{null, DataMap, add_data_by_key, remove_key, get_data_by_key}

unfoldable pub cookie_for_recursive_call : (thread : ℕ) → DataMap → ℕ
cookie_for_recursive_call t m = get_data_by_key t m

unfoldable pub is_recursive_call : (thread : ℕ) → DataMap → Bool
is_recursive_call t m = not (get_data_by_key t m == null)

-- `allocated` is the answer of the IOMalloc for the entry.
unfoldable pub enter_recursive_call : (allocated : Bool) → (thread cookie : ℕ) → DataMap → DataMap
enter_recursive_call a t cookie m = (add_data_by_key a t cookie m).1

unfoldable pub leave_recursive_call : (thread : ℕ) → DataMap → DataMap
leave_recursive_call t m = remove_key t m

-- After `EnterRecursiveCall`, where memory is given, the thread is marked, with its cookie, unless that
-- is NULL, and no other thread's mark has changed.
pub enter-is_recursive_call :
    (t u cookie : ℕ) (m : DataMap)
    → (is_recursive_call u (enter_recursive_call true t cookie m)
        ≡ (if t == u then not (cookie == null) else is_recursive_call u m))
      × (cookie_for_recursive_call t (enter_recursive_call true t cookie m) ≡ cookie)
unfolding is_recursive_call enter_recursive_call cookie_for_recursive_call
enter-is_recursive_call t u cookie m =
    (ground (arith, get-add u t cookie m), ground (arith, get-add t t cookie m))

-- In a valid map `LeaveRecursiveCall` clears the thread's mark however often it entered, and no other's.
pub leave-is_recursive_call :
    (t u : ℕ) (m : DataMap)
    → IsValid m
    → is_recursive_call u (leave_recursive_call t m)
      ≡ (if t == u then false else is_recursive_call u m)
unfolding is_recursive_call leave_recursive_call
leave-is_recursive_call t u m v = ground (arith, get-remove u t m v)
