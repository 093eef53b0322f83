-- ===== src/Hooks/Session/Unmarked.antt =====
-- The recursion mark of the thread over a run of hooks (VFSHooks.cpp).
use mac_osx_vfs_redirector.Base.{◌≡◌, ◌≢◌, List, [], ◌∷◌, All, false}
use mac_osx_vfs_redirector.DataMap.Laws.{IsValid}
use mac_osx_vfs_redirector.DataMap.{null}
use mac_osx_vfs_redirector.Hooks.Backing.Marks.{associate-Marks}
use mac_osx_vfs_redirector.Hooks.Exchange.Marks.{exchange-Marks}
use mac_osx_vfs_redirector.Hooks.Getattr.Marks.{getattr-Marks}
use mac_osx_vfs_redirector.Hooks.Marks.{
  open-Marks, close-Marks, inactive-Marks, read-Marks, write-Marks,
}
use mac_osx_vfs_redirector.Hooks.Names.Create.Marks.{create-Marks}
use mac_osx_vfs_redirector.Hooks.Names.Lookup.Marks.{lookup-Marks}
use mac_osx_vfs_redirector.Hooks.Names.Rename.Marks.{RealCookies, rename-Marks}
use mac_osx_vfs_redirector.Hooks.Names.{Switches}
use mac_osx_vfs_redirector.Hooks.Reclaim.{reclaim-Marks}
use mac_osx_vfs_redirector.Hooks.Paging.Marks.{pagein-Marks, pageout-Marks}
use mac_osx_vfs_redirector.Hooks.Session.{
  HookCall, opens, closes, inactivates, reads, writes, pages_in, pages_out, exchanges,
  gets_attributes, associates, reclaims, lookups, creates, renames, run, run_all,
}
use mac_osx_vfs_redirector.Kernel.Marks.{Marks, unmarked, bind-Marks, pure-Marks}
use mac_osx_vfs_redirector.Kernel.{Kernel, World, Hook, pure, ◌>>=◌}
use mac_osx_vfs_redirector.Event.{Vnode}
use mac_osx_vfs_redirector.Recursion.{is_recursive_call}

-- The cookies of a rename's lookups, which are addresses, are no NULL.
abbrev pub HasCookies : HookCall → Type 0
HasCookies (renames ap) = RealCookies ap
HasCookies _ = Unit

module _ {K : Type 0} (kernel : Kernel K) (switches : Switches)
    (real : kernel.current_thread ≢ null) where
  then_return-Marks :
      {A : Type 0} {h : Hook K A} (vs : List Vnode)
      → Marks kernel unmarked unmarked h
      → Marks kernel unmarked unmarked (h >>= λ _. pure vs)
  then_return-Marks vs k = bind-Marks k (λ _. pure-Marks kernel vs)

  run-Marks :
      (c : HookCall) (vs : List Vnode)
      → HasCookies c
      → Marks kernel unmarked unmarked (run kernel switches c vs)
  unfolding run
  run-Marks (opens vp) vs h = then_return-Marks vs (open-Marks kernel real vp)
  run-Marks (closes vp) vs h = then_return-Marks vs (close-Marks kernel real vp)
  run-Marks (inactivates vp) vs h = then_return-Marks vs (inactive-Marks kernel real vp)
  run-Marks (reads vp) vs h = then_return-Marks vs (read-Marks kernel real vp)
  run-Marks (writes vp) vs h = then_return-Marks vs (write-Marks kernel real vp)
  run-Marks (reclaims vp) vs h = then_return-Marks vs (reclaim-Marks kernel vp)
  run-Marks (pages_in a) vs h = then_return-Marks vs (pagein-Marks kernel real a)
  run-Marks (pages_out a) vs h = then_return-Marks vs (pageout-Marks kernel real a)
  run-Marks (exchanges f t) vs h = then_return-Marks vs (exchange-Marks kernel real f t)
  run-Marks (gets_attributes want vp) vs h =
      then_return-Marks vs (getattr-Marks kernel real want vp)
  run-Marks (associates vn app f) vs h = then_return-Marks vs (associate-Marks kernel real vn app f)
  run-Marks (lookups dvp cn) vs h =
      bind-Marks (lookup-Marks kernel real switches dvp cn) (λ r. pure-Marks kernel (r.1 ∷ vs))
  run-Marks (creates dvp cn) vs h =
      bind-Marks (create-Marks kernel real switches dvp cn) (λ r. pure-Marks kernel (r.1 ∷ vs))
  run-Marks (renames ap) vs h = then_return-Marks vs (rename-Marks kernel real switches ap h)

  run_all-Marks :
      (calls : List HookCall) (vs : List Vnode)
      → All HasCookies calls
      → Marks kernel unmarked unmarked (run_all kernel switches calls vs)
  unfolding run_all
  run_all-Marks [] vs h = pure-Marks kernel vs
  run_all-Marks (c ∷ l) vs h = bind-Marks (run-Marks c vs h.0) (λ r. run_all-Marks l r h.1)

  -- A thread that is not marked recursive is not marked after any calls of the thirteen hooks, the
  -- reclaim hook without its unhooking, and of the association of a vnode that it runs, whichever way they end: no hook leaves its mark behind,
  -- which would switch off the redirection for good. The map of marks has one entry for each thread, and
  -- threads and the cookies of renames are no null pointers.
  pub run_all-unmarked :
      (calls : List HookCall) (vs : List Vnode) (w : World K)
      → All HasCookies calls
      → IsValid w.recursion
      → is_recursive_call kernel.current_thread w.recursion ≡ false
      → is_recursive_call kernel.current_thread (run_all kernel switches calls vs w).1.recursion
        ≡ false
  run_all-unmarked calls vs w h valid clean = ((run_all-Marks calls vs h).marks w valid clean).1
