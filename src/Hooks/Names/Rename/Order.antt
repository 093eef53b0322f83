-- ===== src/Hooks/Names/Rename/Order.antt =====
-- In which order a rename of a redirected file renames, and when it stops (VFSHooks.cpp 2567-2593).
use mac_osx_vfs_redirector.Base.{ℕ, ◌≡◌, ◌∷◌, arith, ◌==◌, ◌&&◌, Bool, if◌then◌else◌}
use mac_osx_vfs_redirector.DataMap.{null}
use mac_osx_vfs_redirector.Event.{Vnode, Vnop, called, original, vector_of, caller, super_user}
use mac_osx_vfs_redirector.Hooks.Names.Rename.{rename_all}
use mac_osx_vfs_redirector.Hooks.Names.{Switches}
use mac_osx_vfs_redirector.Kernel.Calls.{
  enter_recursion, leave_recursion, call_vnop, on_maps, note, step, is_recursive,
}
use mac_osx_vfs_redirector.Recursion.{is_recursive_call}
use mac_osx_vfs_redirector.Kernel.Quiet.{operations}
use mac_osx_vfs_redirector.VnodeMap.{VnodeMap, remove_shadow_reverse, put_unless_null}
use mac_osx_vfs_redirector.Kernel.{Kernel, World, pure, ◌>>=◌}

-- Forgetting a shadow vnode calls no vnode operation.
remove_shadow_reverse-operations :
    (v : Vnode) (s : VnodeMap) → operations (remove_shadow_reverse v s).log ≡ operations s.log
unfolding remove_shadow_reverse operations put_unless_null
remove_shadow_reverse-operations v s = ground arith

module _ {K : Type 0} (kernel : Kernel K) where
  -- In a rename of a redirected file the redirected file is renamed first, in the context of the super
  -- user, the shadow file only when that succeeded, and the original one only when that succeeded too
  -- and the directories are kept alike. No vnode operation is called besides, all on a thread with the
  -- same mark, and the error of the last one is the result.
  pub rename_all-order :
      (switches : Switches) (shadow redirected original_fvp : Vnode) (w : World K)
      → let r = rename_all kernel switches shadow redirected original_fvp w in
        (e1 : ℕ) × (e2 : ℕ) × (e3 : ℕ) × (marked : Bool) × (let first =
            called Vnop.rename (vector_of redirected) redirected super_user marked e1 null in
          let second = called Vnop.rename original shadow super_user marked e2 null in
          let third = called Vnop.rename original original_fvp caller marked e3 null in
          (operations r.1.maps.log ≡ (
            if e1 == 0
            then (if e2 == 0 && switches.synchronise_with_original
                then third ∷ second ∷ first ∷ operations w.maps.log
                else second ∷ first ∷ operations w.maps.log)
            else first ∷ operations w.maps.log))
          × (r.0 ≡ (
              if e1 == 0
              then (if e2 == 0 && switches.synchronise_with_original then e3 else e2)
              else e1)))
  unfolding rename_all enter_recursion leave_recursion call_vnop on_maps note step is_recursive
      ◌>>=◌ pure operations
  rename_all-order switches shadow redirected original_fvp w = (
    e1,
    e2,
    e3,
    is_recursive_call kernel.current_thread w1.recursion,
    (grind (arith, remove_shadow_reverse-operations), ground arith),
  )
    where
      w1 : World K
      w1 = (enter_recursion kernel kernel.current_thread w).1

      a1 : (ℕ × Vnode) × K
      a1 = kernel.vnop Vnop.rename (vector_of redirected) redirected super_user w1.kernel

      a2 : (ℕ × Vnode) × K
      a2 = kernel.vnop Vnop.rename original shadow super_user a1.1

      e1 : ℕ
      e1 = a1.0.0

      e2 : ℕ
      e2 = a2.0.0

      e3 : ℕ
      e3 = (kernel.vnop Vnop.rename original original_fvp caller a2.1).0.0
