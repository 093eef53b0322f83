-- ===== src/Hooks/Names/Marks.antt =====
-- The recursion mark over the calls that the hooks of names share (VFSHooks.cpp). A hook leaves the mark
-- of the thread as it finds it, or takes it away.

use mac_osx_vfs_redirector.Base.{ℕ, ◌≢◌}
use mac_osx_vfs_redirector.DataMap.{null}
use mac_osx_vfs_redirector.Event.{
  Vnode, FilePath, Vnop, Opcode, Context, caller, original, resized, requested,
}
use mac_osx_vfs_redirector.Hooks.Backing.{resize}
use mac_osx_vfs_redirector.Hooks.Names.{
  is_controlled_file, original_call, recursive_call, recursive_lookup,
}
use mac_osx_vfs_redirector.Kernel.Marks.{
  Mark, Marks, bind-Marks, pure-Marks, step-Marks, note-Marks, lookup_path-Marks,
  enter_recursion-Marks, enter_with-Marks, leave_recursion-Marks, call_vnop_for_vnode-Marks,
}
use mac_osx_vfs_redirector.Kernel.{Kernel}

module _ {K : Type 0} (kernel : Kernel K) {p : Mark} where
  pub resize-Marks :
      (vn : Vnode) (size : ℕ) (c : Context) → Marks kernel p p (resize kernel vn size c)
  unfolding resize
  resize-Marks vn size c =
      bind-Marks (step-Marks kernel _)
        (λ e. bind-Marks (note-Marks kernel (resized vn size)) (λ _. pure-Marks kernel e))

  pub is_controlled_file-Marks :
      (op : Opcode) (path : FilePath) → Marks kernel p p (is_controlled_file kernel op path)
  unfolding is_controlled_file
  is_controlled_file-Marks op path =
      bind-Marks (note-Marks kernel (requested Opcode.filter)) (λ _. step-Marks kernel _)

  pub original_call-Marks :
      (op : Vnop) (dvp : Vnode) → Marks kernel p p (original_call kernel op dvp)
  unfolding original_call
  original_call-Marks op dvp = call_vnop_for_vnode-Marks kernel op original dvp caller

  pub recursive_lookup-Marks :
      (cookie : ℕ) (path : FilePath) (c : Context)
      → cookie ≢ null
      → Marks kernel p p (recursive_lookup kernel cookie path c)
  unfolding recursive_lookup
  recursive_lookup-Marks cookie path c real = bind-Marks (enter_with-Marks kernel cookie real) (λ _.
      bind-Marks (lookup_path-Marks kernel path c)
        (λ r. bind-Marks (leave_recursion-Marks kernel) (λ _. pure-Marks kernel r)))

module _ {K : Type 0} (kernel : Kernel K) (real : kernel.current_thread ≢ null) {p : Mark} where
  pub recursive_call-Marks :
      (op : Vnop) (dvp : Vnode) → Marks kernel p p (recursive_call kernel op dvp)
  unfolding recursive_call
  recursive_call-Marks op dvp = bind-Marks (enter_recursion-Marks kernel real) (λ _.
      bind-Marks (original_call-Marks kernel op dvp)
        (λ r. bind-Marks (leave_recursion-Marks kernel) (λ _. pure-Marks kernel r)))
