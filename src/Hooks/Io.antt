-- ===== src/Hooks/Io.antt =====
-- VFSFilter0/VFSFilter0/VFSHooks.cpp, reads and writes of a redirected file: QvrVnopReadHookEx2 and
-- QvrVnopWriteHookEx2. An argument block is its vnode; the fields that the hooks hand on as they
-- are (a_uio, a_ioflag) are left out.
pub mod Routes
use mac_osx_vfs_redirector.Applications.{ApplicationData, application_data_at}
use mac_osx_vfs_redirector.Base.{ℕ, ◌==◌, Bool, false, if◌then◌else◌}
use mac_osx_vfs_redirector.DataMap.{null}
use mac_osx_vfs_redirector.Event.{
  Vnode, Vnop, Opcode, original, vector_of, Context, caller, super_user,
}
use mac_osx_vfs_redirector.Hooks.Backing.{
  get_backing_vnode_for_redirected_io, adjust_vnode_size_by_backing_vnode,
}
use mac_osx_vfs_redirector.Hooks.{vnode_app_data, if_controlled}
use mac_osx_vfs_redirector.Kernel.Calls.{audit, call_vnop, enter_recursion, leave_recursion, put}
use mac_osx_vfs_redirector.Kernel.{Kernel, Hook, pure, ◌>>=◌, ◌>>◌}

module _ {K : Type 0} (kernel : Kernel K) where
  -- the audit record, and the backing vnode in place of the vnode of the call
  unfoldable pub audit_and_redirect : Opcode → Vnode → ApplicationData → Hook K Vnode
  unfolding audit get_backing_vnode_for_redirected_io
  audit_and_redirect op vp app = do
    audit op
    get_backing_vnode_for_redirected_io kernel vp app false

  -- the vnode that a read, a write or a pageout goes to, NULLVP for the original operation
  unfoldable pub redirected_vnode : Opcode → Vnode → Hook K Vnode
  unfolding vnode_app_data if_controlled audit_and_redirect
  redirected_vnode op vp = do
    app ← vnode_app_data vp
    if_controlled kernel (application_data_at app) (audit_and_redirect op vp) (pure null)

  -- `backingVnop( &apIO )` in its recursive section
  unfoldable pub read_backing_vnode : Vnode → Hook K ℕ
  unfolding enter_recursion call_vnop leave_recursion put
  read_backing_vnode io = do
    enter_recursion kernel (kernel.current_thread)
    e ← call_vnop kernel Vnop.read (vector_of io) io caller
    leave_recursion kernel
    put io
    pure e

  -- `QvrVnopReadHookEx2`
  unfoldable pub read_hook : Vnode → Hook K ℕ
  unfolding redirected_vnode read_backing_vnode call_vnop
  read_hook vp = do
    io ← redirected_vnode Opcode.read vp
    if io == null then call_vnop kernel Vnop.read original vp caller else read_backing_vnode io

  -- `backingVnop( &apIO )` and the size of the covering vnode
  unfoldable pub write_and_adjust : Vnop → (vp io : Vnode) → Hook K ℕ
  unfolding call_vnop adjust_vnode_size_by_backing_vnode
  write_and_adjust op vp io = do
    e ← call_vnop kernel op (vector_of io) io super_user
    adjusted ← if e == 0 then adjust_vnode_size_by_backing_vnode kernel vp io caller else pure 0
    pure e

  unfoldable pub write_backing_vnode : (vp io : Vnode) → Hook K ℕ
  unfolding enter_recursion write_and_adjust leave_recursion put
  write_backing_vnode vp io = do
    enter_recursion kernel (kernel.current_thread)
    e ← write_and_adjust Vnop.write vp io
    leave_recursion kernel
    put io
    pure e

  -- `QvrVnopWriteHookEx2`
  unfoldable pub write_hook : Vnode → Hook K ℕ
  unfolding redirected_vnode write_backing_vnode call_vnop
  write_hook vp = do
    io ← redirected_vnode Opcode.write vp
    if io == null then call_vnop kernel Vnop.write original vp caller else write_backing_vnode vp io
