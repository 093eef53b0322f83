-- ===== src/Hooks/Names/Create.antt =====
-- VFSFilter0/VFSFilter0/VFSHooks.cpp 1089-1327, the creation of a file: QvrVnopCreateHookEx2. The
-- result is the error and `*ap->a_vpp`, which is NULLVP at the start.
pub mod References
pub mod Marks
use mac_osx_vfs_redirector.Applications.{ApplicationData, application_data_at, create_new}
use mac_osx_vfs_redirector.Base.{ℕ, Bool, false, not, ◌&&◌, ◌==◌, if◌then◌else◌}
use mac_osx_vfs_redirector.DataMap.{null}
use mac_osx_vfs_redirector.Event.{Vnode, FilePath, Vnop, Opcode, entry_barred}
use mac_osx_vfs_redirector.Hooks.Backing.{associate_vnode_for_redirected_io}
use mac_osx_vfs_redirector.Hooks.Exchange.{request}
use mac_osx_vfs_redirector.Hooks.Names.{
  ComponentName, Switches, enfile, is_controlled_file, original_call, recursive_call,
}
use mac_osx_vfs_redirector.Hooks.{if_controlled, enomem}
use mac_osx_vfs_redirector.Kernel.Calls.{
  note, from_maps, put, get_vnode, close_vnode, audit, enter_recursion, leave_recursion,
  application_by_context, malloc, open_path, map_add_vnode_app_data, map_add_vnode_shadow_reverse,
}
use mac_osx_vfs_redirector.Kernel.{Kernel, Hook, pure, ◌>>=◌, ◌>>◌}
use mac_osx_vfs_redirector.Paths.{convert_to_shadow_copy_path}
use mac_osx_vfs_redirector.VnodeMap.{get_vnode_io_ref}

module _ {K : Type 0} (kernel : Kernel K) where
  -- the shadow vnode for the caller, if it has a backing vnode, and else ENFILE
  unfoldable pub cover_created :
      (p : ℕ) → ApplicationData → (original shadow : Vnode) → Hook K (ℕ × Vnode)
  unfolding associate_vnode_for_redirected_io from_maps map_add_vnode_app_data put get_vnode
      map_add_vnode_shadow_reverse
  cover_created p app original shadow = do
    associate_vnode_for_redirected_io kernel shadow app false
    backing ← from_maps (get_vnode_io_ref shadow)
    if backing == null then pure (enfile, null) else do
      map_add_vnode_app_data kernel shadow p
      put backing
      get_vnode shadow
      map_add_vnode_shadow_reverse kernel shadow original
      pure (0, shadow)

  -- the shadow file of a file that the original operation has made
  unfoldable pub shadow_created : (p : ℕ) → ApplicationData → FilePath → Vnode → Hook K (ℕ × Vnode)
  unfolding open_path request cover_created close_vnode
  shadow_created p app shadow_path original = do
    opened ← open_path kernel shadow_path
    if not (opened.0 == 0) then pure (opened.0, null) else do
      request kernel Opcode.lookup
      r ← cover_created p app original (opened.1)
      close_vnode (opened.1)
      pure r

  -- the vnode that was returned is taken from the caller, whose is the shadow's
  unfoldable pub replace_created : (p : ℕ) → ApplicationData → FilePath → Vnode → Hook K (ℕ × Vnode)
  unfolding get_vnode put shadow_created
  replace_created p app shadow_path vnode = do
    get_vnode vnode
    put vnode
    r ← shadow_created p app shadow_path vnode
    put vnode
    pure r

  -- the recursive section
  unfoldable pub create_section :
      Switches → (p : ℕ) → ApplicationData → FilePath → Vnode → Hook K (ℕ × Vnode)
  unfolding enter_recursion leave_recursion original_call replace_created
  create_section switches p app shadow_path dvp = do
    enter_recursion kernel (kernel.current_thread)
    r ←
        if switches.synchronise_with_original
        then original_call kernel Vnop.create dvp
        else pure (0, null)
    r' ← if r.0 == 0 && not (r.1 == null) then replace_created p app shadow_path (r.1) else pure r
    leave_recursion kernel
    pure r'

  -- with the two paths converted, and the audit record of the end
  unfoldable pub create_converted :
      Switches → (p : ℕ) → ApplicationData → Vnode → ComponentName → Hook K (ℕ × Vnode)
  unfolding recursive_call create_section audit
  create_converted switches p app dvp cn = do
    r ←
        if switches.redirection_is_null_and_void
        then recursive_call kernel Vnop.create dvp
        else create_section switches p app (convert_to_shadow_copy_path (cn.path)) dvp
    if r.0 == 0 then audit Opcode.create else pure tt
    pure r

  unfoldable pub controlled_create :
      Switches → (p : ℕ) → ApplicationData → Vnode → ComponentName → Hook K (ℕ × Vnode)
  unfolding is_controlled_file original_call note malloc create_converted
  controlled_create switches p app dvp cn = do
    controlled ← is_controlled_file kernel Opcode.create (cn.path)
    if not controlled then original_call kernel Vnop.create dvp else do
      note entry_barred
      shadow_allocated ← malloc kernel
      redirected_allocated ← if shadow_allocated then malloc kernel else pure false
      if redirected_allocated then create_converted switches p app dvp cn else pure (enomem, null)

  -- `QvrVnopCreateHookEx2`
  unfoldable pub create_hook : Switches → Vnode → ComponentName → Hook K (ℕ × Vnode)
  unfolding application_by_context if_controlled controlled_create original_call
  create_hook switches dvp cn = do
    p ← application_by_context kernel create_new
    if_controlled kernel (application_data_at p) (λ app. controlled_create switches p app dvp cn)
        (original_call kernel Vnop.create dvp)
