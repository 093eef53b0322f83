-- ===== src/Hooks/Backing.antt =====
-- VFSFilter0/VFSFilter0/VFSHooks.cpp 289-410 and 1574-1662, and VNode.cpp 22-45: the backing vnode of
-- a redirected vnode, how it is found and remembered, and how the two are kept alike.
pub mod References
pub mod Marks
pub mod Silence
use mac_osx_vfs_redirector.Applications.{ApplicationData}
use mac_osx_vfs_redirector.Base.{List, ℕ, Bool, true, false, ◌==◌, ◌||◌, not, ltb, if◌then◌else◌}
use mac_osx_vfs_redirector.DataMap.{null}
use mac_osx_vfs_redirector.Event.{Vnode, Context, super_user, Opcode, resized, ubc_pagein}
use mac_osx_vfs_redirector.Kernel.Calls.{
  ask, step, note, on_maps, from_maps, malloc, enter_recursion, leave_recursion, lookup_path,
  map_add_vnode_io, create_upl, abort_upl_unless_null, transfer,
}
use mac_osx_vfs_redirector.Kernel.{Kernel, Vtype, vreg, Hook, pure, ◌>>=◌, ◌>>◌}
use mac_osx_vfs_redirector.Paths.{convert_to_redirected_path}
use mac_osx_vfs_redirector.VnodeMap.{remove_vnode_io, get_vnode_io_ref, put_unless_null}

abbrev pub is_regular : Vtype → Bool
is_regular vreg = true
is_regular _ = false

module _ {K : Type 0} (kernel : Kernel K) where
  -- `QvrReadInCacheFromBackingFile` behind a UPL that was created: map it, read into it
  unfoldable pub fill_upl : Opcode → Vnode → (offset size upl : ℕ) → Hook K ℕ
  unfolding step transfer
  fill_upl op io offset size upl = do
    e ← step (kernel.ubc_upl_map upl)
    if e == 0 then transfer kernel op io offset size else pure e

  -- `QvrReadInCacheFromBackingFile`; the UPL is aborted, and unmapped, whatever happened
  unfoldable pub read_in_cache_from_backing_file : (vn io : Vnode) → (offset size : ℕ) → Hook K ℕ
  unfolding create_upl abort_upl_unless_null fill_upl
  read_in_cache_from_backing_file vn io offset size = if size == 0 then pure 0 else do
    r ← create_upl kernel vn offset size ubc_pagein
    e ← if r.0 == 0 then fill_upl Opcode.read io offset size (r.1) else pure (r.0)
    abort_upl_unless_null (r.1)
    pure e

  -- the second recursive section of `QvrGetBackingVnodeForRedirectedIO`
  unfoldable pub refresh_cache : (vn io : Vnode) → Hook K (Unit {0})
  unfolding ask step read_in_cache_from_backing_file
  refresh_cache vn io = do
    r ← ask (kernel.get_size vn super_user)
    resident ←
        if r.0 == 0 then step (kernel.invalidate_pages vn (kernel.round_page (r.1))) else pure false
    e ←
        if resident
        then read_in_cache_from_backing_file vn io 0 (kernel.round_page (r.1))
        else pure 0
    pure tt

  -- a lookup of the redirected path of a name, and the entry for what it finds
  unfoldable pub look_up_redirected : Vnode → (redirected : List ℕ) → Hook K Vnode
  unfolding enter_recursion leave_recursion lookup_path map_add_vnode_io refresh_cache
  look_up_redirected vn redirected = do
    enter_recursion kernel (kernel.current_thread)
    found ← lookup_path kernel redirected super_user
    leave_recursion kernel
    if not (found.0 == 0) then pure (found.1) else do
      map_add_vnode_io kernel vn (found.1)
      enter_recursion kernel (kernel.current_thread)
      refresh_cache vn (found.1)
      leave_recursion kernel
      pure (found.1)

  -- `QvrGetBackingVnodeForRedirectedIO` from the query of the vnode's name on; a false `malloc`
  -- before the lookup is QvrConvertToRedirectedPath's ENOMEM
  unfoldable pub look_up_backing_vnode : Vnode → ApplicationData → Hook K Vnode
  unfolding malloc ask look_up_redirected
  look_up_backing_vnode vn app = do
    path_allocated ← malloc kernel
    name ← ask (kernel.vn_getpath vn)
    if not path_allocated || not (name.0 == 0) then pure null else do
      redirected_allocated ← malloc kernel
      if redirected_allocated
          then look_up_redirected vn (convert_to_redirected_path (name.1) (app.redirect_to))
          else pure null

  -- `forceUpdate`, and else the vnode that the map holds
  unfoldable pub known_backing_vnode : Vnode → (force_update : Bool) → Hook K Vnode
  unfolding on_maps from_maps
  known_backing_vnode vn true = do on_maps (remove_vnode_io vn); pure null
  known_backing_vnode vn false = from_maps (get_vnode_io_ref vn)

  -- `QvrGetBackingVnodeForRedirectedIO`, for the application data that every caller has tested
  unfoldable pub get_backing_vnode_for_redirected_io :
      Vnode → ApplicationData → (force_update : Bool) → Hook K Vnode
  unfolding ask known_backing_vnode look_up_backing_vnode
  get_backing_vnode_for_redirected_io vn app force_update = do
    type ← ask (kernel.vnode_vtype vn)
    known ←
        if not (is_regular type) || not (app.redirect_io)
        then pure null
        else known_backing_vnode vn force_update
    if not (is_regular type) || not (app.redirect_io) || not (known == null)
        then pure known
        else look_up_backing_vnode vn app

  -- `QvrAssociateVnodeForRedirectedIO`
  unfoldable pub associate_vnode_for_redirected_io :
      Vnode → ApplicationData → (force_update : Bool) → Hook K (Unit {0})
  unfolding get_backing_vnode_for_redirected_io on_maps
  associate_vnode_for_redirected_io vn app force_update = do
    io ← get_backing_vnode_for_redirected_io vn app force_update
    on_maps (put_unless_null io)

  -- `QvrVnodeSetsize`
  unfoldable pub resize : Vnode → (size : ℕ) → Context → Hook K ℕ
  unfolding step note
  resize vn size c = do e ← step (kernel.set_size vn size c); note (resized vn size); pure e

  -- `QvrAdjustVnodeSizeByBackingVnode`
  unfoldable pub adjust_vnode_size_by_backing_vnode : (vn io : Vnode) → Context → Hook K ℕ
  unfolding ask resize
  adjust_vnode_size_by_backing_vnode vn io c = do
    old ← ask (kernel.get_size vn c)
    new ← ask (kernel.get_size io super_user)
    if not (old.0 == 0)
        then pure (old.0)
        else if not (new.0 == 0)
        then pure (new.0)
        else if ltb (old.1) (new.1)
        then resize vn (new.1) c
        else pure 0
