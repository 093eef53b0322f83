-- ===== src/Hooks/Getattr.antt =====
-- VFSFilter0/VFSFilter0/VFSHooks.cpp 2810-2920, the attributes of a shadow file:
-- QvrVnopGetattrHookEx2. The attributes are the sizes, with a bit each that the caller sets for those
-- that it wants.
pub mod References
pub mod Marks
pub mod Sizes
use mac_osx_vfs_redirector.Base.{ℕ, ◌==◌, ◌||◌, Bool, if◌then◌else◌}
use mac_osx_vfs_redirector.DataMap.{null}
use mac_osx_vfs_redirector.Event.{
  Vnode, Vnop, Callee, original, vector_of, caller, super_user, called,
}
use mac_osx_vfs_redirector.Kernel.Calls.{
  step, note, is_recursive, is_user_client, enter_recursion, leave_recursion, from_maps, on_maps,
  put,
}
use mac_osx_vfs_redirector.Kernel.{Kernel, Attributes, Hook, pure, ◌>>=◌, ◌>>◌}
use mac_osx_vfs_redirector.VnodeMap.{
  get_vnode_io_ref, get_vnode_shadow_reverse_ref, put_unless_null,
}

-- VATTR_IS_ACTIVE of each size
pub record Wanted : Type 0 where
  pub total_size : Bool
  pub total_alloc : Bool
  pub data_size : Bool
  pub data_alloc : Bool

-- `queryAttributes`
abbrev pub any_wanted : Wanted → Bool
any_wanted w = w.total_size || w.total_alloc || w.data_size || w.data_alloc

-- the wanted sizes of the backing file over those of the vnode
unfoldable pub overwrite : Wanted → (backing found : Attributes) → Attributes
overwrite w b a = record {
  total_size = if w.total_size then b.total_size else a.total_size;
  total_alloc = if w.total_alloc then b.total_alloc else a.total_alloc;
  data_size = if w.data_size then b.data_size else a.data_size;
  data_alloc = if w.data_alloc then b.data_alloc else a.data_alloc;
}

module _ {K : Type 0} (kernel : Kernel K) where
  unfoldable pub call_getattr : Callee → Vnode → Hook K (ℕ × Attributes)
  unfolding is_recursive step note
  call_getattr f v = do
    recursive ← is_recursive kernel
    r ← step (kernel.getattr_vnop f v caller)
    note (called Vnop.getattr f v caller recursive (r.0) null)
    pure r

  -- under `if( queryAttributes )`
  unfoldable pub query_backing_file : Wanted → (io : Vnode) → Attributes → Hook K Attributes
  unfolding step overwrite
  query_backing_file want io a = do
    b ← step (kernel.vnode_getattr io super_user)
    if b.0 == 0 then pure (overwrite want (b.1) a) else pure a

  -- adjusts the sizes to those of the backing file of the shadow vnode
  unfoldable pub adjust_attributes : Wanted → (shadow : Vnode) → Attributes → Hook K Attributes
  unfolding from_maps query_backing_file on_maps
  adjust_attributes want shadow a = do
    io ← from_maps (get_vnode_io_ref shadow)
    b ←
        if io == null
        then pure a
        else if any_wanted want
        then query_backing_file want io a
        else pure a
    on_maps (put_unless_null io)
    pure b

  unfoldable pub getattr_of_real_vnode : Wanted → (shadow real : Vnode) → Hook K (ℕ × Attributes)
  unfolding enter_recursion call_getattr adjust_attributes leave_recursion put
  getattr_of_real_vnode want shadow real = do
    enter_recursion kernel (kernel.current_thread)
    r ← call_getattr (vector_of real) real
    a ← if r.0 == 0 then adjust_attributes want shadow (r.1) else pure (r.1)
    leave_recursion kernel
    put real
    pure (r.0, a)

  -- no shadow file, or not for this thread
  unfoldable pub getattr_original : (vp real : Vnode) → Hook K (ℕ × Attributes)
  unfolding on_maps call_getattr
  getattr_original vp real = do on_maps (put_unless_null real); call_getattr original vp

  -- `QvrVnopGetattrHookEx2`
  unfoldable pub getattr_hook : Wanted → Vnode → Hook K (ℕ × Attributes)
  unfolding from_maps is_recursive is_user_client getattr_original getattr_of_real_vnode
  getattr_hook want vp = do
    real ← from_maps (get_vnode_shadow_reverse_ref vp)
    recursive ← is_recursive kernel
    client ← is_user_client kernel
    if real == null || recursive || client
        then getattr_original vp real
        else getattr_of_real_vnode want vp real
