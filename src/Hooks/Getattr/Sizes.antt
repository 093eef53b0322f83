-- ===== src/Hooks/Getattr/Sizes.antt =====
-- The sizes that getattr reports of a shadow file (VFSHooks.cpp, QvrVnopGetattrHookEx2).
use mac_osx_vfs_redirector.Base.{arith, ℕ, ◌==◌, ◌&&◌, not, ◌≡◌, Bool, false, if◌then◌else◌}
use mac_osx_vfs_redirector.DataMap.{null}
use mac_osx_vfs_redirector.Event.{Vnode, super_user, caller, vector_of}
use mac_osx_vfs_redirector.Hooks.Getattr.{
  Wanted, overwrite, query_backing_file, adjust_attributes, getattr_hook, getattr_of_real_vnode,
  call_getattr,
}
use mac_osx_vfs_redirector.Kernel.{Kernel, World, ◌>>=◌, pure}
use mac_osx_vfs_redirector.VnodeMap.{
  get_vnode_io, get_vnode_io_ref, get_vnode_shadow_reverse, get_vnode_shadow_reverse_ref,
}
use mac_osx_vfs_redirector.Kernel.Calls.{enter_recursion}
use mac_osx_vfs_redirector.Recursion.{is_recursive_call}

-- What getattr reports of one size
abbrev pub reported : (wanted has_backing : Bool) (error backing found : ℕ) → ℕ
reported wanted has_backing error backing found =
    if wanted && (has_backing && error == 0) then backing else found

module _ {K : Type 0} (kernel : Kernel K) where
  -- getattr on a shadow file, for a thread that is not marked recursive and is not the client's, returns
  -- the error of the real vnode's own getattr. Each of the four sizes is that of the backing file, as
  -- the super user sees it, if it is wanted, the real vnode's getattr succeeded, the shadow vnode has a
  -- backing vnode and its attributes could be had; else it is the size of the real vnode.
  pub getattr_hook-sizes :
      (want : Wanted) (vp : Vnode) (w : World K)
      → (get_vnode_shadow_reverse vp w.maps == null) ≡ false
      → is_recursive_call kernel.current_thread w.recursion ≡ false
      → kernel.is_user_client w.kernel ≡ false
      → let real = get_vnode_shadow_reverse vp w.maps in
        let r = kernel.getattr_vnop (vector_of real) real caller (kernel.malloc w.kernel).1 in
        let io = get_vnode_io vp w.maps in
        let b = kernel.vnode_getattr io super_user r.1 in
        let has_backing = r.0.0 == 0 && not (io == null) in
        let got = (getattr_hook kernel want vp w).0 in
        (got.0 ≡ r.0.0)
        × (got.1.total_size
            ≡ reported want.total_size has_backing b.0.0 b.0.1.total_size r.0.1.total_size)
        × (got.1.total_alloc
            ≡ reported want.total_alloc has_backing b.0.0 b.0.1.total_alloc r.0.1.total_alloc)
        × (got.1.data_size
            ≡ reported want.data_size has_backing b.0.0 b.0.1.data_size r.0.1.data_size)
        × (got.1.data_alloc
            ≡ reported want.data_alloc has_backing b.0.0 b.0.1.data_alloc r.0.1.data_alloc)
  unfolding getattr_hook getattr_of_real_vnode call_getattr get_vnode_shadow_reverse_ref
      enter_recursion get_vnode_io get_vnode_shadow_reverse overwrite adjust_attributes
      query_backing_file get_vnode_io_ref ◌>>=◌ pure
  getattr_hook-sizes want vp w h unmarked other =
      rw (h, unmarked, other) (ground arith, ground arith, ground arith, ground arith, ground arith)
