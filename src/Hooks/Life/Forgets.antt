-- ===== src/Hooks/Life/Forgets.antt =====
-- What is left of a vnode that has become inactive (VFSHooks.cpp, QvrVnopInactiveHookEx2).
use mac_osx_vfs_redirector.Base.{◌==◌, ◌≡◌, arith, Bool-cases, inl, inr, if◌then◌else◌}
use mac_osx_vfs_redirector.DataMap.Laws.{IsValid, get-remove}
use mac_osx_vfs_redirector.DataMap.{null, get_data_by_key}
use mac_osx_vfs_redirector.Event.{Vnode}
use mac_osx_vfs_redirector.Hooks.Life.{inactive_hook}
use mac_osx_vfs_redirector.Kernel.{Kernel, World, ◌>>=◌, pure}
use mac_osx_vfs_redirector.VnodeMap.{get_vnode_io, get_vnode_io_ref, remove_vnode_io, vnode_put}

module _ {K : Type 0} (kernel : Kernel K) where
  -- When a vnode becomes inactive its backing vnode is forgotten, and that of no other vnode, if the
  -- I/O map is valid.
  pub inactive_hook-forgets :
      (vp v : Vnode) (w : World K)
      → IsValid w.maps.vnode_io
      → get_vnode_io v (inactive_hook kernel vp w).1.maps
        ≡ (if vp == v then null else get_vnode_io v w.maps)
  unfolding inactive_hook get_vnode_io get_vnode_io_ref remove_vnode_io vnode_put ◌>>=◌ pure
  inactive_hook-forgets vp v w valid =
      elim (Bool-cases (get_data_by_key vp w.maps.vnode_io == null)) [
        | inl absent ↦ rw absent (ground (arith, absent))
        | inr present ↦ simp present (get-remove v vp w.maps.vnode_io valid)
      ]
