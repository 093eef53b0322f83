-- ===== src/Hooks/Paging/Unredirected.antt =====
-- Paging in a file of an application whose I/O is not redirected (VFSHooks.cpp, QvrVnopPageinHookEx2).
use mac_osx_vfs_redirector.Applications.{ApplicationData, application_data_at}
use mac_osx_vfs_redirector.Base.{◌≡◌, refl, some, Bool-cases, inl, inr, false}
use mac_osx_vfs_redirector.Hooks.Backing.{is_regular}
use mac_osx_vfs_redirector.Hooks.Paging.{PagingArgs, pagein_hook}
use mac_osx_vfs_redirector.Kernel.Quiet.{operations}
use mac_osx_vfs_redirector.Kernel.{Kernel, World, ◌>>=◌, pure}
use mac_osx_vfs_redirector.Recursion.{is_recursive_call}
use mac_osx_vfs_redirector.VnodeMap.{get_vnode_app_data}

module _ {K : Type 0} (kernel : Kernel K) where
  -- The pagein hook of a vnode whose application data does not redirect I/O, called by a thread that
  -- is not marked, of a process that is not the client's, returns 0 and calls no operation, neither
  -- the original one nor another: the page that was asked for is not read.
  pub pagein_hook-unredirected :
      (args : PagingArgs) (app : ApplicationData) (w : World K)
      → application_data_at (get_vnode_app_data args.vp w.maps) ≡ some app
      → app.redirect_io ≡ false
      → is_recursive_call kernel.current_thread w.recursion ≡ false
      → ((k : K) → kernel.is_user_client k ≡ false)
      → let done = pagein_hook kernel args w in
        (done.0 ≡ 0) × (operations done.1.maps.log ≡ operations w.maps.log)
  unfolding pagein_hook operations ◌>>=◌ pure
  pagein_hook-unredirected args app w found direct unmarked others =
      elim (Bool-cases (is_regular (kernel.vnode_vtype args.vp w.kernel))) [
        | inl regular ↦ simp (found, direct, unmarked, others, regular) (refl, refl)
        | inr special ↦ simp (found, direct, unmarked, others, special) (refl, refl)
      ]
