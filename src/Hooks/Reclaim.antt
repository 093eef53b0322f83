-- ===== src/Hooks/Reclaim.antt =====
-- VFSFilter0/VFSFilter0/VFSHooks.cpp 2924-2957, the reclaim of a vnode: what QvrFsdReclaimHookEx2 does
-- with the entries of VNodeMap, and the original operation. The unhooking before it is VnodeHook/Vectors'
-- and changes none of these entries.
use mac_osx_vfs_redirector.Base.{ℕ, List}
use mac_osx_vfs_redirector.Event.{Vnode, Vnop, original, caller}
use mac_osx_vfs_redirector.Kernel.Accounts.{Keeps, bind-Keeps, on_maps-Keeps, call_vnop-Keeps}
use mac_osx_vfs_redirector.Kernel.Calls.{on_maps, call_vnop}
use mac_osx_vfs_redirector.Kernel.Marks.{Mark, Marks, bind-Marks, on_maps-Marks, call_vnop-Marks}
use mac_osx_vfs_redirector.Kernel.{Kernel, Hook, ◌>>◌}
use mac_osx_vfs_redirector.VnodeMap.References.{
  Accounted, remove_vnode_io-Accounted, remove_shadow_reverse-Accounted,
}
use mac_osx_vfs_redirector.VnodeMap.{
  VnodeMap, remove_vnode_app_data, remove_vnode_io, remove_shadow_reverse,
}

remove_vnode_app_data-Accounted :
    {mine : List Vnode} (vp : Vnode) (s : VnodeMap)
    → Accounted mine s
    → Accounted mine (remove_vnode_app_data vp s)
unfolding remove_vnode_app_data
remove_vnode_app_data-Accounted vp s ok = record {
  shadow_valid = ok.shadow_valid;
  balance = ok.balance;
}

module _ {K : Type 0} (kernel : Kernel K) where
  unfoldable pub forget_and_reclaim : Vnode → Hook K ℕ
  unfolding on_maps call_vnop
  forget_and_reclaim vp = do
    on_maps (remove_vnode_app_data vp)
    on_maps (remove_vnode_io vp)
    on_maps (remove_shadow_reverse vp)
    call_vnop kernel Vnop.reclaim original vp caller

  pub reclaim-Keeps :
      (mine : List Vnode) (vp : Vnode) → Keeps mine (forget_and_reclaim vp) (λ _. mine)
  unfolding forget_and_reclaim
  reclaim-Keeps mine vp =
      bind-Keeps (on_maps-Keeps mine _ (remove_vnode_app_data-Accounted vp)) (λ _.
        bind-Keeps (on_maps-Keeps mine _ (λ s ok. remove_vnode_io-Accounted s ok vp)) (λ _.
          bind-Keeps (on_maps-Keeps mine _ (λ s ok. remove_shadow_reverse-Accounted s ok vp))
            (λ _. call_vnop-Keeps kernel mine Vnop.reclaim original vp caller)))

  pub reclaim-Marks : {p : Mark} (vp : Vnode) → Marks kernel p p (forget_and_reclaim vp)
  unfolding forget_and_reclaim
  reclaim-Marks vp = bind-Marks (on_maps-Marks kernel _) (λ _.
      bind-Marks (on_maps-Marks kernel _) (λ _.
        bind-Marks (on_maps-Marks kernel _)
          (λ _. call_vnop-Marks kernel Vnop.reclaim original vp caller)))
