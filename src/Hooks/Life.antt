-- ===== src/Hooks/Life.antt =====
-- VFSFilter0/VFSFilter0/VFSHooks.cpp, the opening and the end of a redirected file:
-- QvrVnopOpenHookEx2, QvrVnopCloseHookEx2 and QvrVnopInactiveHookEx2.
pub mod Forgets
use mac_osx_vfs_redirector.Applications.{application_data_at, ApplicationData, create_new}
use mac_osx_vfs_redirector.Base.{ℕ, ◌==◌, ◌&&◌, List, if◌then◌else◌, codes}
use mac_osx_vfs_redirector.DataMap.{null}
use mac_osx_vfs_redirector.Event.{Vnode, Vnop, Opcode, original, caller, pushed, recycled}
use mac_osx_vfs_redirector.Hooks.{if_controlled}
use mac_osx_vfs_redirector.Kernel.Calls.{
  ask, application_by_context, audit, call_vnop, from_maps, note, on_maps, put,
}
use mac_osx_vfs_redirector.Kernel.{Kernel, Hook, pure, ◌>>=◌, ◌>>◌}
use mac_osx_vfs_redirector.Paths.{is_extension_equal}
use mac_osx_vfs_redirector.VnodeMap.{get_vnode_io_ref, remove_vnode_io}

-- `FILTER_WORD`
abbrev pub filter_word : List ℕ
filter_word = codes "/..namedfork/rsrc"

module _ {K : Type 0} where
  -- `cluster_push( vnodeIO, IO_CLOSE ); vnode_put( vnodeIO );`
  unfoldable pub flush : Vnode → Hook K (Unit {0})
  unfolding note put
  flush io = do note (pushed io); put io

  -- flushes the backing vnode, lets it go for good and forgets it
  unfoldable pub flush_and_forget : (vp io : Vnode) → Hook K (Unit {0})
  unfolding note on_maps put
  flush_and_forget vp io = do
    note (pushed io)
    note (recycled io)
    on_maps (remove_vnode_io vp)
    put io

module _ {K : Type 0} (kernel : Kernel K) where
  -- audits the opening of the resource fork of a document
  unfoldable pub audit_open : Vnode → ApplicationData → Hook K (Unit {0})
  unfolding ask audit
  audit_open vp app = do
    r ← ask (kernel.vn_getpath vp)
    if r.0 == 0 && is_extension_equal (r.1) filter_word then audit Opcode.open_file else pure tt

  -- `QvrVnopOpenHookEx2`
  unfoldable pub open_hook : Vnode → Hook K ℕ
  unfolding application_by_context if_controlled audit_open call_vnop
  open_hook vp = do
    app ← application_by_context kernel create_new
    if_controlled kernel (application_data_at app) (audit_open vp) (pure tt)
    call_vnop kernel Vnop.open_file original vp caller

  -- `QvrVnopCloseHookEx2`
  unfoldable pub close_hook : Vnode → Hook K ℕ
  unfolding from_maps flush call_vnop
  close_hook vp = do
    io ← from_maps (get_vnode_io_ref vp)
    if io == null then pure tt else flush io
    call_vnop kernel Vnop.close original vp caller

  -- `QvrVnopInactiveHookEx2`
  unfoldable pub inactive_hook : Vnode → Hook K ℕ
  unfolding from_maps flush_and_forget call_vnop
  inactive_hook vp = do
    io ← from_maps (get_vnode_io_ref vp)
    if io == null then pure tt else flush_and_forget vp io
    call_vnop kernel Vnop.inactive original vp caller
