-- ===== src/Hooks/Paging.antt =====
-- VFSFilter0/VFSFilter0/VFSHooks.cpp, the paging of a redirected file: QvrVnopPageinHookEx2 and
-- QvrVnopPageoutHookEx2.
pub mod References
pub mod Marks
pub mod Unredirected
use mac_osx_vfs_redirector.Applications.{ApplicationData, application_data_at}
use mac_osx_vfs_redirector.Base.{
  ℕ, ◌==◌, ◌||◌, ◌&&◌, not, Bool, true, Option, none, some, if◌then◌else◌,
}
use mac_osx_vfs_redirector.DataMap.{null}
use mac_osx_vfs_redirector.Event.{
  Vnode, Vnop, Opcode, original, vector_of, caller, UplFlags, ubc_pagein_absent, ubc_pageout,
  ubc_pageout_dirty, ubc_msync, ubc_msync_dirty,
}
use mac_osx_vfs_redirector.Hooks.Backing.{read_in_cache_from_backing_file, fill_upl}
use mac_osx_vfs_redirector.Hooks.Io.{audit_and_redirect, redirected_vnode, write_and_adjust}
use mac_osx_vfs_redirector.Hooks.{vnode_app_data, enodata}
use mac_osx_vfs_redirector.Kernel.Calls.{
  ask, is_recursive, is_user_client, create_upl, abort_upl_unless_null, call_vnop, enter_recursion,
  leave_recursion, put,
}
use mac_osx_vfs_redirector.Kernel.{Kernel, Hook, pure, ◌>>=◌, ◌>>◌}

-- `struct vnop_pagein_args`, `struct vnop_pageout_args`, with the bits UPL_NOCOMMIT and UPL_MSYNC of
-- their flags
pub record PagingArgs : Type 0 where
  pub vp : Vnode
  pub pl : ℕ
  pub f_offset : ℕ
  pub size : ℕ
  pub no_commit : Bool
  pub msync : Bool

module _ {K : Type 0} (kernel : Kernel K) where
  -- The UPL for a file system without the V2 interface, when the caller brought none: the error and
  -- the UPL
  unfoldable pub upl_for_backing_vnode :
      (v2 : Bool) → UplFlags → PagingArgs → Vnode → Hook K (ℕ × ℕ)
  unfolding create_upl
  upl_for_backing_vnode v2 flags ap io =
      if not v2 && ap.pl == null
      then create_upl kernel io (ap.f_offset) (ap.size) flags
      else pure (0, null)

  -- whether `goto __exit` skips the operation: a UPL was wanted and none came
  abbrev pub no_upl : (v2 : Bool) → PagingArgs → (r : ℕ × ℕ) → Bool
  no_upl v2 ap r = not v2 && ap.pl == null && (not (r.0 == 0) || r.1 == null)

  -- `if( upl && mustCommit ) ubc_upl_abort_range( upl, .. )`
  unfoldable pub commit_upl : PagingArgs → (upl : ℕ) → Hook K (Unit {0})
  unfolding abort_upl_unless_null
  commit_upl ap upl = if ap.no_commit then abort_upl_unless_null upl else pure tt

  -- the pages of the covering vnode, when the caller leaves the UPL to the file system
  unfoldable pub read_in_pages : PagingArgs → (io : Vnode) → (e : ℕ) → Hook K ℕ
  unfolding read_in_cache_from_backing_file
  read_in_pages ap io e =
      if e == 0 && ap.pl == null
      then read_in_cache_from_backing_file kernel (ap.vp) io (ap.f_offset) (ap.size)
      else pure e

  unfoldable pub pagein_backing_vnode : PagingArgs → (io : Vnode) → Hook K ℕ
  unfolding enter_recursion call_vnop leave_recursion read_in_pages
  pagein_backing_vnode ap io = do
    enter_recursion kernel (kernel.current_thread)
    e ← call_vnop kernel Vnop.pagein (vector_of io) io caller
    leave_recursion kernel
    read_in_pages ap io e

  -- `if( ! appData->redirectIO )`
  unfoldable pub pagein_from_backing_vnode : PagingArgs → (io : Vnode) → Hook K ℕ
  unfolding ask upl_for_backing_vnode pagein_backing_vnode commit_upl
  pagein_from_backing_vnode ap io = do
    v2 ← ask (kernel.supports_pagein_v2 io)
    r ← upl_for_backing_vnode v2 ubc_pagein_absent ap io
    e ← if no_upl v2 ap r then pure (r.0) else pagein_backing_vnode ap io
    commit_upl ap (r.1)
    pure e

  -- both branches under `if( vnodeIO )`, which is no NULLVP
  unfoldable pub pagein_redirected : PagingArgs → ApplicationData → (io : Vnode) → Hook K ℕ
  unfolding pagein_from_backing_vnode read_in_cache_from_backing_file put
  pagein_redirected ap app io = do
    e ←
        if not (app.redirect_io)
        then pagein_from_backing_vnode ap io
        else read_in_cache_from_backing_file kernel (ap.vp) io (ap.f_offset) (ap.size)
    put io
    pure e

  -- under `if( appData )`
  unfoldable pub pagein_controlled : PagingArgs → ApplicationData → Hook K ℕ
  unfolding audit_and_redirect pagein_redirected
  pagein_controlled ap app = do
    io ← audit_and_redirect kernel Opcode.read (ap.vp) app
    if io == null then pure 0 else pagein_redirected ap app io

  -- `callOriginal`, for a call that is neither recursive nor the client's
  abbrev pub calls_original : Option ApplicationData → Bool
  calls_original none = true
  calls_original (some app) = app.redirect_io

  unfoldable pub pagein_after_original : PagingArgs → Option ApplicationData → Hook K ℕ
  unfolding pagein_controlled
  pagein_after_original ap none = pure 0
  pagein_after_original ap (some app) = pagein_controlled ap app

  -- `QvrVnopPageinHookEx2`
  unfoldable pub pagein_hook : PagingArgs → Hook K ℕ
  unfolding vnode_app_data is_recursive is_user_client call_vnop pagein_after_original
  pagein_hook ap = do
    recursive ← is_recursive kernel
    p ← vnode_app_data (ap.vp)
    client ← is_user_client kernel
    e ←
        if calls_original (application_data_at p) || recursive || client
        then call_vnop kernel Vnop.pagein original (ap.vp) caller
        else pure 0
    client_still ← is_user_client kernel
    if not (e == 0) || recursive || client_still
        then pure e
        else pagein_after_original ap (application_data_at p)

  -- the copy of all pages of the covering vnode; the UPL that is tested at the end is the other one,
  -- `upl` and not `uplAllPages`
  unfoldable pub write_all_pages : PagingArgs → (io : Vnode) → (upl : ℕ) → Hook K ℕ
  unfolding create_upl fill_upl abort_upl_unless_null
  write_all_pages ap io upl = do
    r ←
        create_upl kernel (ap.vp) (ap.f_offset) (ap.size)
          (if ap.msync then ubc_msync else ubc_pageout)
    e ←
        if r.0 == 0
        then fill_upl kernel Opcode.write io (ap.f_offset) (ap.size) (r.1)
        else pure (r.0)
    if upl == null then pure tt else abort_upl_unless_null (r.1)
    pure e

  unfoldable pub pageout_backing_vnode : PagingArgs → (io : Vnode) → (upl : ℕ) → Hook K ℕ
  unfolding enter_recursion write_and_adjust leave_recursion write_all_pages
  pageout_backing_vnode ap io upl = do
    enter_recursion kernel (kernel.current_thread)
    e ← write_and_adjust kernel Vnop.pageout (ap.vp) io
    leave_recursion kernel
    if e == 0 && ap.pl == null then write_all_pages ap io upl else pure e

  -- under `if( vnodeIO )`
  unfoldable pub pageout_redirected : PagingArgs → (io : Vnode) → Hook K ℕ
  unfolding ask upl_for_backing_vnode pageout_backing_vnode commit_upl put
  pageout_redirected ap io = do
    v2 ← ask (kernel.supports_pageout_v2 io)
    r ← upl_for_backing_vnode v2 (if ap.msync then ubc_msync_dirty else ubc_pageout_dirty) ap io
    e ← if no_upl v2 ap r then pure (r.0) else pageout_backing_vnode ap io (r.1)
    commit_upl ap (r.1)
    put io
    pure e

  -- the original operation, whose result the hook drops
  unfoldable pub pageout_original : PagingArgs → Hook K ℕ
  unfolding call_vnop
  pageout_original ap = do
    dropped_error ← call_vnop kernel Vnop.pageout original (ap.vp) caller
    pure enodata

  -- `QvrVnopPageoutHookEx2`
  unfoldable pub pageout_hook : PagingArgs → Hook K ℕ
  unfolding redirected_vnode pageout_original pageout_redirected
  pageout_hook ap = do
    io ← redirected_vnode kernel Opcode.write (ap.vp)
    if io == null then pageout_original ap else pageout_redirected ap io
