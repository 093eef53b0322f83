-- ===== src/Hooks/Paging/References.antt =====
-- The references that paging takes (VFSHooks.cpp, QvrVnopPageinHookEx2 and QvrVnopPageoutHookEx2).
use mac_osx_vfs_redirector.Applications.{ApplicationData, application_data_at}
use mac_osx_vfs_redirector.Base.{
  ℕ, ◌==◌, ◌||◌, ◌&&◌, Bool, not, Option, none, some, List, ◌∷◌, arith,
}
use mac_osx_vfs_redirector.DataMap.{null}
use mac_osx_vfs_redirector.Event.{Vnode, Vnop, Opcode, UplFlags, original, vector_of, caller}
use mac_osx_vfs_redirector.Hooks.Backing.References.{fill_upl-Keeps, read_in_cache-Keeps}
use mac_osx_vfs_redirector.Hooks.Paging.{
  PagingArgs, upl_for_backing_vnode, no_upl, commit_upl, read_in_pages, pagein_backing_vnode,
  pagein_from_backing_vnode, pagein_redirected, pagein_controlled, calls_original,
  pagein_after_original, pagein_hook, write_all_pages, pageout_backing_vnode, pageout_redirected,
  pageout_original, pageout_hook,
}
use mac_osx_vfs_redirector.Hooks.References.{
  vnode_app_data-Keeps, is_user_client-Keeps, write_and_adjust-Keeps, audit_and_redirect-Keeps,
  redirected_vnode-Keeps,
}
use mac_osx_vfs_redirector.Hooks.{enodata}
use mac_osx_vfs_redirector.Kernel.Accounts.{
  Keeps, FailsEmpty, pure-Keeps, ask-Keeps, put-Keeps, bind-Keeps, if-Keeps, forget_null-Keeps,
  enter_recursion-Keeps, leave_recursion-Keeps, is_recursive-Keeps, call_vnop-Keeps,
  create_upl-Keeps, abort_upl_unless_null-Keeps,
}
use mac_osx_vfs_redirector.Kernel.{Kernel}

module _ {K : Type 0} (kernel : Kernel K) (mine : List Vnode) where
  upl_for_backing_vnode-Keeps :
      (v2 : Bool) (flags : UplFlags) (ap : PagingArgs) (io : Vnode)
      → Keeps mine (upl_for_backing_vnode kernel v2 flags ap io) (λ _. mine)
  unfolding upl_for_backing_vnode
  upl_for_backing_vnode-Keeps v2 flags ap io =
      if-Keeps (not v2 && ap.pl == null)
        (λ _. create_upl-Keeps kernel mine io ap.f_offset ap.size flags)
        (λ _. pure-Keeps mine (0, null))

  commit_upl-Keeps : (ap : PagingArgs) (upl : ℕ) → Keeps mine (commit_upl kernel ap upl) (λ _. mine)
  unfolding commit_upl
  commit_upl-Keeps ap upl =
      if-Keeps ap.no_commit (λ _. abort_upl_unless_null-Keeps kernel mine upl)
        (λ _. pure-Keeps mine tt)

  pagein_backing_vnode-Keeps :
      (ap : PagingArgs) (io : Vnode) → Keeps mine (pagein_backing_vnode kernel ap io) (λ _. mine)
  unfolding pagein_backing_vnode read_in_pages
  pagein_backing_vnode-Keeps ap io = bind-Keeps (enter_recursion-Keeps kernel mine _) (λ _.
      bind-Keeps (call_vnop-Keeps kernel mine Vnop.pagein (vector_of io) io caller) (λ e.
        bind-Keeps (leave_recursion-Keeps kernel mine) (λ _.
          if-Keeps (e == 0 && ap.pl == null)
            (λ _. read_in_cache-Keeps kernel mine ap.vp io ap.f_offset ap.size)
            (λ _. pure-Keeps mine e))))

  pagein_from_backing_vnode-Keeps :
      (ap : PagingArgs) (io : Vnode)
      → Keeps mine (pagein_from_backing_vnode kernel ap io) (λ _. mine)
  unfolding pagein_from_backing_vnode
  pagein_from_backing_vnode-Keeps ap io = bind-Keeps (ask-Keeps mine _) (λ v2.
      bind-Keeps (upl_for_backing_vnode-Keeps v2 _ ap io) (λ r.
        bind-Keeps
          (if-Keeps (no_upl kernel v2 ap r) (λ _. pure-Keeps mine r.0)
            (λ _. pagein_backing_vnode-Keeps ap io))
          (λ e. bind-Keeps (commit_upl-Keeps ap r.1) (λ _. pure-Keeps mine e))))

module _ {K : Type 0} (kernel : Kernel K) (mine : List Vnode) where
  pagein_redirected-Keeps :
      (ap : PagingArgs) (app : ApplicationData) (io : Vnode)
      → Keeps (io ∷ mine) (pagein_redirected kernel ap app io) (λ _. mine)
  unfolding pagein_redirected
  pagein_redirected-Keeps ap app io =
      bind-Keeps
        (if-Keeps (not app.redirect_io) (λ _. pagein_from_backing_vnode-Keeps kernel _ ap io)
          (λ _. read_in_cache-Keeps kernel _ ap.vp io ap.f_offset ap.size))
        (λ e. bind-Keeps (put-Keeps mine io) (λ _. pure-Keeps mine e))

module _ {K : Type 0} (kernel : Kernel K) (mine : List Vnode) where
  write_all_pages-Keeps :
      (ap : PagingArgs) (io : Vnode) (upl : ℕ)
      → Keeps mine (write_all_pages kernel ap io upl) (λ _. mine)
  unfolding write_all_pages
  write_all_pages-Keeps ap io upl =
      bind-Keeps (create_upl-Keeps kernel mine ap.vp ap.f_offset ap.size _) (λ r.
        bind-Keeps
          (if-Keeps (r.0 == 0)
            (λ _. fill_upl-Keeps kernel mine Opcode.write io ap.f_offset ap.size r.1)
            (λ _. pure-Keeps mine r.0))
          (λ e.
            bind-Keeps
              (if-Keeps (upl == null) (λ _. pure-Keeps mine tt)
                (λ _. abort_upl_unless_null-Keeps kernel mine r.1))
              (λ _. pure-Keeps mine e)))

  pageout_backing_vnode-Keeps :
      (ap : PagingArgs) (io : Vnode) (upl : ℕ)
      → Keeps mine (pageout_backing_vnode kernel ap io upl) (λ _. mine)
  unfolding pageout_backing_vnode
  pageout_backing_vnode-Keeps ap io upl = bind-Keeps (enter_recursion-Keeps kernel mine _) (λ _.
      bind-Keeps (write_and_adjust-Keeps kernel mine Vnop.pageout ap.vp io) (λ e.
        bind-Keeps (leave_recursion-Keeps kernel mine) (λ _.
          if-Keeps (e == 0 && ap.pl == null) (λ _. write_all_pages-Keeps ap io upl)
            (λ _. pure-Keeps mine e))))

module _ {K : Type 0} (kernel : Kernel K) (mine : List Vnode) where
  pageout_redirected-Keeps :
      (ap : PagingArgs) (io : Vnode)
      → Keeps (io ∷ mine) (pageout_redirected kernel ap io) (λ _. mine)
  unfolding pageout_redirected
  pageout_redirected-Keeps ap io = bind-Keeps (ask-Keeps _ _) (λ v2.
      bind-Keeps (upl_for_backing_vnode-Keeps kernel _ v2 _ ap io) (λ r.
        bind-Keeps
          (if-Keeps (no_upl kernel v2 ap r) (λ _. pure-Keeps _ r.0)
            (λ _. pageout_backing_vnode-Keeps kernel _ ap io r.1))
          (λ e.
            bind-Keeps (commit_upl-Keeps kernel _ ap r.1)
              (λ _. bind-Keeps (put-Keeps mine io) (λ _. pure-Keeps mine e)))))

module _ {K : Type 0} (kernel : Kernel K) (fails : FailsEmpty kernel) (mine : List Vnode) where
  pagein_controlled-Keeps :
      (ap : PagingArgs) (app : ApplicationData)
      → Keeps mine (pagein_controlled kernel ap app) (λ _. mine)
  unfolding pagein_controlled
  pagein_controlled-Keeps ap app =
      bind-Keeps (audit_and_redirect-Keeps kernel fails mine Opcode.read ap.vp app) (λ io.
        if-Keeps (io == null)
          (λ h. forget_null-Keeps mine io (ground (arith, h)) (pure-Keeps mine 0))
          (λ _. pagein_redirected-Keeps kernel mine ap app io))

  pagein_after_original-Keeps :
      (ap : PagingArgs) (o : Option ApplicationData)
      → Keeps mine (pagein_after_original kernel ap o) (λ _. mine)
  unfolding pagein_after_original
  pagein_after_original-Keeps ap none = pure-Keeps mine 0
  pagein_after_original-Keeps ap (some app) = pagein_controlled-Keeps ap app

  pub pagein-Keeps : (ap : PagingArgs) → Keeps mine (pagein_hook kernel ap) (λ _. mine)
  unfolding pagein_hook
  pagein-Keeps ap = bind-Keeps (is_recursive-Keeps kernel mine) (λ recursive.
      bind-Keeps (vnode_app_data-Keeps kernel mine ap.vp) (λ p.
        bind-Keeps (is_user_client-Keeps kernel mine) (λ client.
          bind-Keeps
            (if-Keeps (calls_original kernel (application_data_at p) || recursive || client)
              (λ _. call_vnop-Keeps kernel mine Vnop.pagein original ap.vp caller)
              (λ _. pure-Keeps mine 0))
            (λ e. bind-Keeps (is_user_client-Keeps kernel mine) (λ client_still.
              if-Keeps (not (e == 0) || recursive || client_still) (λ _. pure-Keeps mine e)
                (λ _. pagein_after_original-Keeps ap (application_data_at p)))))))

  pub pageout-Keeps : (ap : PagingArgs) → Keeps mine (pageout_hook kernel ap) (λ _. mine)
  unfolding pageout_hook pageout_original
  pageout-Keeps ap = bind-Keeps (redirected_vnode-Keeps kernel fails mine Opcode.write ap.vp) (λ io.
      if-Keeps (io == null)
        (λ h. forget_null-Keeps mine io (ground (arith, h)) (
          bind-Keeps (call_vnop-Keeps kernel mine Vnop.pageout original ap.vp caller)
            (λ _. pure-Keeps mine enodata)))
        (λ _. pageout_redirected-Keeps kernel mine ap io))
