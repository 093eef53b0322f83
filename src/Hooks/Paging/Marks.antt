-- ===== src/Hooks/Paging/Marks.antt =====
-- The recursion mark over a paging (VFSHooks.cpp, QvrVnopPageinHookEx2 and QvrVnopPageoutHookEx2).
use mac_osx_vfs_redirector.Applications.{ApplicationData, application_data_at}
use mac_osx_vfs_redirector.Base.{◌≢◌, ℕ, ◌==◌, ◌||◌, ◌&&◌, Bool, not, Option, none, some}
use mac_osx_vfs_redirector.DataMap.{null}
use mac_osx_vfs_redirector.Event.{Vnode, Vnop, Opcode, UplFlags, original, vector_of, caller}
use mac_osx_vfs_redirector.Hooks.Paging.{
  PagingArgs, upl_for_backing_vnode, no_upl, commit_upl, read_in_pages, pagein_backing_vnode,
  pagein_from_backing_vnode, pagein_redirected, pagein_controlled, calls_original,
  pagein_after_original, pagein_hook, write_all_pages, pageout_backing_vnode, pageout_redirected,
  pageout_original, pageout_hook,
}
use mac_osx_vfs_redirector.Hooks.{enodata}
use mac_osx_vfs_redirector.Kernel.{Kernel}
use mac_osx_vfs_redirector.Kernel.Marks.{
  Mark, unmarked, Marks, bind-Marks, if-Marks, pure-Marks, ask-Marks, put-Marks, is_recursive-Marks,
  is_user_client-Marks, call_vnop-Marks, create_upl-Marks, abort_upl_unless_null-Marks,
  enter_recursion-Marks, leave_recursion-Marks,
}
use mac_osx_vfs_redirector.Hooks.Backing.Marks.{fill_upl-Marks, read_in_cache-Marks}
use mac_osx_vfs_redirector.Hooks.Marks.{
  vnode_app_data-Marks, write_and_adjust-Marks, audit_and_redirect-Marks, redirected_vnode-Marks,
}

module _ {K : Type 0} (kernel : Kernel K) {p : Mark} where
  upl_for_backing_vnode-Marks :
      (v2 : Bool) (flags : UplFlags) (ap : PagingArgs) (io : Vnode)
      → Marks kernel p p (upl_for_backing_vnode kernel v2 flags ap io)
  unfolding upl_for_backing_vnode
  upl_for_backing_vnode-Marks v2 flags ap io =
      if-Marks (not v2 && ap.pl == null) (create_upl-Marks kernel io ap.f_offset ap.size flags)
        (pure-Marks kernel (0, null))

  commit_upl-Marks : (ap : PagingArgs) (upl : ℕ) → Marks kernel p p (commit_upl kernel ap upl)
  unfolding commit_upl
  commit_upl-Marks ap upl =
      if-Marks ap.no_commit (abort_upl_unless_null-Marks kernel upl) (pure-Marks kernel tt)

  write_all_pages-Marks :
      (ap : PagingArgs) (io : Vnode) (upl : ℕ) → Marks kernel p p (write_all_pages kernel ap io upl)
  unfolding write_all_pages
  write_all_pages-Marks ap io upl =
      bind-Marks (create_upl-Marks kernel ap.vp ap.f_offset ap.size _) (λ r.
        bind-Marks
          (if-Marks (r.0 == 0) (fill_upl-Marks kernel Opcode.write io ap.f_offset ap.size r.1)
            (pure-Marks kernel r.0))
          (λ e.
            bind-Marks
              (if-Marks (upl == null) (pure-Marks kernel tt)
                (abort_upl_unless_null-Marks kernel r.1))
              (λ _. pure-Marks kernel e)))

module _ {K : Type 0} (kernel : Kernel K) (real : kernel.current_thread ≢ null) where
  pagein_backing_vnode-Marks :
      (ap : PagingArgs) (io : Vnode)
      → Marks kernel unmarked unmarked (pagein_backing_vnode kernel ap io)
  unfolding pagein_backing_vnode read_in_pages
  pagein_backing_vnode-Marks ap io = bind-Marks (enter_recursion-Marks kernel real) (λ _.
      bind-Marks (call_vnop-Marks kernel Vnop.pagein (vector_of io) io caller) (λ e.
        bind-Marks (leave_recursion-Marks kernel) (λ _.
          if-Marks (e == 0 && ap.pl == null)
            (read_in_cache-Marks kernel ap.vp io ap.f_offset ap.size) (pure-Marks kernel e))))

  pagein_from_backing_vnode-Marks :
      (ap : PagingArgs) (io : Vnode)
      → Marks kernel unmarked unmarked (pagein_from_backing_vnode kernel ap io)
  unfolding pagein_from_backing_vnode
  pagein_from_backing_vnode-Marks ap io = bind-Marks (ask-Marks kernel _) (λ v2.
      bind-Marks (upl_for_backing_vnode-Marks kernel v2 _ ap io) (λ r.
        bind-Marks
          (if-Marks (no_upl kernel v2 ap r) (pure-Marks kernel r.0)
            (pagein_backing_vnode-Marks ap io))
          (λ e. bind-Marks (commit_upl-Marks kernel ap r.1) (λ _. pure-Marks kernel e))))

  pagein_redirected-Marks :
      (ap : PagingArgs) (app : ApplicationData) (io : Vnode)
      → Marks kernel unmarked unmarked (pagein_redirected kernel ap app io)
  unfolding pagein_redirected
  pagein_redirected-Marks ap app io =
      bind-Marks
        (if-Marks (not app.redirect_io) (pagein_from_backing_vnode-Marks ap io)
          (read_in_cache-Marks kernel ap.vp io ap.f_offset ap.size))
        (λ e. bind-Marks (put-Marks kernel io) (λ _. pure-Marks kernel e))

  pageout_backing_vnode-Marks :
      (ap : PagingArgs) (io : Vnode) (upl : ℕ)
      → Marks kernel unmarked unmarked (pageout_backing_vnode kernel ap io upl)
  unfolding pageout_backing_vnode
  pageout_backing_vnode-Marks ap io upl = bind-Marks (enter_recursion-Marks kernel real) (λ _.
      bind-Marks (write_and_adjust-Marks kernel Vnop.pageout ap.vp io) (λ e.
        bind-Marks (leave_recursion-Marks kernel) (λ _.
          if-Marks (e == 0 && ap.pl == null) (write_all_pages-Marks kernel ap io upl)
            (pure-Marks kernel e))))

  pageout_redirected-Marks :
      (ap : PagingArgs) (io : Vnode)
      → Marks kernel unmarked unmarked (pageout_redirected kernel ap io)
  unfolding pageout_redirected
  pageout_redirected-Marks ap io = bind-Marks (ask-Marks kernel _) (λ v2.
      bind-Marks (upl_for_backing_vnode-Marks kernel v2 _ ap io) (λ r.
        bind-Marks
          (if-Marks (no_upl kernel v2 ap r) (pure-Marks kernel r.0)
            (pageout_backing_vnode-Marks ap io r.1))
          (λ e.
            bind-Marks (commit_upl-Marks kernel ap r.1)
              (λ _. bind-Marks (put-Marks kernel io) (λ _. pure-Marks kernel e)))))

  pagein_controlled-Marks :
      (ap : PagingArgs) (app : ApplicationData)
      → Marks kernel unmarked unmarked (pagein_controlled kernel ap app)
  unfolding pagein_controlled
  pagein_controlled-Marks ap app =
      bind-Marks (audit_and_redirect-Marks kernel real Opcode.read ap.vp app)
        (λ io. if-Marks (io == null) ((pure-Marks kernel 0)) (pagein_redirected-Marks ap app io))

  pagein_after_original-Marks :
      (ap : PagingArgs) (o : Option ApplicationData)
      → Marks kernel unmarked unmarked (pagein_after_original kernel ap o)
  unfolding pagein_after_original
  pagein_after_original-Marks ap none = pure-Marks kernel 0
  pagein_after_original-Marks ap (some app) = pagein_controlled-Marks ap app

  pub pagein-Marks : (ap : PagingArgs) → Marks kernel unmarked unmarked (pagein_hook kernel ap)
  unfolding pagein_hook
  pagein-Marks ap = bind-Marks (is_recursive-Marks kernel) (λ recursive.
      bind-Marks (vnode_app_data-Marks kernel ap.vp) (λ p.
        bind-Marks (is_user_client-Marks kernel) (λ client.
          bind-Marks
            (if-Marks (calls_original kernel (application_data_at p) || recursive || client)
              (call_vnop-Marks kernel Vnop.pagein original ap.vp caller) (pure-Marks kernel 0))
            (λ e. bind-Marks (is_user_client-Marks kernel) (λ client_still.
              if-Marks (not (e == 0) || recursive || client_still) (pure-Marks kernel e)
                (pagein_after_original-Marks ap (application_data_at p)))))))

  pub pageout-Marks : (ap : PagingArgs) → Marks kernel unmarked unmarked (pageout_hook kernel ap)
  unfolding pageout_hook pageout_original
  pageout-Marks ap = bind-Marks (redirected_vnode-Marks kernel real Opcode.write ap.vp) (λ io.
      if-Marks (io == null)
        ((bind-Marks (call_vnop-Marks kernel Vnop.pageout original ap.vp caller)
          (λ _. pure-Marks kernel enodata)))
        (pageout_redirected-Marks ap io))
