-- ===== src/Hooks/Names/Rename/Marks.antt =====
-- The recursion mark over a rename (VFSHooks.cpp 2123-2677).
use mac_osx_vfs_redirector.Applications.{ApplicationData, application_data_at, open_existing}
use mac_osx_vfs_redirector.Base.{ℕ, zero, suc, ◌≢◌, Bool, not, ◌&&◌, ◌==◌, leb}
use mac_osx_vfs_redirector.DataMap.{null}
use mac_osx_vfs_redirector.Event.{
  Vnode, FilePath, Vnop, Opcode, Context, original, vector_of, caller, super_user, purged,
}
use mac_osx_vfs_redirector.Hooks.Marks.{vnode_app_data-Marks, if_controlled-Marks}
use mac_osx_vfs_redirector.Hooks.Names.Marks.{resize-Marks, recursive_lookup-Marks}
use mac_osx_vfs_redirector.Hooks.Names.Rename.{
  RenameArgs, allocate, find_next, rename_originals, truncate_target, existing_target,
  find_no_target, find_both_targets, find_targets, rename_all, rename_converted, rename_redirected,
  rename_unredirected, controlled_rename, application_of_rename, rename_hook,
}
use mac_osx_vfs_redirector.Hooks.Names.{Switches}
use mac_osx_vfs_redirector.Kernel.Marks.{
  Mark, unmarked, Marks, bind-Marks, if-Marks, pure-Marks, note-Marks, on_maps-Marks, put-Marks,
  malloc-Marks, application_by_context-Marks, audit-Marks, call_vnop-Marks, enter_recursion-Marks,
  leave_recursion-Marks, get_vnode-Marks,
}
use mac_osx_vfs_redirector.Kernel.{Kernel, pure, ◌>>◌}
use mac_osx_vfs_redirector.Kernel.Calls.{on_maps}
use mac_osx_vfs_redirector.VnodeMap.{put_unless_null}

-- The fields of a stack frame are at no NULL address.
pub record RealCookies (ap : RenameArgs) : Type 0 where
  pub from_real : ap.from_cookie ≢ null
  pub target_real : ap.target_cookie ≢ null

module _ {K : Type 0} (kernel : Kernel K) {p : Mark} where
  allocate-Marks : (n : ℕ) → Marks kernel p p (allocate kernel n)
  unfolding allocate
  allocate-Marks zero = pure-Marks kernel 0
  allocate-Marks (suc n) = bind-Marks (malloc-Marks kernel) (λ a.
      bind-Marks (if-Marks a (allocate-Marks n) (pure-Marks kernel 0)) (λ k. pure-Marks kernel _))

  find_next-Marks :
      (e cookie : ℕ) (path : FilePath) (c : Context)
      → cookie ≢ null
      → Marks kernel p p (find_next kernel e cookie path c)
  unfolding find_next
  find_next-Marks e cookie path c real =
      if-Marks (e == 0) (recursive_lookup-Marks kernel cookie path c real)
        (pure-Marks kernel (e, null))

  rename_originals-Marks :
      (ap : RenameArgs) → RealCookies ap → Marks kernel p p (rename_originals kernel ap)
  unfolding rename_originals
  rename_originals-Marks ap cookies =
      bind-Marks (find_next-Marks 0 ap.from_cookie ap.from.path caller cookies.from_real) (λ f.
        bind-Marks
          (if-Marks (ap.tvp == null) (pure-Marks kernel (f.0, null))
            (find_next-Marks f.0 ap.target_cookie ap.target.path caller cookies.target_real))
          (λ t.
            bind-Marks
              (if-Marks (t.0 == 0) (call_vnop-Marks kernel Vnop.rename original f.1 caller)
                (pure-Marks kernel t.0))
              (λ e. bind-Marks (audit-Marks kernel Opcode.rename) (λ _.
                bind-Marks (on_maps-Marks kernel _)
                  (λ _. bind-Marks (on_maps-Marks kernel _) (λ _. pure-Marks kernel e))))))

  -- the six puts of the end
  puts-Marks :
      (fd td f o t u : Vnode) (e : ℕ)
      → Marks kernel p p (
          on_maps (put_unless_null fd)
          >> (on_maps (put_unless_null f)
              >> (on_maps (put_unless_null td)
                  >> (on_maps (put_unless_null t)
                      >> (on_maps (put_unless_null o)
                          >> (on_maps (put_unless_null u) >> pure e))))))
  puts-Marks fd td f o t u e = bind-Marks (on_maps-Marks kernel _) (λ _.
      bind-Marks (on_maps-Marks kernel _) (λ _. bind-Marks (on_maps-Marks kernel _) (λ _.
        bind-Marks (on_maps-Marks kernel _) (λ _.
          bind-Marks (on_maps-Marks kernel _)
            (λ _. bind-Marks (on_maps-Marks kernel _) (λ _. pure-Marks kernel e))))))

  application_of_rename-Marks : (fvp : Vnode) → Marks kernel p p (application_of_rename kernel fvp)
  unfolding application_of_rename
  application_of_rename-Marks fvp = bind-Marks (vnode_app_data-Marks kernel fvp) (λ q.
      if-Marks (q == null) (application_by_context-Marks kernel open_existing)
        (pure-Marks kernel q))

module _ {K : Type 0} (kernel : Kernel K) (real : kernel.current_thread ≢ null) {p : Mark} where
  truncate_target-Marks :
      (redirected : Vnode) → Marks kernel p p (truncate_target kernel redirected)
  unfolding truncate_target
  truncate_target-Marks redirected = bind-Marks (enter_recursion-Marks kernel real) (λ _.
      bind-Marks (resize-Marks kernel redirected 0 super_user) (λ e.
        bind-Marks (leave_recursion-Marks kernel) (λ _.
          bind-Marks (get_vnode-Marks kernel redirected) (λ _. pure-Marks kernel redirected))))

  existing_target-Marks :
      (ap : RenameArgs) (redirected : Vnode)
      → Marks kernel p p (existing_target kernel ap redirected)
  unfolding existing_target
  existing_target-Marks ap redirected =
      bind-Marks (recursive_lookup-Marks kernel _ ap.target.path caller real) (λ o.
        bind-Marks
          (if-Marks (o.0 == 0) (bind-Marks (put-Marks kernel o.1) (λ _. pure-Marks kernel null))
            (truncate_target-Marks redirected))
          (λ v. bind-Marks (put-Marks kernel redirected) (λ _. pure-Marks kernel v)))

  find_no_target-Marks :
      (ap : RenameArgs) (redirected : FilePath)
      → Marks kernel p p (find_no_target kernel ap redirected)
  unfolding find_no_target
  find_no_target-Marks ap redirected =
      bind-Marks (recursive_lookup-Marks kernel _ redirected super_user real) (λ r.
        bind-Marks (if-Marks (r.0 == 0) (existing_target-Marks ap r.1) (pure-Marks kernel null))
          (λ v. pure-Marks kernel (0, v, null)))

  find_both_targets-Marks :
      (ap : RenameArgs) (redirected : FilePath)
      → Marks kernel p p (find_both_targets kernel ap redirected)
  unfolding find_both_targets
  find_both_targets-Marks ap redirected =
      bind-Marks (recursive_lookup-Marks kernel _ redirected super_user real) (λ r.
        bind-Marks (find_next-Marks kernel r.0 _ ap.target.path caller real)
          (λ o. pure-Marks kernel (o.0, r.1, o.1)))

  find_targets-Marks :
      (e : ℕ) (ap : RenameArgs) (redirected : FilePath)
      → Marks kernel p p (find_targets kernel e ap redirected)
  unfolding find_targets
  find_targets-Marks e ap redirected = if-Marks (not (e == 0)) (pure-Marks kernel (e, null, null)) (
      if-Marks (ap.tvp == null) (find_no_target-Marks ap redirected)
        (find_both_targets-Marks ap redirected))

  rename_all-Marks :
      (switches : Switches) (shadow redirected fvp : Vnode)
      → Marks kernel p p (rename_all kernel switches shadow redirected fvp)
  unfolding rename_all
  rename_all-Marks switches shadow redirected fvp =
      bind-Marks (enter_recursion-Marks kernel real) (λ _.
        bind-Marks (call_vnop-Marks kernel Vnop.rename (vector_of redirected) redirected super_user)
          (λ first.
            bind-Marks
              (if-Marks (first == 0) (call_vnop-Marks kernel Vnop.rename original shadow super_user)
                (pure-Marks kernel first))
              (λ second.
                bind-Marks
                  (if-Marks (first == 0 && (second == 0 && switches.synchronise_with_original))
                    (call_vnop-Marks kernel Vnop.rename original fvp caller)
                    (pure-Marks kernel second))
                  (λ third.
                    bind-Marks
                      (if-Marks (third == 0) (on_maps-Marks kernel _) (pure-Marks kernel tt))
                      (λ _.
                        bind-Marks
                          (if-Marks (third == 0) (note-Marks kernel (purged shadow))
                            (pure-Marks kernel tt))
                          (λ _.
                            bind-Marks
                              (if-Marks (third == 0) (note-Marks kernel (purged fvp))
                                (pure-Marks kernel tt))
                              (λ _.
                                bind-Marks (leave_recursion-Marks kernel)
                                  (λ _. pure-Marks kernel third))))))))

  rename_converted-Marks :
      (switches : Switches) (app : ApplicationData) (ap : RenameArgs) (e0 : ℕ) (both_paths : Bool)
      → RealCookies ap
      → Marks kernel p p (rename_converted kernel switches app ap e0 both_paths)
  unfolding rename_converted
  rename_converted-Marks switches app ap e0 both_paths cookies =
      bind-Marks (find_next-Marks kernel e0 _ _ super_user real) (λ fd.
        bind-Marks (find_next-Marks kernel fd.0 _ _ super_user real) (λ td.
          bind-Marks (find_next-Marks kernel td.0 _ _ super_user cookies.from_real) (λ f.
            bind-Marks (find_next-Marks kernel f.0 _ _ caller cookies.from_real) (λ o.
              bind-Marks (find_targets-Marks o.0 ap _) (λ t.
                bind-Marks
                  (if-Marks (t.0 == 0) (rename_all-Marks switches ap.fvp f.1 o.1)
                    (pure-Marks kernel t.0))
                  (λ e. bind-Marks (audit-Marks kernel Opcode.rename) (λ _.
                    bind-Marks
                      (if-Marks both_paths (audit-Marks kernel Opcode.rename)
                        (pure-Marks kernel tt))
                      (λ _. puts-Marks kernel fd.1 td.1 f.1 o.1 t.1 t.2 e))))))))

  rename_unredirected-Marks : (ap : RenameArgs) → Marks kernel p p (rename_unredirected kernel ap)
  unfolding rename_unredirected
  rename_unredirected-Marks ap = bind-Marks (enter_recursion-Marks kernel real) (λ _.
      bind-Marks (call_vnop-Marks kernel Vnop.rename original ap.fvp caller) (λ e.
        bind-Marks (leave_recursion-Marks kernel)
          (λ _. bind-Marks (audit-Marks kernel Opcode.rename) (λ _. pure-Marks kernel e))))

  controlled_rename-Marks :
      (switches : Switches) (app : ApplicationData) (ap : RenameArgs)
      → RealCookies ap
      → Marks kernel p p (controlled_rename kernel switches app ap)
  unfolding controlled_rename rename_redirected
  controlled_rename-Marks switches app ap cookies =
      if-Marks switches.redirection_is_null_and_void (rename_unredirected-Marks ap) (
        if-Marks app.redirect_io
          (bind-Marks (allocate-Marks kernel 12)
            (λ n. rename_converted-Marks switches app ap _ (leb 6 n) cookies))
          (rename_originals-Marks kernel ap cookies))

module _ {K : Type 0} (kernel : Kernel K) (real : kernel.current_thread ≢ null) where
  pub rename-Marks :
      (switches : Switches) (ap : RenameArgs)
      → RealCookies ap
      → Marks kernel unmarked unmarked (rename_hook kernel switches ap)
  unfolding rename_hook
  rename-Marks switches ap cookies = bind-Marks (application_of_rename-Marks kernel ap.fvp) (λ q.
      if_controlled-Marks kernel real (application_data_at q)
        (λ app. controlled_rename-Marks kernel real switches app ap cookies)
        (call_vnop-Marks kernel Vnop.rename original ap.fvp caller))
