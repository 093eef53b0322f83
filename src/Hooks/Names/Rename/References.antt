-- ===== src/Hooks/Names/Rename/References.antt =====
-- The references that a rename takes (VFSHooks.cpp, QvrVnopRenameHookEx2).
use mac_osx_vfs_redirector.Applications.{open_existing}
use mac_osx_vfs_redirector.Base.{ℕ, zero, suc, refl, List, ◌∷◌, arith, not, ◌&&◌, ◌==◌}
use mac_osx_vfs_redirector.DataMap.{null}
use mac_osx_vfs_redirector.Event.{
  Vnode, FilePath, Vnop, Opcode, Context, original, vector_of, caller, super_user, purged,
}
use mac_osx_vfs_redirector.Hooks.Names.Accounts.{
  ReturnsNone, reorder-Keeps, return-Keeps, bind-Keeps_where, get_vnode-Keeps,
  recursive_lookup-Keeps, recursive_lookup-ReturnsNone, resize-Keeps,
}
use mac_osx_vfs_redirector.Hooks.Names.Rename.{
  RenameArgs, allocate, find_next, rename_originals, truncate_target, existing_target,
  find_no_target, find_both_targets, find_targets, rename_all, rename_unredirected,
  application_of_rename,
}
use mac_osx_vfs_redirector.Hooks.Names.{Switches}
use mac_osx_vfs_redirector.Hooks.References.{vnode_app_data-Keeps}
use mac_osx_vfs_redirector.Kernel.Accounts.{
  Keeps, FailsEmpty, pure-Keeps, note-Keeps, on_maps-Keeps, bind-Keeps, if-Keeps, put-Keeps,
  put_unless_null-Keeps, malloc-Keeps, audit-Keeps, call_vnop-Keeps, enter_recursion-Keeps,
  leave_recursion-Keeps, application_by_context-Keeps,
}
use mac_osx_vfs_redirector.Kernel.{Kernel}
use mac_osx_vfs_redirector.VnodeMap.References.{remove_shadow_reverse-Accounted}

module _ {K : Type 0} (kernel : Kernel K) (mine : List Vnode) where
  pub allocate-Keeps : (n : ℕ) → Keeps mine (allocate kernel n) (λ _. mine)
  unfolding allocate
  allocate-Keeps zero = pure-Keeps mine 0
  allocate-Keeps (suc n) = bind-Keeps (malloc-Keeps kernel mine) (λ a.
      bind-Keeps (if-Keeps a (λ _. allocate-Keeps n) (λ _. pure-Keeps mine 0))
        (λ k. pure-Keeps mine _))

  pub rename_all-Keeps :
      (switches : Switches) (shadow redirected original_fvp : Vnode)
      → Keeps mine (rename_all kernel switches shadow redirected original_fvp) (λ _. mine)
  unfolding rename_all
  rename_all-Keeps switches shadow redirected original_fvp =
      bind-Keeps (enter_recursion-Keeps kernel mine _) (λ _.
        bind-Keeps
          (call_vnop-Keeps kernel mine Vnop.rename (vector_of redirected) redirected super_user)
          (λ first.
            bind-Keeps
              (if-Keeps (first == 0)
                (λ _. call_vnop-Keeps kernel mine Vnop.rename original shadow super_user)
                (λ _. pure-Keeps mine first))
              (λ second.
                bind-Keeps
                  (if-Keeps (first == 0 && (second == 0 && switches.synchronise_with_original))
                    (λ _. call_vnop-Keeps kernel mine Vnop.rename original original_fvp caller)
                    (λ _. pure-Keeps mine second))
                  (λ third.
                    bind-Keeps
                      (if-Keeps (third == 0)
                        (λ _.
                          on_maps-Keeps mine _
                            (λ s ok. remove_shadow_reverse-Accounted s ok shadow))
                        (λ _. pure-Keeps mine tt))
                      (λ _.
                        bind-Keeps
                          (if-Keeps (third == 0)
                            (λ _. note-Keeps mine (purged shadow) (λ v. (refl, refl)))
                            (λ _. pure-Keeps mine tt))
                          (λ _.
                            bind-Keeps
                              (if-Keeps (third == 0)
                                (λ _. note-Keeps mine (purged original_fvp) (λ v. (refl, refl)))
                                (λ _. pure-Keeps mine tt))
                              (λ _.
                                bind-Keeps (leave_recursion-Keeps kernel mine)
                                  (λ _. pure-Keeps mine third))))))))

  pub rename_unredirected-Keeps :
      (ap : RenameArgs) → Keeps mine (rename_unredirected kernel ap) (λ _. mine)
  unfolding rename_unredirected
  rename_unredirected-Keeps ap = bind-Keeps (enter_recursion-Keeps kernel mine _) (λ _.
      bind-Keeps (call_vnop-Keeps kernel mine Vnop.rename original ap.fvp caller) (λ e.
        bind-Keeps (leave_recursion-Keeps kernel mine)
          (λ _. bind-Keeps (audit-Keeps kernel mine Opcode.rename) (λ _. pure-Keeps mine e))))

  truncate_target-Keeps :
      (redirected : Vnode) → Keeps mine (truncate_target kernel redirected) (λ v. v ∷ mine)
  unfolding truncate_target
  truncate_target-Keeps redirected = bind-Keeps (enter_recursion-Keeps kernel mine _) (λ _.
      bind-Keeps (resize-Keeps kernel mine redirected 0 super_user) (λ e.
        bind-Keeps (leave_recursion-Keeps kernel mine)
          (λ _. bind-Keeps (get_vnode-Keeps mine redirected) (λ _. return-Keeps _ (λ v x. refl)))))

  pub application_of_rename-Keeps :
      (fvp : Vnode) → Keeps mine (application_of_rename kernel fvp) (λ _. mine)
  unfolding application_of_rename
  application_of_rename-Keeps fvp = bind-Keeps (vnode_app_data-Keeps kernel mine fvp) (λ p.
      if-Keeps (p == null) (λ _. application_by_context-Keeps kernel mine open_existing)
        (λ _. pure-Keeps mine p))

module _ {K : Type 0} {kernel : Kernel K} (fails : FailsEmpty kernel) (mine : List Vnode) where
  pub find_next-Keeps :
      (e cookie : ℕ) (p : FilePath) (c : Context)
      → Keeps mine (find_next kernel e cookie p c) (λ r. r.1 ∷ mine)
  unfolding find_next
  find_next-Keeps e cookie p c =
      if-Keeps (e == 0) (λ _. recursive_lookup-Keeps fails mine cookie p c)
        (λ _. return-Keeps _ (λ v x. ground arith))

module _ {K : Type 0} {kernel : Kernel K} (fails : FailsEmpty kernel) (mine : List Vnode) where
  pub rename_originals-Keeps :
      (ap : RenameArgs) → Keeps mine (rename_originals kernel ap) (λ _. mine)
  unfolding rename_originals
  rename_originals-Keeps ap = bind-Keeps (find_next-Keeps fails mine 0 _ _ caller) (λ f.
      bind-Keeps {mid = λ t. t.1 ∷ f.1 ∷ mine}
        (if-Keeps (ap.tvp == null) (λ _. return-Keeps _ (λ v x. ground arith))
          (λ _. find_next-Keeps fails (f.1 ∷ mine) f.0 _ _ caller))
        (λ t.
          bind-Keeps
            (if-Keeps (t.0 == 0)
              (λ _. call_vnop-Keeps kernel (t.1 ∷ f.1 ∷ mine) Vnop.rename original f.1 caller)
              (λ _. pure-Keeps (t.1 ∷ f.1 ∷ mine) t.0))
            (λ e. bind-Keeps (audit-Keeps kernel (t.1 ∷ f.1 ∷ mine) Opcode.rename) (λ _.
              reorder-Keeps (f.1 ∷ t.1 ∷ mine) (λ v x. omega arith)
                (bind-Keeps (put_unless_null-Keeps (t.1 ∷ mine) f.1)
                  (λ _. bind-Keeps (put_unless_null-Keeps mine t.1) (λ _. pure-Keeps mine e)))))))

  existing_target-Keeps :
      (ap : RenameArgs) (redirected : Vnode)
      → Keeps (redirected ∷ mine) (existing_target kernel ap redirected) (λ v. v ∷ mine)
  unfolding existing_target
  existing_target-Keeps ap redirected =
      bind-Keeps_where ReturnsNone (recursive_lookup-ReturnsNone fails _ ap.target.path caller)
        (recursive_lookup-Keeps fails (redirected ∷ mine) _ ap.target.path caller)
        (λ o none_found.
          bind-Keeps {mid = λ v. v ∷ redirected ∷ mine}
            (if-Keeps (o.0 == 0)
              (λ _.
                bind-Keeps (put-Keeps (redirected ∷ mine) o.1)
                  (λ _. return-Keeps _ (λ v x. ground arith)))
              (λ h.
                reorder-Keeps (redirected ∷ mine) (λ v x. ground (arith, h, none_found))
                  (truncate_target-Keeps kernel (redirected ∷ mine) redirected)))
            (λ v.
              reorder-Keeps (redirected ∷ v ∷ mine) (λ u x. omega arith)
                (bind-Keeps (put-Keeps (v ∷ mine) redirected) (λ _. return-Keeps v (λ u x. refl)))))

  pub find_targets-Keeps :
      (e : ℕ) (ap : RenameArgs) (redirected : FilePath)
      → Keeps mine (find_targets kernel e ap redirected) (λ t. t.1 ∷ t.2 ∷ mine)
  unfolding find_targets find_no_target find_both_targets
  find_targets-Keeps e ap redirected =
      if-Keeps (not (e == 0)) (λ _. return-Keeps _ (λ v x. ground arith))
        (λ _.
          if-Keeps (ap.tvp == null)
            (λ _.
              bind-Keeps_where ReturnsNone
                (recursive_lookup-ReturnsNone fails _ redirected super_user)
                (recursive_lookup-Keeps fails mine _ redirected super_user)
                (λ r none_found.
                  bind-Keeps {mid = λ v. v ∷ mine}
                    (if-Keeps (r.0 == 0) (λ _. existing_target-Keeps ap r.1)
                      (λ h. return-Keeps _ (λ v x. ground (arith, h, none_found))))
                    (λ v. return-Keeps _ (λ u x. ground arith))))
            (λ _. bind-Keeps (recursive_lookup-Keeps fails mine _ redirected super_user) (λ r.
              bind-Keeps (find_next-Keeps fails (r.1 ∷ mine) r.0 _ _ caller)
                (λ o. return-Keeps _ (λ u x. omega arith)))))
