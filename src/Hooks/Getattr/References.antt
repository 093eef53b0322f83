-- ===== src/Hooks/Getattr/References.antt =====
-- The references that getattr takes (VFSHooks.cpp, QvrVnopGetattrHookEx2).
use mac_osx_vfs_redirector.Base.{◌==◌, ◌||◌, List, ◌∷◌, arith}
use mac_osx_vfs_redirector.DataMap.{null}
use mac_osx_vfs_redirector.Event.{Vnode, Callee, original, vector_of}
use mac_osx_vfs_redirector.Hooks.Getattr.{
  Wanted, any_wanted, overwrite, call_getattr, query_backing_file, adjust_attributes,
  getattr_of_real_vnode, getattr_original, getattr_hook,
}
use mac_osx_vfs_redirector.Hooks.References.{is_user_client-Keeps}
use mac_osx_vfs_redirector.Kernel.Accounts.{
  Keeps, pure-Keeps, step-Keeps, from_maps-Keeps, put-Keeps, bind-Keeps, if-Keeps,
  put_unless_null-Keeps, enter_recursion-Keeps, leave_recursion-Keeps, is_recursive-Keeps,
}
use mac_osx_vfs_redirector.Kernel.{Kernel, Attributes, ◌>>=◌, pure}
use mac_osx_vfs_redirector.VnodeMap.References.{
  get_vnode_io_ref-Accounted, get_vnode_shadow_reverse_ref-Accounted,
}

module _ {K : Type 0} (kernel : Kernel K) (mine : List Vnode) where
  call_getattr-Keeps : (f : Callee) (v : Vnode) → Keeps mine (call_getattr kernel f v) (λ _. mine)
  unfolding call_getattr ◌>>=◌ pure
  call_getattr-Keeps f v = record {
    keeps = λ w ok. record {
      shadow_valid = ok.shadow_valid;
      balance = λ x real. ground (arith, ok.balance x real);
    };
  }

  query_backing_file-Keeps :
      (want : Wanted) (io : Vnode) (a : Attributes)
      → Keeps mine (query_backing_file kernel want io a) (λ _. mine)
  unfolding query_backing_file
  query_backing_file-Keeps want io a = bind-Keeps (step-Keeps mine _) (λ b.
      if-Keeps (b.0 == 0) (λ _. pure-Keeps mine (overwrite want b.1 a)) (λ _. pure-Keeps mine a))

module _ {K : Type 0} (kernel : Kernel K) (mine : List Vnode) where
  adjust_attributes-Keeps :
      (want : Wanted) (shadow : Vnode) (a : Attributes)
      → Keeps mine (adjust_attributes kernel want shadow a) (λ _. mine)
  unfolding adjust_attributes
  adjust_attributes-Keeps want shadow a =
      bind-Keeps (from_maps-Keeps mine _ (λ s ok. get_vnode_io_ref-Accounted s ok shadow)) (λ io.
        bind-Keeps
          (if-Keeps (io == null) (λ _. pure-Keeps _ a)
            (λ _.
              if-Keeps (any_wanted want) (λ _. query_backing_file-Keeps kernel _ want io a)
                (λ _. pure-Keeps _ a)))
          (λ b. bind-Keeps (put_unless_null-Keeps mine io) (λ _. pure-Keeps mine b)))

module _ {K : Type 0} (kernel : Kernel K) (mine : List Vnode) where
  getattr_of_real_vnode-Keeps :
      (want : Wanted) (shadow real : Vnode)
      → Keeps (real ∷ mine) (getattr_of_real_vnode kernel want shadow real) (λ _. mine)
  unfolding getattr_of_real_vnode
  getattr_of_real_vnode-Keeps want shadow real = bind-Keeps (enter_recursion-Keeps kernel _ _) (λ _.
      bind-Keeps (call_getattr-Keeps kernel _ (vector_of real) real) (λ r.
        bind-Keeps
          (if-Keeps (r.0 == 0) (λ _. adjust_attributes-Keeps kernel _ want shadow r.1)
            (λ _. pure-Keeps _ r.1))
          (λ a.
            bind-Keeps (leave_recursion-Keeps kernel _)
              (λ _. bind-Keeps (put-Keeps mine real) (λ _. pure-Keeps mine (r.0, a))))))

  getattr_original-Keeps :
      (vp real : Vnode) → Keeps (real ∷ mine) (getattr_original kernel vp real) (λ _. mine)
  unfolding getattr_original
  getattr_original-Keeps vp real =
      bind-Keeps (put_unless_null-Keeps mine real) (λ _. call_getattr-Keeps kernel mine original vp)

  pub getattr-Keeps :
      (want : Wanted) (vp : Vnode) → Keeps mine (getattr_hook kernel want vp) (λ _. mine)
  unfolding getattr_hook
  getattr-Keeps want vp =
      bind-Keeps (from_maps-Keeps mine _ (λ s ok. get_vnode_shadow_reverse_ref-Accounted s ok vp))
        (λ real. bind-Keeps (is_recursive-Keeps kernel _) (λ recursive.
          bind-Keeps (is_user_client-Keeps kernel _) (λ client.
            if-Keeps (real == null || recursive || client) (λ _. getattr_original-Keeps vp real)
              (λ _. getattr_of_real_vnode-Keeps want vp real))))
