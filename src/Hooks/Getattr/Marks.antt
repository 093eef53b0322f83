-- ===== src/Hooks/Getattr/Marks.antt =====
-- The recursion mark over a getattr (VFSHooks.cpp, QvrVnopGetattrHookEx2).
use mac_osx_vfs_redirector.Base.{refl, ◌≢◌, ◌==◌, ◌||◌}
use mac_osx_vfs_redirector.DataMap.{null}
use mac_osx_vfs_redirector.Event.{Vnode, Callee, original, vector_of}
use mac_osx_vfs_redirector.Hooks.Getattr.{
  Wanted, any_wanted, overwrite, call_getattr, query_backing_file, adjust_attributes,
  getattr_of_real_vnode, getattr_original, getattr_hook,
}
use mac_osx_vfs_redirector.Kernel.{Kernel, Attributes, ◌>>=◌, pure}
use mac_osx_vfs_redirector.Kernel.Marks.{
  leaves-Marks, Mark, unmarked, Marks, bind-Marks, if-Marks, pure-Marks, step-Marks, on_maps-Marks,
  from_maps-Marks, put-Marks, is_recursive-Marks, is_user_client-Marks, enter_recursion-Marks,
  leave_recursion-Marks,
}

module _ {K : Type 0} (kernel : Kernel K) {p : Mark} where
  call_getattr-Marks : (f : Callee) (v : Vnode) → Marks kernel p p (call_getattr kernel f v)
  unfolding call_getattr ◌>>=◌ pure
  call_getattr-Marks f v = leaves-Marks kernel _ (λ w. refl)

  query_backing_file-Marks :
      (want : Wanted) (io : Vnode) (a : Attributes)
      → Marks kernel p p (query_backing_file kernel want io a)
  unfolding query_backing_file
  query_backing_file-Marks want io a =
      bind-Marks (step-Marks kernel _)
        (λ b. if-Marks (b.0 == 0) (pure-Marks kernel (overwrite want b.1 a)) (pure-Marks kernel a))

  adjust_attributes-Marks :
      (want : Wanted) (shadow : Vnode) (a : Attributes)
      → Marks kernel p p (adjust_attributes kernel want shadow a)
  unfolding adjust_attributes
  adjust_attributes-Marks want shadow a = bind-Marks (from_maps-Marks kernel _) (λ io.
      bind-Marks
        (if-Marks (io == null) (pure-Marks kernel a)
          (if-Marks (any_wanted want) (query_backing_file-Marks want io a) (pure-Marks kernel a)))
        (λ b. bind-Marks (on_maps-Marks kernel _) (λ _. pure-Marks kernel b)))

module _ {K : Type 0} (kernel : Kernel K) (thread : kernel.current_thread ≢ null) where
  getattr_of_real_vnode-Marks :
      (want : Wanted) (shadow real : Vnode)
      → Marks kernel unmarked unmarked (getattr_of_real_vnode kernel want shadow real)
  unfolding getattr_of_real_vnode
  getattr_of_real_vnode-Marks want shadow real =
      bind-Marks (enter_recursion-Marks kernel thread) (λ _.
        bind-Marks (call_getattr-Marks kernel (vector_of real) real) (λ r.
          bind-Marks
            (if-Marks (r.0 == 0) (adjust_attributes-Marks kernel want shadow r.1)
              (pure-Marks kernel r.1))
            (λ a.
              bind-Marks (leave_recursion-Marks kernel)
                (λ _. bind-Marks (put-Marks kernel real) (λ _. pure-Marks kernel (r.0, a))))))

  getattr_original-Marks :
      (vp real : Vnode) → Marks kernel unmarked unmarked (getattr_original kernel vp real)
  unfolding getattr_original
  getattr_original-Marks vp real =
      bind-Marks (on_maps-Marks kernel _) (λ _. call_getattr-Marks kernel original vp)

  pub getattr-Marks :
      (want : Wanted) (vp : Vnode) → Marks kernel unmarked unmarked (getattr_hook kernel want vp)
  unfolding getattr_hook
  getattr-Marks want vp = bind-Marks (from_maps-Marks kernel _) (λ real.
      bind-Marks (is_recursive-Marks kernel) (λ recursive.
        bind-Marks (is_user_client-Marks kernel) (λ client.
          if-Marks (real == null || recursive || client) (getattr_original-Marks vp real)
            (getattr_of_real_vnode-Marks want vp real))))
