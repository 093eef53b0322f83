-- ===== src/Hooks/Names/Lookup/References.antt =====
-- The references that a lookup takes (VFSHooks.cpp, QvrVnopLookupHookEx2).
use mac_osx_vfs_redirector.Applications.{ApplicationData}
use mac_osx_vfs_redirector.Base.{ℕ, ◌≢◌, refl, List, ◌∷◌, arith, not, ◌&&◌, ◌==◌, Bool, false}
use mac_osx_vfs_redirector.DataMap.{null}
use mac_osx_vfs_redirector.Event.{Vnode, FilePath, Vnop, Opcode, name_op_set, super_user}
use mac_osx_vfs_redirector.Hooks.Backing.References.{associate-Keeps}
use mac_osx_vfs_redirector.Hooks.Exchange.References.{request-Keeps}
use mac_osx_vfs_redirector.Hooks.Names.Accounts.{
  resize-Keeps, ReturnsVnodes, ReturnsNone, reorder-Keeps, return-Keeps, bind-Keeps_where,
  get_vnode-Keeps, close_vnode-Keeps, map_add_vnode_app_data-Keeps, recursion_cookie-Keeps,
  map_add_vnode_shadow_reverse-Keeps, open_path-Keeps, original_call-Keeps, lookup_path-ReturnsNone,
}
use mac_osx_vfs_redirector.Hooks.Names.Lookup.{
  pass_lookup, equalize_sizes, create_shadow_file, find_shadow_file, shadow_section,
  cover_with_shadow, offer_shadow_file,
}
use mac_osx_vfs_redirector.Kernel.Accounts.{
  Keeps, FailsEmpty, pure-Keeps, ask-Keeps, note-Keeps, from_maps-Keeps, bind-Keeps, if-Keeps,
  put-Keeps, malloc-Keeps, lookup_path-Keeps, enter_recursion-Keeps, leave_recursion-Keeps,
}
use mac_osx_vfs_redirector.Kernel.{Kernel}
use mac_osx_vfs_redirector.VnodeMap.References.{get_vnode_io_ref-Accounted}

module _ {K : Type 0} (kernel : Kernel K) (mine : List Vnode) where
  equalize_sizes-Keeps :
      (original shadow : Vnode) → Keeps mine (equalize_sizes kernel original shadow) (λ _. mine)
  unfolding equalize_sizes
  equalize_sizes-Keeps original shadow = bind-Keeps (ask-Keeps mine _) (λ o.
      bind-Keeps (ask-Keeps mine _) (λ s.
        if-Keeps (not (o.0 == 0)) (λ _. pure-Keeps mine o.0)
          (λ _.
            if-Keeps (not (s.0 == 0)) (λ _. pure-Keeps mine s.0)
              (λ _.
                if-Keeps (not (s.1 == o.1)) (λ _. resize-Keeps kernel mine shadow o.1 super_user)
                  (λ _. pure-Keeps mine 0)))))

module _ {K : Type 0} {kernel : Kernel K} (fails : FailsEmpty kernel)
    (returns : ReturnsVnodes kernel) (mine : List Vnode) where
  pub pass_lookup-Keeps : (dvp : Vnode) → Keeps mine (pass_lookup kernel dvp) (λ r. r.1 ∷ mine)
  unfolding pass_lookup
  pass_lookup-Keeps dvp = bind-Keeps (recursion_cookie-Keeps kernel mine) (λ cookie.
      bind-Keeps (ask-Keeps mine _) (λ op.
        bind-Keeps
          (if-Keeps (not (cookie == null) && not (kernel.current_thread == cookie))
            (λ _. note-Keeps mine (name_op_set op) (λ v. (refl, refl))) (λ _. pure-Keeps mine tt))
          (λ _. original_call-Keeps returns mine Vnop.lookup dvp)))

  create_shadow_file-Keeps :
      (path : FilePath) (original : Vnode)
      → Keeps mine (create_shadow_file kernel path original) (λ r. r.1 ∷ mine)
  unfolding create_shadow_file
  create_shadow_file-Keeps path original = bind-Keeps (open_path-Keeps returns mine path) (λ r.
      if-Keeps (not (r.0 == 0)) (λ _. return-Keeps r (λ v x. refl))
        (λ _. bind-Keeps (get_vnode-Keeps (r.1 ∷ mine) r.1) (λ _.
          bind-Keeps (close_vnode-Keeps (r.1 ∷ mine) r.1) (λ _.
            bind-Keeps
              (if-Keeps (r.1 == original) (λ _. pure-Keeps (r.1 ∷ mine) 0)
                (λ _. equalize_sizes-Keeps kernel (r.1 ∷ mine) original r.1))
              (λ e. return-Keeps (e, r.1) (λ v x. refl))))))

  find_shadow_file-Keeps :
      (path : FilePath) (original : Vnode)
      → Keeps mine (find_shadow_file kernel path original) (λ r. r.0.1 ∷ mine)
  unfolding find_shadow_file
  find_shadow_file-Keeps path original =
      bind-Keeps_where ReturnsNone (lookup_path-ReturnsNone fails path super_user)
        (lookup_path-Keeps kernel mine fails path super_user)
        (λ found none_found.
          if-Keeps (found.0 == 0) (λ _. return-Keeps _ (λ v x. refl))
            (λ h.
              reorder-Keeps mine (λ v x. ground (arith, h, none_found))
                (bind-Keeps (create_shadow_file-Keeps path original)
                  (λ made. return-Keeps _ (λ v x. refl)))))

  pub shadow_section-Keeps :
      (path : FilePath) (original : Vnode)
      → original ≢ null
      → Keeps mine (shadow_section kernel path original) (λ r. r.0.1 ∷ mine)
  unfolding shadow_section
  shadow_section-Keeps path original real = bind-Keeps (enter_recursion-Keeps kernel mine _) (λ _.
      bind-Keeps (find_shadow_file-Keeps path original) (λ r.
        bind-Keeps
          (if-Keeps (r.0.0 == 0 && not (r.0.1 == original))
            (λ _. map_add_vnode_shadow_reverse-Keeps kernel (r.0.1 ∷ mine) r.0.1 original real)
            (λ _. pure-Keeps (r.0.1 ∷ mine) tt))
          (λ _.
            bind-Keeps (leave_recursion-Keeps kernel (r.0.1 ∷ mine))
              (λ _. return-Keeps r (λ v x. refl)))))

  cover_with_shadow-Keeps :
      (p : ℕ) (app : ApplicationData) (shadow : Vnode)
      → Keeps mine (cover_with_shadow kernel p app shadow) (λ v. v ∷ mine)
  unfolding cover_with_shadow
  cover_with_shadow-Keeps p app shadow =
      bind-Keeps (associate-Keeps kernel fails mine shadow app false) (λ _.
        bind-Keeps (from_maps-Keeps mine _ (λ s ok. get_vnode_io_ref-Accounted s ok shadow))
          (λ backing.
            if-Keeps (backing == null) (λ h. return-Keeps _ (λ v x. ground (arith, h)))
              (λ _. bind-Keeps (map_add_vnode_app_data-Keeps kernel (backing ∷ mine) shadow p) (λ _.
                bind-Keeps (put-Keeps mine backing) (λ _.
                  bind-Keeps (get_vnode-Keeps mine shadow) (λ _. return-Keeps _ (λ v x. refl)))))))

  pub offer_shadow_file-Keeps :
      (p : ℕ) (app : ApplicationData) (created : Bool) (shadow : Vnode)
      → Keeps mine (offer_shadow_file kernel p app created shadow) (λ v. v ∷ mine)
  unfolding offer_shadow_file
  offer_shadow_file-Keeps p app created shadow = bind-Keeps (malloc-Keeps kernel mine) (λ allocated.
      if-Keeps (not allocated) (λ _. return-Keeps _ (λ v x. ground arith))
        (λ _.
          bind-Keeps
            (if-Keeps created (λ _. request-Keeps kernel mine Opcode.lookup)
              (λ _. pure-Keeps mine tt))
            (λ _. cover_with_shadow-Keeps p app shadow)))
