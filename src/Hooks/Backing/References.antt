-- ===== src/Hooks/Backing/References.antt =====
-- The references that finding a backing vnode takes (VFSHooks.cpp 289-410 and 1574-1662).
use mac_osx_vfs_redirector.Applications.{ApplicationData}
use mac_osx_vfs_redirector.Base.{arith, ℕ, ◌==◌, Bool, true, false, List, ◌∷◌, not, ◌||◌}
use mac_osx_vfs_redirector.DataMap.{null}
use mac_osx_vfs_redirector.Event.{Vnode, Opcode}
use mac_osx_vfs_redirector.Hooks.Backing.{
  is_regular, fill_upl, read_in_cache_from_backing_file, refresh_cache, look_up_redirected,
  look_up_backing_vnode, known_backing_vnode, get_backing_vnode_for_redirected_io,
  associate_vnode_for_redirected_io,
}
use mac_osx_vfs_redirector.Kernel.Accounts.{
  Keeps, FailsEmpty, pure-Keeps, ask-Keeps, step-Keeps, on_maps-Keeps, from_maps-Keeps, bind-Keeps,
  forget_null-Keeps, hand_over-Keeps, null-Keeps, put_unless_null-Keeps, if-Keeps, malloc-Keeps,
  enter_recursion-Keeps, leave_recursion-Keeps, lookup_path-Keeps, create_upl-Keeps,
  abort_upl_unless_null-Keeps, transfer-Keeps, map_add_vnode_io-Keeps,
}
use mac_osx_vfs_redirector.Kernel.{Kernel}
use mac_osx_vfs_redirector.VnodeMap.References.{
  remove_vnode_io-Accounted, get_vnode_io_ref-Accounted,
}

module _ {K : Type 0} (kernel : Kernel K) (mine : List Vnode) where
  pub fill_upl-Keeps :
      (op : Opcode) (io : Vnode) (offset size upl : ℕ)
      → Keeps mine (fill_upl kernel op io offset size upl) (λ _. mine)
  unfolding fill_upl
  fill_upl-Keeps op io offset size upl = bind-Keeps (step-Keeps mine _) (λ e.
      if-Keeps (e == 0) (λ _. transfer-Keeps kernel mine op io offset size)
        (λ _. pure-Keeps mine e))

  pub read_in_cache-Keeps :
      (vn io : Vnode) (offset size : ℕ)
      → Keeps mine (read_in_cache_from_backing_file kernel vn io offset size) (λ _. mine)
  unfolding read_in_cache_from_backing_file
  read_in_cache-Keeps vn io offset size =
      if-Keeps (size == 0) (λ _. pure-Keeps mine 0)
        (λ _. bind-Keeps (create_upl-Keeps kernel mine vn offset size _) (λ r.
          bind-Keeps
            (if-Keeps (r.0 == 0) (λ _. fill_upl-Keeps _ io offset size r.1)
              (λ _. pure-Keeps mine r.0))
            (λ e.
              bind-Keeps (abort_upl_unless_null-Keeps kernel mine r.1) (λ _. pure-Keeps mine e))))

  refresh_cache-Keeps : (vn io : Vnode) → Keeps mine (refresh_cache kernel vn io) (λ _. mine)
  unfolding refresh_cache
  refresh_cache-Keeps vn io = bind-Keeps (ask-Keeps mine _) (λ r.
      bind-Keeps (if-Keeps (r.0 == 0) (λ _. step-Keeps mine _) (λ _. pure-Keeps mine false))
        (λ resident.
          bind-Keeps
            (if-Keeps resident (λ _. read_in_cache-Keeps vn io 0 _) (λ _. pure-Keeps mine 0))
            (λ e. pure-Keeps mine tt)))

module _ {K : Type 0} (kernel : Kernel K) (fails : FailsEmpty kernel) (mine : List Vnode) where
  look_up_redirected-Keeps :
      (vn : Vnode) (redirected : List ℕ)
      → Keeps mine (look_up_redirected kernel vn redirected) (λ io. io ∷ mine)
  unfolding look_up_redirected
  look_up_redirected-Keeps vn redirected = bind-Keeps (enter_recursion-Keeps kernel mine _) (λ _.
      bind-Keeps (lookup_path-Keeps kernel mine fails redirected _) (λ found.
        bind-Keeps (leave_recursion-Keeps kernel _) (λ _.
          if-Keeps (not (found.0 == 0)) (λ _. hand_over-Keeps mine (found.1))
            (λ _. bind-Keeps (map_add_vnode_io-Keeps kernel _ vn (found.1)) (λ _.
              bind-Keeps (enter_recursion-Keeps kernel _ _) (λ _.
                bind-Keeps (refresh_cache-Keeps kernel _ vn (found.1)) (λ _.
                  bind-Keeps (leave_recursion-Keeps kernel _)
                    (λ _. hand_over-Keeps mine (found.1)))))))))

  look_up_backing_vnode-Keeps :
      (vn : Vnode) (app : ApplicationData)
      → Keeps mine (look_up_backing_vnode kernel vn app) (λ io. io ∷ mine)
  unfolding look_up_backing_vnode
  look_up_backing_vnode-Keeps vn app = bind-Keeps (malloc-Keeps kernel mine) (λ path_allocated.
      bind-Keeps (ask-Keeps mine _) (λ name.
        if-Keeps (not path_allocated || not (name.0 == 0)) (λ _. null-Keeps mine)
          (λ _. bind-Keeps (malloc-Keeps kernel mine) (λ redirected_allocated.
            if-Keeps redirected_allocated (λ _. look_up_redirected-Keeps vn _)
              (λ _. null-Keeps mine)))))

  known_backing_vnode-Keeps :
      (vn : Vnode) (force_update : Bool)
      → Keeps mine (known_backing_vnode kernel vn force_update) (λ io. io ∷ mine)
  unfolding known_backing_vnode
  known_backing_vnode-Keeps vn true =
      bind-Keeps (on_maps-Keeps mine _ (λ s ok. remove_vnode_io-Accounted s ok vn))
        (λ _. null-Keeps mine)
  known_backing_vnode-Keeps vn false =
      from_maps-Keeps mine _ (λ s ok. get_vnode_io_ref-Accounted s ok vn)

  -- The backing vnode that the redirector finds, in its map or by a lookup, comes with one reference,
  -- which is the caller's; every other reference that was taken on the way is owned by an entry.
  pub get_backing_vnode-Keeps :
      (vn : Vnode) (app : ApplicationData) (force_update : Bool)
      → Keeps mine
          (get_backing_vnode_for_redirected_io kernel vn app force_update)
          (λ io. io ∷ mine)
  unfolding get_backing_vnode_for_redirected_io
  get_backing_vnode-Keeps vn app force_update = bind-Keeps (ask-Keeps mine _) (λ type.
      bind-Keeps
        (if-Keeps (not (is_regular type) || not app.redirect_io) (λ _. null-Keeps mine)
          (λ _. known_backing_vnode-Keeps vn force_update))
        (λ known.
          if-Keeps (not (is_regular type) || not app.redirect_io || not (known == null))
            (λ _. hand_over-Keeps mine known)
            (λ h.
              forget_null-Keeps mine known (ground (arith, h))
                (look_up_backing_vnode-Keeps vn app))))

  pub associate-Keeps :
      (vn : Vnode) (app : ApplicationData) (force_update : Bool)
      → Keeps mine (associate_vnode_for_redirected_io kernel vn app force_update) (λ _. mine)
  unfolding associate_vnode_for_redirected_io
  associate-Keeps vn app force_update =
      bind-Keeps (get_backing_vnode-Keeps vn app force_update) (λ io. put_unless_null-Keeps mine io)
