-- ===== src/Hooks/Backing/Marks.antt =====
-- The recursion mark while a backing vnode is found (VFSHooks.cpp 289-410).
use mac_osx_vfs_redirector.Applications.{ApplicationData}
use mac_osx_vfs_redirector.Base.{◌≢◌, ℕ, ◌==◌, Bool, true, false, List, not, ◌||◌}
use mac_osx_vfs_redirector.DataMap.{null}
use mac_osx_vfs_redirector.Event.{Vnode, Opcode}
use mac_osx_vfs_redirector.Hooks.Backing.{
  is_regular, fill_upl, read_in_cache_from_backing_file, refresh_cache, look_up_redirected,
  look_up_backing_vnode, known_backing_vnode, get_backing_vnode_for_redirected_io,
  associate_vnode_for_redirected_io,
}
use mac_osx_vfs_redirector.Kernel.{Kernel}
use mac_osx_vfs_redirector.Kernel.Marks.{
  Mark, Marks, bind-Marks, if-Marks, pure-Marks, ask-Marks, step-Marks, on_maps-Marks,
  from_maps-Marks, malloc-Marks, lookup_path-Marks, create_upl-Marks, abort_upl_unless_null-Marks,
  transfer-Marks, map_add_vnode_io-Marks, enter_recursion-Marks, leave_recursion-Marks,
}

module _ {K : Type 0} (kernel : Kernel K) {p : Mark} where
  pub fill_upl-Marks :
      (op : Opcode) (io : Vnode) (offset size upl : ℕ)
      → Marks kernel p p (fill_upl kernel op io offset size upl)
  unfolding fill_upl
  fill_upl-Marks op io offset size upl =
      bind-Marks (step-Marks kernel _)
        (λ e. if-Marks (e == 0) (transfer-Marks kernel op io offset size) (pure-Marks kernel e))

  pub read_in_cache-Marks :
      (vn io : Vnode) (offset size : ℕ)
      → Marks kernel p p (read_in_cache_from_backing_file kernel vn io offset size)
  unfolding read_in_cache_from_backing_file
  read_in_cache-Marks vn io offset size = if-Marks (size == 0) (pure-Marks kernel 0) (
      bind-Marks (create_upl-Marks kernel vn offset size _) (λ r.
        bind-Marks
          (if-Marks (r.0 == 0) (fill_upl-Marks _ io offset size r.1) (pure-Marks kernel r.0))
          (λ e. bind-Marks (abort_upl_unless_null-Marks kernel r.1) (λ _. pure-Marks kernel e))))

  refresh_cache-Marks : (vn io : Vnode) → Marks kernel p p (refresh_cache kernel vn io)
  unfolding refresh_cache
  refresh_cache-Marks vn io = bind-Marks (ask-Marks kernel _) (λ r.
      bind-Marks (if-Marks (r.0 == 0) (step-Marks kernel _) (pure-Marks kernel false)) (λ resident.
        bind-Marks (if-Marks resident (read_in_cache-Marks vn io 0 _) (pure-Marks kernel 0))
          (λ e. pure-Marks kernel tt)))

module _ {K : Type 0} (kernel : Kernel K) (real : kernel.current_thread ≢ null) {p : Mark} where
  look_up_redirected-Marks :
      (vn : Vnode) (redirected : List ℕ)
      → Marks kernel p p (look_up_redirected kernel vn redirected)
  unfolding look_up_redirected
  look_up_redirected-Marks vn redirected = bind-Marks (enter_recursion-Marks kernel real) (λ _.
      bind-Marks (lookup_path-Marks kernel redirected _) (λ found.
        bind-Marks (leave_recursion-Marks kernel) (λ _.
          if-Marks (not (found.0 == 0)) (pure-Marks kernel (found.1)) (
            bind-Marks (map_add_vnode_io-Marks kernel vn (found.1)) (λ _.
              bind-Marks (enter_recursion-Marks kernel real) (λ _.
                bind-Marks (refresh_cache-Marks kernel vn (found.1)) (λ _.
                  bind-Marks (leave_recursion-Marks kernel)
                    (λ _. pure-Marks kernel (found.1)))))))))

  look_up_backing_vnode-Marks :
      (vn : Vnode) (app : ApplicationData) → Marks kernel p p (look_up_backing_vnode kernel vn app)
  unfolding look_up_backing_vnode
  look_up_backing_vnode-Marks vn app = bind-Marks (malloc-Marks kernel) (λ path_allocated.
      bind-Marks (ask-Marks kernel _) (λ name.
        if-Marks (not path_allocated || not (name.0 == 0)) (pure-Marks kernel null) (
          bind-Marks (malloc-Marks kernel) (λ redirected_allocated.
            if-Marks redirected_allocated (look_up_redirected-Marks vn _)
              (pure-Marks kernel null)))))

  known_backing_vnode-Marks :
      (vn : Vnode) (force_update : Bool)
      → Marks kernel p p (known_backing_vnode kernel vn force_update)
  unfolding known_backing_vnode
  known_backing_vnode-Marks vn true =
      bind-Marks (on_maps-Marks kernel _) (λ _. pure-Marks kernel null)
  known_backing_vnode-Marks vn false = from_maps-Marks kernel _

  pub get_backing_vnode-Marks :
      (vn : Vnode) (app : ApplicationData) (force_update : Bool)
      → Marks kernel p p (get_backing_vnode_for_redirected_io kernel vn app force_update)
  unfolding get_backing_vnode_for_redirected_io
  get_backing_vnode-Marks vn app force_update = bind-Marks (ask-Marks kernel _) (λ type.
      bind-Marks
        (if-Marks (not (is_regular type) || not app.redirect_io) (pure-Marks kernel null)
          (known_backing_vnode-Marks vn force_update))
        (λ known.
          if-Marks (not (is_regular type) || not app.redirect_io || not (known == null))
            (pure-Marks kernel known) ((look_up_backing_vnode-Marks vn app))))

  pub associate-Marks :
      (vn : Vnode) (app : ApplicationData) (force_update : Bool)
      → Marks kernel p p (associate_vnode_for_redirected_io kernel vn app force_update)
  unfolding associate_vnode_for_redirected_io
  associate-Marks vn app force_update =
      bind-Marks (get_backing_vnode-Marks vn app force_update) (λ io. on_maps-Marks kernel _)
