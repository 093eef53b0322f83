-- ===== src/Hooks/Backing/Silence.antt =====
-- The vnode operations that are called while a backing vnode is found (VFSHooks.cpp 289-393).
use mac_osx_vfs_redirector.Applications.{ApplicationData}
use mac_osx_vfs_redirector.Base.{arith, ℕ, ◌==◌, ◌||◌, Bool, true, false, List, not}
use mac_osx_vfs_redirector.DataMap.{null}
use mac_osx_vfs_redirector.Event.{Vnode, Opcode}
use mac_osx_vfs_redirector.Hooks.Backing.{
  is_regular, fill_upl, read_in_cache_from_backing_file, refresh_cache, look_up_redirected,
  look_up_backing_vnode, known_backing_vnode, get_backing_vnode_for_redirected_io,
}
use mac_osx_vfs_redirector.Kernel.Quiet.{
  operations, Quiet, pure-Quiet, ask-Quiet, step-Quiet, on_maps-Quiet, from_maps-Quiet, bind-Quiet,
  if-Quiet, malloc-Quiet, enter_recursion-Quiet, leave_recursion-Quiet, lookup_path-Quiet,
  create_upl-Quiet, abort_upl_unless_null-Quiet, transfer-Quiet, map_add_vnode_io-Quiet,
}
use mac_osx_vfs_redirector.Kernel.{Kernel}
use mac_osx_vfs_redirector.VnodeMap.{remove_vnode_io, get_vnode_io_ref}

module _ {K : Type 0} (kernel : Kernel K) where
  fill_upl-Quiet :
      (op : Opcode) (io : Vnode) (offset size upl : ℕ)
      → Quiet (fill_upl kernel op io offset size upl)
  unfolding fill_upl
  fill_upl-Quiet op io offset size upl =
      bind-Quiet (step-Quiet _)
        (λ e. if-Quiet (e == 0) (transfer-Quiet kernel op io offset size) (pure-Quiet e))

  read_in_cache-Quiet :
      (vn io : Vnode) (offset size : ℕ)
      → Quiet (read_in_cache_from_backing_file kernel vn io offset size)
  unfolding read_in_cache_from_backing_file
  read_in_cache-Quiet vn io offset size = if-Quiet (size == 0) (pure-Quiet 0) (
      bind-Quiet (create_upl-Quiet kernel vn offset size _) (λ r.
        bind-Quiet (if-Quiet (r.0 == 0) (fill_upl-Quiet _ io offset size r.1) (pure-Quiet r.0))
          (λ e. bind-Quiet (abort_upl_unless_null-Quiet kernel r.1) (λ _. pure-Quiet e))))

  refresh_cache-Quiet : (vn io : Vnode) → Quiet (refresh_cache kernel vn io)
  unfolding refresh_cache
  refresh_cache-Quiet vn io = bind-Quiet (ask-Quiet _) (λ r.
      bind-Quiet (if-Quiet (r.0 == 0) (step-Quiet _) (pure-Quiet false)) (λ resident.
        bind-Quiet (if-Quiet resident (read_in_cache-Quiet vn io 0 _) (pure-Quiet 0))
          (λ _. pure-Quiet tt)))

  look_up_redirected-Quiet :
      (vn : Vnode) (redirected : List ℕ) → Quiet (look_up_redirected kernel vn redirected)
  unfolding look_up_redirected
  look_up_redirected-Quiet vn redirected = bind-Quiet (enter_recursion-Quiet kernel _) (λ _.
      bind-Quiet (lookup_path-Quiet kernel redirected _) (λ found.
        bind-Quiet (leave_recursion-Quiet kernel) (λ _.
          if-Quiet (not (found.0 == 0)) (pure-Quiet found.1) (
            bind-Quiet (map_add_vnode_io-Quiet kernel vn found.1) (λ _.
              bind-Quiet (enter_recursion-Quiet kernel _) (λ _.
                bind-Quiet (refresh_cache-Quiet vn found.1)
                  (λ _. bind-Quiet (leave_recursion-Quiet kernel) (λ _. pure-Quiet found.1))))))))

  look_up_backing_vnode-Quiet :
      (vn : Vnode) (app : ApplicationData) → Quiet (look_up_backing_vnode kernel vn app)
  unfolding look_up_backing_vnode
  look_up_backing_vnode-Quiet vn app = bind-Quiet (malloc-Quiet kernel) (λ path_allocated.
      bind-Quiet (ask-Quiet _) (λ name.
        if-Quiet (not path_allocated || not (name.0 == 0)) (pure-Quiet null) (
          bind-Quiet (malloc-Quiet kernel) (λ redirected_allocated.
            if-Quiet redirected_allocated (look_up_redirected-Quiet vn _) (pure-Quiet null)))))

  known_backing_vnode-Quiet :
      (vn : Vnode) (force_update : Bool) → Quiet (known_backing_vnode kernel vn force_update)
  unfolding known_backing_vnode remove_vnode_io get_vnode_io_ref operations
  known_backing_vnode-Quiet vn true =
      bind-Quiet (on_maps-Quiet (remove_vnode_io vn) (λ s. ground arith)) (λ _. pure-Quiet null)
  known_backing_vnode-Quiet vn false = from_maps-Quiet (get_vnode_io_ref vn) (λ s. ground arith)

  pub get_backing_vnode-Quiet :
      (vn : Vnode) (app : ApplicationData) (force_update : Bool)
      → Quiet (get_backing_vnode_for_redirected_io kernel vn app force_update)
  unfolding get_backing_vnode_for_redirected_io
  get_backing_vnode-Quiet vn app force_update = bind-Quiet (ask-Quiet _) (λ type.
      bind-Quiet
        (if-Quiet (not (is_regular type) || not app.redirect_io) (pure-Quiet null)
          (known_backing_vnode-Quiet vn force_update))
        (λ known.
          if-Quiet (not (is_regular type) || not app.redirect_io || not (known == null))
            (pure-Quiet known) (look_up_backing_vnode-Quiet vn app)))
