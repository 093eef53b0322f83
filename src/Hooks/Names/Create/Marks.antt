-- ===== src/Hooks/Names/Create/Marks.antt =====
-- The recursion mark over a create (VFSHooks.cpp 1089-1327). The association of the shadow vnode leaves
-- the recursive section of the create early: the sections do not count.
use mac_osx_vfs_redirector.Applications.{ApplicationData, application_data_at, create_new}
use mac_osx_vfs_redirector.Base.{ℕ, ◌≢◌, false, not, ◌&&◌, ◌==◌}
use mac_osx_vfs_redirector.DataMap.{null}
use mac_osx_vfs_redirector.Event.{Vnode, FilePath, Vnop, Opcode, entry_barred}
use mac_osx_vfs_redirector.Hooks.Backing.Marks.{associate-Marks}
use mac_osx_vfs_redirector.Hooks.Exchange.Marks.{request-Marks}
use mac_osx_vfs_redirector.Hooks.Marks.{if_controlled-Marks}
use mac_osx_vfs_redirector.Hooks.Names.Create.{
  cover_created, shadow_created, replace_created, create_section, create_converted,
  controlled_create, create_hook,
}
use mac_osx_vfs_redirector.Hooks.Names.{ComponentName, Switches, enfile}
use mac_osx_vfs_redirector.Hooks.{enomem}
use mac_osx_vfs_redirector.Kernel.Marks.{
  Mark, unmarked, Marks, bind-Marks, if-Marks, pure-Marks, note-Marks, from_maps-Marks, put-Marks,
  malloc-Marks, application_by_context-Marks, audit-Marks, enter_recursion-Marks,
  leave_recursion-Marks, get_vnode-Marks, close_vnode-Marks, open_path-Marks,
  map_add_vnode_app_data-Marks, map_add_vnode_shadow_reverse-Marks,
}
use mac_osx_vfs_redirector.Kernel.{Kernel}
use mac_osx_vfs_redirector.Hooks.Names.Marks.{
  is_controlled_file-Marks, original_call-Marks, recursive_call-Marks,
}

module _ {K : Type 0} (kernel : Kernel K) (real : kernel.current_thread ≢ null) {p : Mark} where
  cover_created-Marks :
      (q : ℕ) (app : ApplicationData) (real_file shadow : Vnode)
      → Marks kernel p p (cover_created kernel q app real_file shadow)
  unfolding cover_created
  cover_created-Marks q app real_file shadow =
      bind-Marks (associate-Marks kernel real shadow app false) (λ _.
        bind-Marks (from_maps-Marks kernel _) (λ backing.
          if-Marks (backing == null) (pure-Marks kernel (enfile, null)) (
            bind-Marks (map_add_vnode_app_data-Marks kernel shadow q) (λ _.
              bind-Marks (put-Marks kernel backing) (λ _.
                bind-Marks (get_vnode-Marks kernel shadow) (λ _.
                  bind-Marks (map_add_vnode_shadow_reverse-Marks kernel shadow real_file)
                    (λ _. pure-Marks kernel (0, shadow))))))))

  shadow_created-Marks :
      (q : ℕ) (app : ApplicationData) (path : FilePath) (real_file : Vnode)
      → Marks kernel p p (shadow_created kernel q app path real_file)
  unfolding shadow_created
  shadow_created-Marks q app path real_file = bind-Marks (open_path-Marks kernel path) (λ opened.
      if-Marks (not (opened.0 == 0)) (pure-Marks kernel (opened.0, null)) (
        bind-Marks (request-Marks kernel Opcode.lookup) (λ _.
          bind-Marks (cover_created-Marks q app real_file opened.1)
            (λ r. bind-Marks (close_vnode-Marks kernel opened.1) (λ _. pure-Marks kernel r)))))

  replace_created-Marks :
      (q : ℕ) (app : ApplicationData) (path : FilePath) (vnode : Vnode)
      → Marks kernel p p (replace_created kernel q app path vnode)
  unfolding replace_created
  replace_created-Marks q app path vnode = bind-Marks (get_vnode-Marks kernel vnode) (λ _.
      bind-Marks (put-Marks kernel vnode) (λ _.
        bind-Marks (shadow_created-Marks q app path vnode)
          (λ r. bind-Marks (put-Marks kernel vnode) (λ _. pure-Marks kernel r))))

module _ {K : Type 0} (kernel : Kernel K) (real : kernel.current_thread ≢ null) {p : Mark} where
  create_section-Marks :
      (switches : Switches) (q : ℕ) (app : ApplicationData) (path : FilePath) (dvp : Vnode)
      → Marks kernel p p (create_section kernel switches q app path dvp)
  unfolding create_section
  create_section-Marks switches q app path dvp =
      bind-Marks (enter_recursion-Marks kernel real) (λ _.
        bind-Marks
          (if-Marks switches.synchronise_with_original (original_call-Marks kernel Vnop.create dvp)
            (pure-Marks kernel _))
          (λ r.
            bind-Marks
              (if-Marks (r.0 == 0 && not (r.1 == null))
                (replace_created-Marks kernel real q app path r.1) (pure-Marks kernel r))
              (λ done. bind-Marks (leave_recursion-Marks kernel) (λ _. pure-Marks kernel done))))

  create_converted-Marks :
      (switches : Switches) (q : ℕ) (app : ApplicationData) (dvp : Vnode) (cn : ComponentName)
      → Marks kernel p p (create_converted kernel switches q app dvp cn)
  unfolding create_converted
  create_converted-Marks switches q app dvp cn =
      bind-Marks
        (if-Marks switches.redirection_is_null_and_void
          (recursive_call-Marks kernel real Vnop.create dvp)
          (create_section-Marks switches q app _ dvp))
        (λ r.
          bind-Marks (if-Marks (r.0 == 0) (audit-Marks kernel Opcode.create) (pure-Marks kernel tt))
            (λ _. pure-Marks kernel r))

  controlled_create-Marks :
      (switches : Switches) (q : ℕ) (app : ApplicationData) (dvp : Vnode) (cn : ComponentName)
      → Marks kernel p p (controlled_create kernel switches q app dvp cn)
  unfolding controlled_create
  controlled_create-Marks switches q app dvp cn =
      bind-Marks (is_controlled_file-Marks kernel Opcode.create cn.path) (λ controlled.
        if-Marks (not controlled) (original_call-Marks kernel Vnop.create dvp) (
          bind-Marks (note-Marks kernel entry_barred) (λ _.
            bind-Marks (malloc-Marks kernel) (λ shadow_allocated.
              bind-Marks (if-Marks shadow_allocated (malloc-Marks kernel) (pure-Marks kernel false))
                (λ redirected_allocated.
                  if-Marks redirected_allocated (create_converted-Marks switches q app dvp cn)
                    (pure-Marks kernel (enomem, null)))))))

module _ {K : Type 0} (kernel : Kernel K) (real : kernel.current_thread ≢ null) where
  pub create-Marks :
      (switches : Switches) (dvp : Vnode) (cn : ComponentName)
      → Marks kernel unmarked unmarked (create_hook kernel switches dvp cn)
  unfolding create_hook
  create-Marks switches dvp cn = bind-Marks (application_by_context-Marks kernel create_new) (λ q.
      if_controlled-Marks kernel real (application_data_at q)
        (λ app. controlled_create-Marks kernel real switches q app dvp cn)
        (original_call-Marks kernel Vnop.create dvp))
