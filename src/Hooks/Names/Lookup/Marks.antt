-- ===== src/Hooks/Names/Lookup/Marks.antt =====
-- The recursion mark over a lookup (VFSHooks.cpp 414-1071).
use mac_osx_vfs_redirector.Applications.{
  ApplicationData, application_data_at, create_new, open_existing,
}
use mac_osx_vfs_redirector.Base.{
  ℕ, ◌≢◌, Bool, true, false, not, ◌&&◌, ◌||◌, Option, none, some, ◌==◌, length,
}
use mac_osx_vfs_redirector.DataMap.{null}
use mac_osx_vfs_redirector.Event.{
  Vnode, FilePath, Vnop, Opcode, super_user, name_op_set, entry_barred,
}
use mac_osx_vfs_redirector.Hooks.Backing.Marks.{associate-Marks}
use mac_osx_vfs_redirector.Hooks.Backing.{is_regular}
use mac_osx_vfs_redirector.Hooks.Exchange.Marks.{request-Marks}
use mac_osx_vfs_redirector.Hooks.Exchange.{redirects_io}
use mac_osx_vfs_redirector.Hooks.Marks.{vnode_app_data-Marks, if_controlled-Marks}
use mac_osx_vfs_redirector.Hooks.Names.Lookup.{
  create_or_rename_or_delete, pass_lookup, equalize_sizes, create_shadow_file, find_shadow_file,
  shadow_section, cover_with_shadow, offer_shadow_file, shadow_stage, finished, redirect_io_stage,
  swap_to_redirected, synchronised_lookup, synchronised_redirection, redirect_path, redirect_lookup,
  controlled_lookup, lookup_hook,
}
use mac_osx_vfs_redirector.Hooks.Names.{ComponentName, Switches, ejustreturn, enoent}
use mac_osx_vfs_redirector.Hooks.{enomem}
use mac_osx_vfs_redirector.Kernel.Marks.{
  Mark, unmarked, Marks, bind-Marks, if-Marks, pure-Marks, ask-Marks, note-Marks, on_maps-Marks,
  from_maps-Marks, put-Marks, malloc-Marks, application_by_context-Marks, audit-Marks,
  lookup_path-Marks, enter_recursion-Marks, leave_recursion-Marks, recursion_cookie-Marks,
  get_vnode-Marks, close_vnode-Marks, open_path-Marks, map_add_vnode_app_data-Marks,
  map_add_vnode_shadow_reverse-Marks,
}
use mac_osx_vfs_redirector.Kernel.{Kernel, pure}
use mac_osx_vfs_redirector.Paths.{equal_ignoring_case}
use mac_osx_vfs_redirector.Hooks.Names.Marks.{
  resize-Marks, is_controlled_file-Marks, original_call-Marks, recursive_lookup-Marks,
  recursive_call-Marks,
}

module _ {K : Type 0} (kernel : Kernel K) {p : Mark} where
  pass_lookup-Marks : (dvp : Vnode) → Marks kernel p p (pass_lookup kernel dvp)
  unfolding pass_lookup
  pass_lookup-Marks dvp = bind-Marks (recursion_cookie-Marks kernel) (λ cookie.
      bind-Marks (ask-Marks kernel _) (λ op.
        bind-Marks
          (if-Marks (not (cookie == null) && not (kernel.current_thread == cookie))
            (note-Marks kernel (name_op_set op)) (pure-Marks kernel tt))
          (λ _. original_call-Marks kernel Vnop.lookup dvp)))

  equalize_sizes-Marks :
      (real_file shadow : Vnode) → Marks kernel p p (equalize_sizes kernel real_file shadow)
  unfolding equalize_sizes
  equalize_sizes-Marks real_file shadow = bind-Marks (ask-Marks kernel _) (λ o.
      bind-Marks (ask-Marks kernel _) (λ s. if-Marks (not (o.0 == 0)) (pure-Marks kernel o.0) (
        if-Marks (not (s.0 == 0)) (pure-Marks kernel s.0) (
          if-Marks (not (s.1 == o.1)) (resize-Marks kernel shadow o.1 super_user)
            (pure-Marks kernel 0)))))

  create_shadow_file-Marks :
      (path : FilePath) (real_file : Vnode)
      → Marks kernel p p (create_shadow_file kernel path real_file)
  unfolding create_shadow_file
  create_shadow_file-Marks path real_file = bind-Marks (open_path-Marks kernel path) (λ r.
      if-Marks (not (r.0 == 0)) (pure-Marks kernel r) (
        bind-Marks (get_vnode-Marks kernel r.1) (λ _.
          bind-Marks (close_vnode-Marks kernel r.1) (λ _.
            bind-Marks
              (if-Marks (r.1 == real_file) (pure-Marks kernel 0)
                (equalize_sizes-Marks real_file r.1))
              (λ e. pure-Marks kernel (e, r.1))))))

  find_shadow_file-Marks :
      (path : FilePath) (real_file : Vnode)
      → Marks kernel p p (find_shadow_file kernel path real_file)
  unfolding find_shadow_file
  find_shadow_file-Marks path real_file =
      bind-Marks (lookup_path-Marks kernel path super_user) (λ found.
        if-Marks (found.0 == 0) (pure-Marks kernel (found, false)) (
          bind-Marks (create_shadow_file-Marks path real_file)
            (λ made. pure-Marks kernel (made, true))))

module _ {K : Type 0} (kernel : Kernel K) (real : kernel.current_thread ≢ null) {p : Mark} where
  shadow_section-Marks :
      (path : FilePath) (real_file : Vnode)
      → Marks kernel p p (shadow_section kernel path real_file)
  unfolding shadow_section
  shadow_section-Marks path real_file = bind-Marks (enter_recursion-Marks kernel real) (λ _.
      bind-Marks (find_shadow_file-Marks kernel path real_file) (λ r.
        bind-Marks
          (if-Marks (r.0.0 == 0 && not (r.0.1 == real_file))
            (map_add_vnode_shadow_reverse-Marks kernel r.0.1 real_file) (pure-Marks kernel tt))
          (λ _. bind-Marks (leave_recursion-Marks kernel) (λ _. pure-Marks kernel r))))

  cover_with_shadow-Marks :
      (q : ℕ) (app : ApplicationData) (shadow : Vnode)
      → Marks kernel p p (cover_with_shadow kernel q app shadow)
  unfolding cover_with_shadow
  cover_with_shadow-Marks q app shadow =
      bind-Marks (associate-Marks kernel real shadow app false) (λ _.
        bind-Marks (from_maps-Marks kernel _) (λ backing.
          if-Marks (backing == null) (pure-Marks kernel null) (
            bind-Marks (map_add_vnode_app_data-Marks kernel shadow q) (λ _.
              bind-Marks (put-Marks kernel backing) (λ _.
                bind-Marks (get_vnode-Marks kernel shadow) (λ _. pure-Marks kernel shadow))))))

  offer_shadow_file-Marks :
      (q : ℕ) (app : ApplicationData) (created : Bool) (shadow : Vnode)
      → Marks kernel p p (offer_shadow_file kernel q app created shadow)
  unfolding offer_shadow_file
  offer_shadow_file-Marks q app created shadow = bind-Marks (malloc-Marks kernel) (λ allocated.
      if-Marks (not allocated) (pure-Marks kernel null) (
        bind-Marks (if-Marks created (request-Marks kernel Opcode.lookup) (pure-Marks kernel tt))
          (λ _. cover_with_shadow-Marks q app shadow)))

  shadow_stage-Marks :
      (q : ℕ) (app : ApplicationData) (path : FilePath) (vnode : Vnode)
      → Marks kernel p p (shadow_stage kernel q app path vnode)
  unfolding shadow_stage
  shadow_stage-Marks q app path vnode = bind-Marks (get_vnode-Marks kernel vnode) (λ _.
      bind-Marks (put-Marks kernel vnode) (λ _. bind-Marks (malloc-Marks kernel) (λ path_allocated.
        bind-Marks (if-Marks path_allocated (malloc-Marks kernel) (pure-Marks kernel false))
          (λ name_allocated. if-Marks (not name_allocated) (pure-Marks kernel _) (
            bind-Marks (shadow_section-Marks _ vnode) (λ r.
              bind-Marks
                (if-Marks (r.0.0 == 0) (offer_shadow_file-Marks q app r.1 r.0.1)
                  (pure-Marks kernel null))
                (λ v. pure-Marks kernel _)))))))

  redirect_io_stage-Marks :
      (q : ℕ) (app : ApplicationData) (dvp : Vnode) (cn : ComponentName)
      → Marks kernel p p (redirect_io_stage kernel q app dvp cn)
  unfolding redirect_io_stage
  redirect_io_stage-Marks q app dvp cn =
      bind-Marks (recursive_call-Marks kernel real Vnop.lookup dvp) (λ r.
        bind-Marks (vnode_app_data-Marks kernel r.1) (λ d. bind-Marks (ask-Marks kernel _) (λ type.
          if-Marks (not (r.0 == 0) || redirects_io (application_data_at d) || not (is_regular type))
            (pure-Marks kernel (finished r))
            (bind-Marks (is_controlled_file-Marks kernel Opcode.lookup cn.path) (λ controlled.
              if-Marks controlled (shadow_stage-Marks q app cn.path r.1)
                (pure-Marks kernel (finished r)))))))

  swap_to_redirected-Marks :
      (q : ℕ) (redirected : FilePath) (r : ℕ × Vnode)
      → Marks kernel p p (swap_to_redirected kernel q redirected r)
  unfolding swap_to_redirected
  swap_to_redirected-Marks q redirected r =
      bind-Marks (recursive_lookup-Marks kernel _ redirected super_user real) (λ found.
        if-Marks (not (found.0 == 0)) (pure-Marks kernel _) (
          if-Marks (found.1 == null) (pure-Marks kernel _) (
            bind-Marks (on_maps-Marks kernel _) (λ _.
              bind-Marks (map_add_vnode_app_data-Marks kernel found.1 q)
                (λ _. pure-Marks kernel (0, found.1))))))

  synchronised_lookup-Marks :
      (switches : Switches) (dvp : Vnode) (cn : ComponentName)
      → Marks kernel p p (synchronised_lookup kernel switches dvp cn)
  unfolding synchronised_lookup
  synchronised_lookup-Marks switches dvp cn = bind-Marks (enter_recursion-Marks kernel real) (λ _.
      bind-Marks
        (if-Marks switches.synchronise_with_original (original_call-Marks kernel Vnop.lookup dvp)
          (pure-Marks kernel _))
        (λ r. bind-Marks (leave_recursion-Marks kernel) (λ _. pure-Marks kernel r)))

  synchronised_redirection-Marks :
      (switches : Switches) (q : ℕ) (redirected : FilePath) (dvp : Vnode) (cn : ComponentName)
      → Marks kernel p p (synchronised_redirection kernel switches q redirected dvp cn)
  unfolding synchronised_redirection
  synchronised_redirection-Marks switches q redirected dvp cn =
      bind-Marks (synchronised_lookup-Marks switches dvp cn) (λ r.
        bind-Marks (ask-Marks kernel _) (λ type.
          if-Marks (r.0 == 0 && not (is_regular type)) (pure-Marks kernel r) (
            if-Marks
              (r.0 == 0
                || r.0 == ejustreturn && create_or_rename_or_delete cn.name_op
                || r.0 == enoent)
              (swap_to_redirected-Marks q redirected r) (pure-Marks kernel r))))

  redirect_path-Marks :
      (switches : Switches) (dvp : Vnode) (cn : ComponentName)
      → Marks kernel p p (redirect_path kernel switches dvp cn)
  unfolding redirect_path
  redirect_path-Marks switches dvp cn =
      bind-Marks (application_by_context-Marks kernel open_existing) (λ q.
        bind-Marks (note-Marks kernel entry_barred) (λ _.
          bind-Marks (malloc-Marks kernel) (λ allocated.
            if-Marks (not allocated) (pure-Marks kernel (enomem, null)) (
              bind-Marks (request-Marks kernel Opcode.lookup) (λ _.
                bind-Marks
                  (if-Marks switches.redirection_is_null_and_void
                    (recursive_call-Marks kernel real Vnop.lookup dvp)
                    (synchronised_redirection-Marks switches q _ dvp cn))
                  (λ r.
                    bind-Marks (audit-Marks kernel Opcode.lookup) (λ _. pure-Marks kernel r)))))))

  result_or-Marks :
      (switches : Switches) (dvp : Vnode) (cn : ComponentName) (o : Option (ℕ × Vnode))
      → Marks kernel p p (elim o [ some r ↦ pure r | none ↦ redirect_path kernel switches dvp cn ])
  result_or-Marks switches dvp cn (some r) = pure-Marks kernel r
  result_or-Marks switches dvp cn none = redirect_path-Marks switches dvp cn

  -- the rest of a lookup
  redirect_lookup-Marks :
      (switches : Switches) (q : ℕ) (app : ApplicationData) (dvp : Vnode) (cn : ComponentName)
      → Marks kernel p p (redirect_lookup kernel switches q app dvp cn)
  unfolding redirect_lookup
  redirect_lookup-Marks switches q app dvp cn =
      bind-Marks
        (if-Marks app.redirect_io (redirect_io_stage-Marks q app dvp cn) (pure-Marks kernel _))
        (λ s. bind-Marks (result_or-Marks switches dvp cn s.result) (λ r.
          bind-Marks (on_maps-Marks kernel _)
            (λ _. bind-Marks (on_maps-Marks kernel _) (λ _. pure-Marks kernel r))))

  controlled_lookup-Marks :
      (switches : Switches) (q : ℕ) (app : ApplicationData) (dvp : Vnode) (cn : ComponentName)
      → Marks kernel p p (controlled_lookup kernel switches q app dvp cn)
  unfolding controlled_lookup
  controlled_lookup-Marks switches q app dvp cn =
      if-Marks (equal_ignoring_case (length app.redirect_to) cn.path app.redirect_to)
        (original_call-Marks kernel Vnop.lookup dvp) (redirect_lookup-Marks switches q app dvp cn)

module _ {K : Type 0} (kernel : Kernel K) (real : kernel.current_thread ≢ null) where
  pub lookup-Marks :
      (switches : Switches) (dvp : Vnode) (cn : ComponentName)
      → Marks kernel unmarked unmarked (lookup_hook kernel switches dvp cn)
  unfolding lookup_hook
  lookup-Marks switches dvp cn = bind-Marks (application_by_context-Marks kernel create_new) (λ q.
      if_controlled-Marks kernel real (application_data_at q)
        (λ app. controlled_lookup-Marks kernel real switches q app dvp cn)
        (pass_lookup-Marks kernel dvp))
