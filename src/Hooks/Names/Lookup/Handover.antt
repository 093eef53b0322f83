-- ===== src/Hooks/Names/Lookup/Handover.antt =====
-- The reference that a lookup hands over with its result (VFSHooks.cpp, QvrVnopLookupHookEx2).
use mac_osx_vfs_redirector.Applications.{
  ApplicationData, application_data_at, create_new, open_existing,
}
use mac_osx_vfs_redirector.Base.{
  length, ℕ, ◌≢◌, refl, List, ◌∷◌, arith, not, ◌&&◌, ◌||◌, ◌==◌, false, Option, none, some,
}
use mac_osx_vfs_redirector.DataMap.{null}
use mac_osx_vfs_redirector.Event.{Vnode, FilePath, Vnop, Opcode, entry_barred, super_user}
use mac_osx_vfs_redirector.Hooks.Backing.{is_regular}
use mac_osx_vfs_redirector.Hooks.Exchange.{redirects_io}
use mac_osx_vfs_redirector.Hooks.Exchange.References.{request-Keeps}
use mac_osx_vfs_redirector.Hooks.Names.Accounts.{
  weaken-Keeps, ReturnsVnodes, ReturnsNone, Finds, reorder-Keeps, return-Keeps, bind-Keeps_where,
  get_vnode-Keeps, is_controlled_file-Keeps, map_add_vnode_app_data-Keeps, original_call-Keeps,
  recursive_call-Keeps, recursive_lookup-Keeps, recursive_lookup-ReturnsNone, recursive_call-Finds,
}
use mac_osx_vfs_redirector.Hooks.Names.Lookup.{
  create_or_rename_or_delete, Stage, vnode_of, shadow_stage, redirect_io_stage, swap_to_redirected,
  synchronised_lookup, synchronised_redirection, redirect_path, redirect_lookup, controlled_lookup,
  lookup_hook,
}
use mac_osx_vfs_redirector.Hooks.Names.{ComponentName, Switches, ejustreturn, enoent}
use mac_osx_vfs_redirector.Hooks.References.{if_controlled-Keeps, vnode_app_data-Keeps}
use mac_osx_vfs_redirector.Kernel.Accounts.{
  Keeps, FailsEmpty, pure-Keeps, ask-Keeps, note-Keeps, bind-Keeps, if-Keeps, put-Keeps,
  put_unless_null-Keeps, malloc-Keeps, audit-Keeps, enter_recursion-Keeps, leave_recursion-Keeps,
  application_by_context-Keeps,
}
use mac_osx_vfs_redirector.Kernel.{Kernel, pure}
use mac_osx_vfs_redirector.Paths.{equal_ignoring_case}
use mac_osx_vfs_redirector.Hooks.Names.Lookup.References.{
  pass_lookup-Keeps, shadow_section-Keeps, offer_shadow_file-Keeps,
}

-- The references of a stage
abbrev staged : List Vnode → Stage → List Vnode
staged mine s = s.shadow_vnode ∷ s.original_vnode ∷ vnode_of s.result ∷ mine

module _ {K : Type 0} {kernel : Kernel K} (fails : FailsEmpty kernel)
    (returns : ReturnsVnodes kernel) (mine : List Vnode) where
  shadow_stage-Keeps :
      (p : ℕ) (app : ApplicationData) (path : FilePath) (vnode : Vnode)
      → vnode ≢ null
      → Keeps (vnode ∷ mine) (shadow_stage kernel p app path vnode) (staged mine)
  unfolding shadow_stage
  shadow_stage-Keeps p app path vnode real = bind-Keeps (get_vnode-Keeps (vnode ∷ mine) vnode) (λ _.
      bind-Keeps (put-Keeps (vnode ∷ mine) vnode) (λ _.
        bind-Keeps (malloc-Keeps kernel (vnode ∷ mine)) (λ path_allocated.
          bind-Keeps
            (if-Keeps path_allocated (λ _. malloc-Keeps kernel (vnode ∷ mine))
              (λ _. pure-Keeps (vnode ∷ mine) false))
            (λ name_allocated.
              if-Keeps (not name_allocated) (λ _. return-Keeps _ (λ v x. ground arith))
                (λ _.
                  bind-Keeps (shadow_section-Keeps fails returns (vnode ∷ mine) _ vnode real) (λ r.
                    bind-Keeps {mid = λ v. v ∷ r.0.1 ∷ vnode ∷ mine}
                      (if-Keeps (r.0.0 == 0)
                        (λ _.
                          offer_shadow_file-Keeps fails returns (r.0.1 ∷ vnode ∷ mine) p app r.1
                            r.0.1)
                        (λ _. return-Keeps _ (λ v x. ground arith)))
                      (λ v. return-Keeps _ (λ u x. ground arith))))))))

  redirect_io_stage-Keeps :
      (p : ℕ) (app : ApplicationData) (dvp : Vnode) (cn : ComponentName)
      → Keeps mine (redirect_io_stage kernel p app dvp cn) (staged mine)
  unfolding redirect_io_stage
  redirect_io_stage-Keeps p app dvp cn =
      bind-Keeps_where Finds (recursive_call-Finds returns dvp)
        (recursive_call-Keeps returns mine Vnop.lookup dvp)
        (λ r finds. bind-Keeps (vnode_app_data-Keeps kernel (r.1 ∷ mine) r.1) (λ q.
          bind-Keeps (ask-Keeps (r.1 ∷ mine) _) (λ type.
            if-Keeps
              (not (r.0 == 0) || redirects_io (application_data_at q) || not (is_regular type))
              (λ _. return-Keeps _ (λ v x. ground arith))
              (λ h.
                bind-Keeps (is_controlled_file-Keeps kernel (r.1 ∷ mine) Opcode.lookup cn.path)
                  (λ controlled.
                    if-Keeps controlled
                      (λ _. shadow_stage-Keeps p app cn.path r.1 (finds (ground (arith, h))))
                      (λ _. return-Keeps _ (λ v x. ground arith)))))))

  swap_to_redirected-Keeps :
      (p : ℕ) (redirected : FilePath) (r : ℕ × Vnode)
      → Keeps (r.1 ∷ mine) (swap_to_redirected kernel p redirected r) (λ q. q.1 ∷ mine)
  unfolding swap_to_redirected
  swap_to_redirected-Keeps p redirected r =
      bind-Keeps_where ReturnsNone (recursive_lookup-ReturnsNone fails _ redirected super_user)
        (recursive_lookup-Keeps fails (r.1 ∷ mine) _ redirected super_user)
        (λ found none_found.
          if-Keeps (not (found.0 == 0)) (λ h. return-Keeps _ (λ v x. ground (arith, h, none_found)))
            (λ _.
              if-Keeps (found.1 == null) (λ h. return-Keeps _ (λ v x. ground (arith, h)))
                (λ _.
                  reorder-Keeps (r.1 ∷ found.1 ∷ mine) (λ v x. omega arith)
                    (bind-Keeps (put_unless_null-Keeps (found.1 ∷ mine) r.1) (λ _.
                      bind-Keeps (map_add_vnode_app_data-Keeps kernel (found.1 ∷ mine) found.1 p)
                        (λ _. return-Keeps _ (λ v x. refl)))))))

  synchronised_lookup-Keeps :
      (switches : Switches) (dvp : Vnode) (cn : ComponentName)
      → Keeps mine (synchronised_lookup kernel switches dvp cn) (λ r. r.1 ∷ mine)
  unfolding synchronised_lookup
  synchronised_lookup-Keeps switches dvp cn = bind-Keeps (enter_recursion-Keeps kernel mine _) (λ _.
      bind-Keeps {mid = λ r. r.1 ∷ mine}
        (if-Keeps switches.synchronise_with_original
          (λ _. original_call-Keeps returns mine Vnop.lookup dvp)
          (λ _. return-Keeps _ (λ v x. ground arith)))
        (λ r.
          bind-Keeps (leave_recursion-Keeps kernel (r.1 ∷ mine))
            (λ _. return-Keeps r (λ v x. refl))))

  synchronised_redirection-Keeps :
      (switches : Switches) (p : ℕ) (redirected : FilePath) (dvp : Vnode) (cn : ComponentName)
      → Keeps mine (synchronised_redirection kernel switches p redirected dvp cn) (λ r. r.1 ∷ mine)
  unfolding synchronised_redirection
  synchronised_redirection-Keeps switches p redirected dvp cn =
      bind-Keeps (synchronised_lookup-Keeps switches dvp cn) (λ r.
        bind-Keeps (ask-Keeps (r.1 ∷ mine) _) (λ type.
          if-Keeps (r.0 == 0 && not (is_regular type)) (λ _. return-Keeps r (λ v x. refl))
            (λ _.
              if-Keeps
                (r.0 == 0
                  || r.0 == ejustreturn && create_or_rename_or_delete cn.name_op
                  || r.0 == enoent)
                (λ _. swap_to_redirected-Keeps p redirected r)
                (λ _. return-Keeps r (λ v x. refl)))))

  redirect_path-Keeps :
      (switches : Switches) (dvp : Vnode) (cn : ComponentName)
      → Keeps mine (redirect_path kernel switches dvp cn) (λ r. r.1 ∷ mine)
  unfolding redirect_path
  redirect_path-Keeps switches dvp cn =
      bind-Keeps (application_by_context-Keeps kernel mine open_existing) (λ p.
        bind-Keeps (note-Keeps mine entry_barred (λ v. (refl, refl))) (λ _.
          bind-Keeps (malloc-Keeps kernel mine) (λ allocated.
            if-Keeps (not allocated) (λ _. return-Keeps _ (λ v x. ground arith))
              (λ _. bind-Keeps (request-Keeps kernel mine Opcode.lookup) (λ _.
                bind-Keeps {mid = λ r. r.1 ∷ mine}
                  (if-Keeps switches.redirection_is_null_and_void
                    (λ _. recursive_call-Keeps returns mine Vnop.lookup dvp)
                    (λ _. synchronised_redirection-Keeps switches p _ dvp cn))
                  (λ r.
                    bind-Keeps (audit-Keeps kernel (r.1 ∷ mine) Opcode.lookup)
                      (λ _. return-Keeps r (λ v x. refl))))))))

module _ {K : Type 0} {kernel : Kernel K} (fails : FailsEmpty kernel)
    (returns : ReturnsVnodes kernel) (mine : List Vnode) where
  -- The result of the stage, or else that of the path redirection
  result_or-Keeps :
      (switches : Switches) (dvp : Vnode) (cn : ComponentName) (shadow original : Vnode)
      (o : Option (ℕ × Vnode))
      → Keeps
          (shadow ∷ original ∷ vnode_of o ∷ mine)
          (elim o [ some r ↦ pure r | none ↦ redirect_path kernel switches dvp cn ])
          (λ r. shadow ∷ original ∷ r.1 ∷ mine)
  result_or-Keeps switches dvp cn shadow original (some r) = return-Keeps r (λ v x. refl)
  result_or-Keeps switches dvp cn shadow original none =
      reorder-Keeps (shadow ∷ original ∷ mine) (λ v x. ground arith)
        (weaken-Keeps (redirect_path-Keeps fails returns (shadow ∷ original ∷ mine) switches dvp cn)
          (λ r v x. omega arith))

  redirect_lookup-Keeps :
      (switches : Switches) (p : ℕ) (app : ApplicationData) (dvp : Vnode) (cn : ComponentName)
      → Keeps mine (redirect_lookup kernel switches p app dvp cn) (λ r. r.1 ∷ mine)
  unfolding redirect_lookup
  redirect_lookup-Keeps switches p app dvp cn =
      bind-Keeps {mid = staged mine}
        (if-Keeps app.redirect_io (λ _. redirect_io_stage-Keeps fails returns mine p app dvp cn)
          (λ _. return-Keeps _ (λ v x. ground arith)))
        (λ s.
          bind-Keeps (result_or-Keeps switches dvp cn s.shadow_vnode s.original_vnode s.result)
            (λ r.
              bind-Keeps (put_unless_null-Keeps (s.original_vnode ∷ r.1 ∷ mine) s.shadow_vnode)
                (λ _.
                  bind-Keeps (put_unless_null-Keeps (r.1 ∷ mine) s.original_vnode)
                    (λ _. return-Keeps r (λ v x. refl)))))

  controlled_lookup-Keeps :
      (switches : Switches) (p : ℕ) (app : ApplicationData) (dvp : Vnode) (cn : ComponentName)
      → Keeps mine (controlled_lookup kernel switches p app dvp cn) (λ r. r.1 ∷ mine)
  unfolding controlled_lookup
  controlled_lookup-Keeps switches p app dvp cn =
      if-Keeps (equal_ignoring_case (length app.redirect_to) cn.path app.redirect_to)
        (λ _. original_call-Keeps returns mine Vnop.lookup dvp)
        (λ _. redirect_lookup-Keeps switches p app dvp cn)

  -- A lookup hands the reference of the vnode that it returns to its caller, and keeps the account of
  -- all others.
  pub lookup-Keeps :
      (switches : Switches) (dvp : Vnode) (cn : ComponentName)
      → Keeps mine (lookup_hook kernel switches dvp cn) (λ r. r.1 ∷ mine)
  unfolding lookup_hook
  lookup-Keeps switches dvp cn =
      bind-Keeps (application_by_context-Keeps kernel mine create_new) (λ p.
        if_controlled-Keeps kernel mine (application_data_at p)
          (λ app. controlled_lookup-Keeps switches p app dvp cn)
          (pass_lookup-Keeps fails returns mine dvp))
