-- ===== src/Hooks/Names/Create/References.antt =====
-- The references that a create takes (VFSHooks.cpp, QvrVnopCreateHookEx2).
use mac_osx_vfs_redirector.Applications.{ApplicationData, application_data_at, create_new}
use mac_osx_vfs_redirector.Base.{ℕ, ◌≢◌, refl, List, ◌∷◌, arith, not, ◌&&◌, ◌==◌, false}
use mac_osx_vfs_redirector.DataMap.{null}
use mac_osx_vfs_redirector.Event.{Vnode, FilePath, Vnop, Opcode, entry_barred}
use mac_osx_vfs_redirector.Hooks.Backing.References.{associate-Keeps}
use mac_osx_vfs_redirector.Hooks.Exchange.References.{request-Keeps}
use mac_osx_vfs_redirector.Hooks.Names.Accounts.{
  ReturnsVnodes, ReturnsNone, reorder-Keeps, return-Keeps, bind-Keeps_where, get_vnode-Keeps,
  close_vnode-Keeps, is_controlled_file-Keeps, map_add_vnode_app_data-Keeps,
  map_add_vnode_shadow_reverse-Keeps, open_path-Keeps, original_call-Keeps, recursive_call-Keeps,
  open_path-ReturnsNone,
}
use mac_osx_vfs_redirector.Hooks.Names.Create.{
  cover_created, shadow_created, replace_created, create_section, create_converted,
  controlled_create, create_hook,
}
use mac_osx_vfs_redirector.Hooks.Names.{ComponentName, Switches}
use mac_osx_vfs_redirector.Hooks.References.{if_controlled-Keeps}
use mac_osx_vfs_redirector.Kernel.Accounts.{
  Keeps, FailsEmpty, pure-Keeps, note-Keeps, from_maps-Keeps, bind-Keeps, if-Keeps, put-Keeps,
  malloc-Keeps, audit-Keeps, enter_recursion-Keeps, leave_recursion-Keeps,
  application_by_context-Keeps,
}
use mac_osx_vfs_redirector.Kernel.{Kernel}
use mac_osx_vfs_redirector.VnodeMap.References.{get_vnode_io_ref-Accounted}

module _ {K : Type 0} {kernel : Kernel K} (fails : FailsEmpty kernel)
    (returns : ReturnsVnodes kernel) (mine : List Vnode) where
  cover_created-Keeps :
      (p : ℕ) (app : ApplicationData) (original shadow : Vnode)
      → original ≢ null
      → Keeps mine (cover_created kernel p app original shadow) (λ r. r.1 ∷ mine)
  unfolding cover_created
  cover_created-Keeps p app original shadow real =
      bind-Keeps (associate-Keeps kernel fails mine shadow app false) (λ _.
        bind-Keeps (from_maps-Keeps mine _ (λ s ok. get_vnode_io_ref-Accounted s ok shadow))
          (λ backing.
            if-Keeps (backing == null) (λ h. return-Keeps _ (λ v x. ground (arith, h)))
              (λ _. bind-Keeps (map_add_vnode_app_data-Keeps kernel (backing ∷ mine) shadow p) (λ _.
                bind-Keeps (put-Keeps mine backing) (λ _.
                  bind-Keeps (get_vnode-Keeps mine shadow) (λ _.
                    bind-Keeps
                      (map_add_vnode_shadow_reverse-Keeps kernel (shadow ∷ mine) shadow original
                        real)
                      (λ _. return-Keeps _ (λ v x. refl))))))))

module _ {K : Type 0} {kernel : Kernel K} (fails : FailsEmpty kernel)
    (returns : ReturnsVnodes kernel) (mine : List Vnode) where
  shadow_created-Keeps :
      (p : ℕ) (app : ApplicationData) (path : FilePath) (original : Vnode)
      → original ≢ null
      → Keeps mine (shadow_created kernel p app path original) (λ r. r.1 ∷ mine)
  unfolding shadow_created
  shadow_created-Keeps p app path original real =
      bind-Keeps_where ReturnsNone (open_path-ReturnsNone returns path)
        (open_path-Keeps returns mine path)
        (λ opened none.
          if-Keeps (not (opened.0 == 0)) (λ h. return-Keeps _ (λ v x. ground (arith, h, none)))
            (λ _. bind-Keeps (request-Keeps kernel (opened.1 ∷ mine) Opcode.lookup) (λ _.
              bind-Keeps
                (cover_created-Keeps fails returns (opened.1 ∷ mine) p app original opened.1 real)
                (λ r.
                  reorder-Keeps (opened.1 ∷ r.1 ∷ mine) (λ v x. omega arith)
                    (bind-Keeps (close_vnode-Keeps (r.1 ∷ mine) opened.1)
                      (λ _. return-Keeps r (λ v x. refl)))))))

module _ {K : Type 0} {kernel : Kernel K} (fails : FailsEmpty kernel)
    (returns : ReturnsVnodes kernel) (mine : List Vnode) where
  replace_created-Keeps :
      (p : ℕ) (app : ApplicationData) (path : FilePath) (vnode : Vnode)
      → vnode ≢ null
      → Keeps (vnode ∷ mine) (replace_created kernel p app path vnode) (λ r. r.1 ∷ mine)
  unfolding replace_created
  replace_created-Keeps p app path vnode real =
      bind-Keeps (get_vnode-Keeps (vnode ∷ mine) vnode) (λ _.
        bind-Keeps (put-Keeps (vnode ∷ mine) vnode) (λ _.
          bind-Keeps (shadow_created-Keeps fails returns (vnode ∷ mine) p app path vnode real) (λ r.
            reorder-Keeps (vnode ∷ r.1 ∷ mine) (λ v x. omega arith)
              (bind-Keeps (put-Keeps (r.1 ∷ mine) vnode) (λ _. return-Keeps r (λ v x. refl))))))

  create_section-Keeps :
      (switches : Switches) (p : ℕ) (app : ApplicationData) (path : FilePath) (dvp : Vnode)
      → Keeps mine (create_section kernel switches p app path dvp) (λ r. r.1 ∷ mine)
  unfolding create_section
  create_section-Keeps switches p app path dvp =
      bind-Keeps (enter_recursion-Keeps kernel mine _) (λ _.
        bind-Keeps {mid = λ r. r.1 ∷ mine}
          (if-Keeps switches.synchronise_with_original
            (λ _. original_call-Keeps returns mine Vnop.create dvp)
            (λ _. return-Keeps _ (λ v x. ground arith)))
          (λ r.
            bind-Keeps {mid = λ q. q.1 ∷ mine}
              (if-Keeps (r.0 == 0 && not (r.1 == null))
                (λ h. replace_created-Keeps p app path r.1 (ground (arith, h)))
                (λ _. return-Keeps r (λ v x. refl)))
              (λ q.
                bind-Keeps (leave_recursion-Keeps kernel (q.1 ∷ mine))
                  (λ _. return-Keeps q (λ v x. refl)))))

  create_converted-Keeps :
      (switches : Switches) (p : ℕ) (app : ApplicationData) (dvp : Vnode) (cn : ComponentName)
      → Keeps mine (create_converted kernel switches p app dvp cn) (λ r. r.1 ∷ mine)
  unfolding create_converted
  create_converted-Keeps switches p app dvp cn =
      bind-Keeps {mid = λ r. r.1 ∷ mine}
        (if-Keeps switches.redirection_is_null_and_void
          (λ _. recursive_call-Keeps returns mine Vnop.create dvp)
          (λ _. create_section-Keeps switches p app _ dvp))
        (λ r.
          bind-Keeps
            (if-Keeps (r.0 == 0) (λ _. audit-Keeps kernel (r.1 ∷ mine) Opcode.create)
              (λ _. pure-Keeps (r.1 ∷ mine) tt))
            (λ _. return-Keeps r (λ v x. refl)))

  controlled_create-Keeps :
      (switches : Switches) (p : ℕ) (app : ApplicationData) (dvp : Vnode) (cn : ComponentName)
      → Keeps mine (controlled_create kernel switches p app dvp cn) (λ r. r.1 ∷ mine)
  unfolding controlled_create
  controlled_create-Keeps switches p app dvp cn =
      bind-Keeps (is_controlled_file-Keeps kernel mine Opcode.create cn.path) (λ controlled.
        if-Keeps (not controlled) (λ _. original_call-Keeps returns mine Vnop.create dvp)
          (λ _. bind-Keeps (note-Keeps mine entry_barred (λ v. (refl, refl))) (λ _.
            bind-Keeps (malloc-Keeps kernel mine) (λ shadow_allocated.
              bind-Keeps
                (if-Keeps shadow_allocated (λ _. malloc-Keeps kernel mine) (λ _. pure-Keeps mine _))
                (λ redirected_allocated.
                  if-Keeps redirected_allocated (λ _. create_converted-Keeps switches p app dvp cn)
                    (λ _. return-Keeps _ (λ v x. ground arith)))))))

  -- A create hands the reference of the vnode that it returns to its caller, and keeps the account of
  -- all others.
  pub create-Keeps :
      (switches : Switches) (dvp : Vnode) (cn : ComponentName)
      → Keeps mine (create_hook kernel switches dvp cn) (λ r. r.1 ∷ mine)
  unfolding create_hook
  create-Keeps switches dvp cn =
      bind-Keeps (application_by_context-Keeps kernel mine create_new) (λ p.
        if_controlled-Keeps kernel mine (application_data_at p)
          (λ app. controlled_create-Keeps switches p app dvp cn)
          (original_call-Keeps returns mine Vnop.create dvp))
