-- ===== src/Hooks/Names/Rename/Releases.antt =====
-- The vnodes that a rename puts at its end (VFSHooks.cpp, QvrVnopRenameHookEx2).
use mac_osx_vfs_redirector.Applications.{ApplicationData, application_data_at}
use mac_osx_vfs_redirector.Base.{ℕ, List, ◌∷◌, arith, ◌==◌, leb, Bool}
use mac_osx_vfs_redirector.Event.{Vnode, Vnop, Opcode, original, caller, super_user}
use mac_osx_vfs_redirector.Hooks.Names.Accounts.{reorder-Keeps}
use mac_osx_vfs_redirector.Hooks.Names.Rename.References.{
  allocate-Keeps, rename_all-Keeps, rename_unredirected-Keeps, application_of_rename-Keeps,
  find_next-Keeps, rename_originals-Keeps, find_targets-Keeps,
}
use mac_osx_vfs_redirector.Hooks.Names.Rename.{
  RenameArgs, rename_converted, rename_redirected, controlled_rename, rename_hook,
}
use mac_osx_vfs_redirector.Hooks.Names.{Switches}
use mac_osx_vfs_redirector.Hooks.References.{if_controlled-Keeps}
use mac_osx_vfs_redirector.Kernel.Accounts.{
  Keeps, FailsEmpty, pure-Keeps, bind-Keeps, if-Keeps, put_unless_null-Keeps, audit-Keeps,
  call_vnop-Keeps,
}
use mac_osx_vfs_redirector.Kernel.{Kernel, pure, ◌>>◌}
use mac_osx_vfs_redirector.Kernel.Calls.{on_maps}
use mac_osx_vfs_redirector.VnodeMap.{put_unless_null}

module _ {K : Type 0} (mine : List Vnode) where
  -- The six puts of the end, in their order
  puts-Keeps :
      (fd td f o t u : Vnode) (e : ℕ)
      → Keeps {K = K}
          (t ∷ u ∷ o ∷ f ∷ td ∷ fd ∷ mine)
          (on_maps (put_unless_null fd)
            >> (on_maps (put_unless_null f)
                >> (on_maps (put_unless_null td)
                    >> (on_maps (put_unless_null t)
                        >> (on_maps (put_unless_null o)
                            >> (on_maps (put_unless_null u) >> pure e))))))
          (λ _. mine)
  puts-Keeps fd td f o t u e =
      reorder-Keeps (fd ∷ f ∷ td ∷ t ∷ o ∷ u ∷ mine) (λ v x. omega arith)
        (bind-Keeps (put_unless_null-Keeps (f ∷ td ∷ t ∷ o ∷ u ∷ mine) fd) (λ _.
          bind-Keeps (put_unless_null-Keeps (td ∷ t ∷ o ∷ u ∷ mine) f) (λ _.
            bind-Keeps (put_unless_null-Keeps (t ∷ o ∷ u ∷ mine) td) (λ _.
              bind-Keeps (put_unless_null-Keeps (o ∷ u ∷ mine) t) (λ _.
                bind-Keeps (put_unless_null-Keeps (u ∷ mine) o)
                  (λ _. bind-Keeps (put_unless_null-Keeps mine u) (λ _. pure-Keeps mine e)))))))

module _ {K : Type 0} {kernel : Kernel K} (fails : FailsEmpty kernel) (mine : List Vnode) where
  rename_converted-Keeps :
      (switches : Switches) (app : ApplicationData) (ap : RenameArgs) (e0 : ℕ) (both_paths : Bool)
      → Keeps mine (rename_converted kernel switches app ap e0 both_paths) (λ _. mine)
  unfolding rename_converted
  rename_converted-Keeps switches app ap e0 both_paths =
      bind-Keeps (find_next-Keeps fails mine e0 _ _ super_user) (λ fd.
        bind-Keeps (find_next-Keeps fails (fd.1 ∷ mine) fd.0 _ _ super_user) (λ td.
          bind-Keeps (find_next-Keeps fails (td.1 ∷ fd.1 ∷ mine) td.0 _ _ super_user) (λ f.
            bind-Keeps (find_next-Keeps fails (f.1 ∷ td.1 ∷ fd.1 ∷ mine) f.0 _ _ caller) (λ o.
              bind-Keeps (find_targets-Keeps fails (o.1 ∷ f.1 ∷ td.1 ∷ fd.1 ∷ mine) o.0 ap _) (λ t.
                let held : List Vnode = t.1 ∷ t.2 ∷ o.1 ∷ f.1 ∷ td.1 ∷ fd.1 ∷ mine in
                bind-Keeps
                  (if-Keeps (t.0 == 0) (λ _. rename_all-Keeps kernel held switches ap.fvp f.1 o.1)
                    (λ _. pure-Keeps held t.0))
                  (λ e. bind-Keeps (audit-Keeps kernel held Opcode.rename) (λ _.
                    bind-Keeps
                      (if-Keeps both_paths (λ _. audit-Keeps kernel held Opcode.rename)
                        (λ _. pure-Keeps held tt))
                      (λ _. puts-Keeps mine fd.1 td.1 f.1 o.1 t.1 t.2 e))))))))

  rename_redirected-Keeps :
      (switches : Switches) (app : ApplicationData) (ap : RenameArgs)
      → Keeps mine (rename_redirected kernel switches app ap) (λ _. mine)
  unfolding rename_redirected
  rename_redirected-Keeps switches app ap =
      bind-Keeps (allocate-Keeps kernel mine 12)
        (λ n. rename_converted-Keeps switches app ap _ (leb 6 n))

  controlled_rename-Keeps :
      (switches : Switches) (app : ApplicationData) (ap : RenameArgs)
      → Keeps mine (controlled_rename kernel switches app ap) (λ _. mine)
  unfolding controlled_rename
  controlled_rename-Keeps switches app ap =
      if-Keeps switches.redirection_is_null_and_void (λ _. rename_unredirected-Keeps kernel mine ap)
        (λ _.
          if-Keeps app.redirect_io (λ _. rename_redirected-Keeps switches app ap)
            (λ _. rename_originals-Keeps fails mine ap))

  -- A rename gives back every reference that it takes, but those of entries of the maps.
  pub rename-Keeps :
      (switches : Switches) (ap : RenameArgs)
      → Keeps mine (rename_hook kernel switches ap) (λ _. mine)
  unfolding rename_hook
  rename-Keeps switches ap = bind-Keeps (application_of_rename-Keeps kernel mine ap.fvp) (λ p.
      if_controlled-Keeps kernel mine (application_data_at p)
        (λ app. controlled_rename-Keeps switches app ap)
        (call_vnop-Keeps kernel mine Vnop.rename original ap.fvp caller))
