-- ===== src/Hooks/Session.antt =====
-- A run of hooks (VFSHooks.cpp): the calls that the kernel makes into the redirector one after the
-- other, from the start, when the maps of VNodeMap are empty.
pub mod Unmarked
use mac_osx_vfs_redirector.Applications.{ApplicationData}
use mac_osx_vfs_redirector.Base.{◌+◌, ◌≡◌, ◌≢◌, Bool, List, [], ◌∷◌, refl, arith}
use mac_osx_vfs_redirector.DataMap.{null}
use mac_osx_vfs_redirector.Event.{Vnode, taken, dropped}
use mac_osx_vfs_redirector.Hooks.Backing.References.{associate-Keeps}
use mac_osx_vfs_redirector.Hooks.Backing.{associate_vnode_for_redirected_io}
use mac_osx_vfs_redirector.Hooks.Exchange.References.{exchange-Keeps}
use mac_osx_vfs_redirector.Hooks.Exchange.{exchange_hook}
use mac_osx_vfs_redirector.Hooks.Getattr.References.{getattr-Keeps}
use mac_osx_vfs_redirector.Hooks.Getattr.{Wanted, getattr_hook}
use mac_osx_vfs_redirector.Hooks.Io.{read_hook, write_hook}
use mac_osx_vfs_redirector.Hooks.Life.{open_hook, close_hook, inactive_hook}
use mac_osx_vfs_redirector.Hooks.Paging.References.{pagein-Keeps, pageout-Keeps}
use mac_osx_vfs_redirector.Hooks.Paging.{PagingArgs, pagein_hook, pageout_hook}
use mac_osx_vfs_redirector.Hooks.Names.Accounts.{ReturnsVnodes, return-Keeps}
use mac_osx_vfs_redirector.Hooks.Names.Create.References.{create-Keeps}
use mac_osx_vfs_redirector.Hooks.Names.Create.{create_hook}
use mac_osx_vfs_redirector.Hooks.Names.Lookup.Handover.{lookup-Keeps}
use mac_osx_vfs_redirector.Hooks.Names.Lookup.{lookup_hook}
use mac_osx_vfs_redirector.Hooks.Names.Rename.Releases.{rename-Keeps}
use mac_osx_vfs_redirector.Hooks.Names.Rename.{RenameArgs, rename_hook}
use mac_osx_vfs_redirector.Hooks.Names.{ComponentName, Switches}
use mac_osx_vfs_redirector.Hooks.Reclaim.{forget_and_reclaim, reclaim-Keeps}
use mac_osx_vfs_redirector.Hooks.References.{
  open-Keeps, close-Keeps, inactive-Keeps, read-Keeps, write-Keeps,
}
use mac_osx_vfs_redirector.Kernel.Accounts.{Keeps, FailsEmpty, bind-Keeps, pure-Keeps}
use mac_osx_vfs_redirector.Kernel.{Kernel, World, Hook, pure, ◌>>=◌}
use mac_osx_vfs_redirector.VnodeMap.References.{Accounted, held, count}
use mac_osx_vfs_redirector.VnodeMap.{VnodeMap}

-- A call into the redirector: one of its thirteen hooks, or the association of a vnode with an
-- application.
pub data HookCall : Type 0 where
  opens closes inactivates reads writes reclaims : (vp : Vnode) → HookCall
  pages_in pages_out : PagingArgs → HookCall
  exchanges : (fvp tvp : Vnode) → HookCall
  gets_attributes : Wanted → (vp : Vnode) → HookCall
  associates : (vn : Vnode) → ApplicationData → (force_update : Bool) → HookCall
  lookups creates : (dvp : Vnode) → ComponentName → HookCall
  renames : RenameArgs → HookCall

-- The state when the redirector starts.
abbrev pub no_entries : VnodeMap
no_entries = record {
  app_data = [];
  vnode_io = [];
  shadow_to_vnode = [];
  hooked_vnodes = [];
  log = [];
}

module _ {K : Type 0} (kernel : Kernel K) (switches : Switches) where
  -- A call, with the vnodes that were returned to the callers before it; a lookup and a create return
  -- one more.
  unfoldable pub run : HookCall → (returned : List Vnode) → Hook K (List Vnode)
  run (opens vp) vs = do e ← open_hook kernel vp; pure vs
  run (closes vp) vs = do e ← close_hook kernel vp; pure vs
  run (inactivates vp) vs = do e ← inactive_hook kernel vp; pure vs
  run (reads vp) vs = do e ← read_hook kernel vp; pure vs
  run (writes vp) vs = do e ← write_hook kernel vp; pure vs
  run (reclaims vp) vs = do e ← forget_and_reclaim kernel vp; pure vs
  run (pages_in args) vs = do e ← pagein_hook kernel args; pure vs
  run (pages_out args) vs = do e ← pageout_hook kernel args; pure vs
  run (exchanges fvp tvp) vs = do e ← exchange_hook kernel fvp tvp; pure vs
  run (gets_attributes want vp) vs = do r ← getattr_hook kernel want vp; pure vs
  run (associates vn app f) vs = do
    done ← associate_vnode_for_redirected_io kernel vn app f
    pure vs
  run (lookups dvp cn) vs = do r ← lookup_hook kernel switches dvp cn; pure (r.1 ∷ vs)
  run (creates dvp cn) vs = do r ← create_hook kernel switches dvp cn; pure (r.1 ∷ vs)
  run (renames ap) vs = do e ← rename_hook kernel switches ap; pure vs

  unfoldable pub run_all : List HookCall → (returned : List Vnode) → Hook K (List Vnode)
  unfolding run
  run_all [] vs = pure vs
  run_all (c ∷ l) vs = run c vs >>= run_all l

no_entries-Accounted : Accounted [] no_entries
unfolding held
no_entries-Accounted = record { shadow_valid = tt; balance = λ v real. refl }

module _ {K : Type 0} (kernel : Kernel K) (switches : Switches) (fails : FailsEmpty kernel)
    (returns : ReturnsVnodes kernel) where
  then_return-Keeps :
      {A : Type 0} {h : Hook K A} (vs : List Vnode)
      → Keeps vs h (λ _. vs)
      → Keeps vs (h >>= λ _. pure vs) (λ r. r)
  then_return-Keeps vs k = bind-Keeps k (λ _. return-Keeps vs (λ v x. refl))

  run-Keeps : (c : HookCall) (vs : List Vnode) → Keeps vs (run kernel switches c vs) (λ r. r)
  unfolding run
  run-Keeps (opens vp) vs = then_return-Keeps vs (open-Keeps kernel vs vp)
  run-Keeps (closes vp) vs = then_return-Keeps vs (close-Keeps kernel vs vp)
  run-Keeps (inactivates vp) vs = then_return-Keeps vs (inactive-Keeps kernel vs vp)
  run-Keeps (reads vp) vs = then_return-Keeps vs (read-Keeps kernel fails vs vp)
  run-Keeps (writes vp) vs = then_return-Keeps vs (write-Keeps kernel fails vs vp)
  run-Keeps (reclaims vp) vs = then_return-Keeps vs (reclaim-Keeps kernel vs vp)
  run-Keeps (pages_in args) vs = then_return-Keeps vs (pagein-Keeps kernel fails vs args)
  run-Keeps (pages_out args) vs = then_return-Keeps vs (pageout-Keeps kernel fails vs args)
  run-Keeps (exchanges fvp tvp) vs = then_return-Keeps vs (exchange-Keeps kernel vs fvp tvp)
  run-Keeps (gets_attributes want vp) vs = then_return-Keeps vs (getattr-Keeps kernel vs want vp)
  run-Keeps (associates vn app f) vs =
      then_return-Keeps vs (associate-Keeps kernel fails vs vn app f)
  run-Keeps (lookups dvp cn) vs =
      bind-Keeps (lookup-Keeps fails returns vs switches dvp cn)
        (λ r. return-Keeps (r.1 ∷ vs) (λ v x. refl))
  run-Keeps (creates dvp cn) vs =
      bind-Keeps (create-Keeps fails returns vs switches dvp cn)
        (λ r. return-Keeps (r.1 ∷ vs) (λ v x. refl))
  run-Keeps (renames ap) vs = then_return-Keeps vs (rename-Keeps fails vs switches ap)

  run_all-Keeps :
      (calls : List HookCall) (vs : List Vnode)
      → Keeps vs (run_all kernel switches calls vs) (λ r. r)
  unfolding run_all
  run_all-Keeps [] vs = return-Keeps vs (λ v x. refl)
  run_all-Keeps (c ∷ l) vs = bind-Keeps (run-Keeps c vs) (run_all-Keeps l)

  -- No reference leaks and none is given back twice: after any calls of the thirteen hooks, the
  -- reclaim hook without its unhooking, and of the association of a vnode, one after the other from the
  -- start, the references taken on a vnode are
  -- those given back, those that an entry of the I/O map or of the shadow map owns, and those that
  -- went to a caller with a vnode that a lookup or a create returned. The kernel's calls return no vnode
  -- when they fail, and its lookups return one when they succeed.
  pub run_all-references :
      (calls : List HookCall) (w : World K)
      → w.maps ≡ no_entries
      → (v : Vnode) → v ≢ null
      → let r = run_all kernel switches calls [] w in
        let s = r.1.maps in
        taken v s.log ≡ dropped v s.log + held v s.vnode_io + held v s.shadow_to_vnode + count v r.0
  run_all-references calls w start v real =
      ((run_all-Keeps calls []).keeps w (rw start no_entries-Accounted)).balance v real
