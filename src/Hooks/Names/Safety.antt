-- ===== src/Hooks/Names/Safety.antt =====
-- The references of the hooks of names (VFSHooks.cpp 414-1327 and 2123-2677).
use mac_osx_vfs_redirector.Base.{[], ◌∷◌}
use mac_osx_vfs_redirector.Event.{Vnode}
use mac_osx_vfs_redirector.Hooks.Names.Accounts.{ReturnsVnodes}
use mac_osx_vfs_redirector.Hooks.Names.Create.References.{create-Keeps}
use mac_osx_vfs_redirector.Hooks.Names.Create.{create_hook}
use mac_osx_vfs_redirector.Hooks.Names.Lookup.Handover.{lookup-Keeps}
use mac_osx_vfs_redirector.Hooks.Names.Lookup.{lookup_hook}
use mac_osx_vfs_redirector.Hooks.Names.Rename.Releases.{rename-Keeps}
use mac_osx_vfs_redirector.Hooks.Names.Rename.{RenameArgs, rename_hook}
use mac_osx_vfs_redirector.Hooks.Names.{ComponentName, Switches}
use mac_osx_vfs_redirector.Kernel.Accounts.{FailsEmpty}
use mac_osx_vfs_redirector.Kernel.{Kernel, World}
use mac_osx_vfs_redirector.VnodeMap.References.{Accounted}

-- From a world whose references are accounted for, with kernel calls that return no vnode when they
-- fail and lookups that return one when they succeed: whatever path a lookup, a create or a rename
-- takes, every reference that it took is given back, is owned by an entry of a map, or, for a lookup
-- and a create, belongs to the caller with the vnode that is returned.
pub names-references :
    {K : Type 0} (kernel : Kernel K) (switches : Switches) (w : World K)
    → FailsEmpty kernel
    → ReturnsVnodes kernel
    → Accounted [] w.maps
    → ((dvp : Vnode) (cn : ComponentName)
        → let r = lookup_hook kernel switches dvp cn w in Accounted (r.0.1 ∷ []) r.1.maps)
      × ((dvp : Vnode) (cn : ComponentName)
          → let r = create_hook kernel switches dvp cn w in Accounted (r.0.1 ∷ []) r.1.maps)
      × ((ap : RenameArgs) → Accounted [] (rename_hook kernel switches ap w).1.maps)
names-references kernel switches w fails returns ok = (
  λ dvp cn. (lookup-Keeps fails returns [] switches dvp cn).keeps w ok,
  λ dvp cn. (create-Keeps fails returns [] switches dvp cn).keeps w ok,
  λ ap. (rename-Keeps fails [] switches ap).keeps w ok,
)
