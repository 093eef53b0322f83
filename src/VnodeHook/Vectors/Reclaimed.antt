-- ===== src/VnodeHook/Vectors/Reclaimed.antt =====
-- The reclaim hook (VFSHooks.cpp 2924-2957) for a vnode that hooked its vector.
use mac_osx_vfs_redirector.Base.{ℕ, ◌+◌, ◌≡◌, ◌≢◌, refl, sym, subst, ◌∙◌, true, arith}
use mac_osx_vfs_redirector.DataMap.Laws.{IsValid, get-remove}
use mac_osx_vfs_redirector.DataMap.{null}
use mac_osx_vfs_redirector.VnodeHook.Restore.{DistinctOffsets, hook_entries-Resolved}
use mac_osx_vfs_redirector.VnodeHook.Vectors.Steps.{
  GhtLaws, HooksFirst, JustHooked, hook_vnode_vop-JustHooked,
}
use mac_osx_vfs_redirector.VnodeHook.Vectors.Transparent.{
  original_of_unhooked, get_original_vnode_op-hook_vnode_vop,
}
use mac_osx_vfs_redirector.VnodeHook.Vectors.Undone.{JustHooked-found, unhook-JustHooked}
use mac_osx_vfs_redirector.VnodeHook.Vectors.{
  Ght, Hooking, Vnodes, retain, retrieve_hook_entry, release_entry, get_original_vnode_op,
  hook_vnode_vop, unhook_vnode_vop, unhook_vnode_vop_and_parent, reclaim_hook,
}
use mac_osx_vfs_redirector.VnodeHook.{Vop, vop_not_hooked}
use mac_osx_vfs_redirector.VnodeMap.{
  VnodeMap, add_hooked_vnode, remove_hooked_vnode, get_vnode_app_data, remove_vnode_app_data,
  get_vnode_io, remove_vnode_io, get_vnode_shadow_reverse, remove_shadow_reverse, put_unless_null,
  vnode_put,
}

-- the maps whose entries the reclaim hook removes
pub record ValidMaps (m : VnodeMap) : Type 0 where
  pub app_data_valid : IsValid m.app_data
  pub vnode_io_valid : IsValid m.vnode_io
  pub shadow_valid : IsValid m.shadow_to_vnode

abbrev pub Forgotten : ℕ → VnodeMap → Type 0
Forgotten vn m =
    (get_vnode_app_data vn m ≡ null)
    × (get_vnode_io vn m ≡ null)
    × (get_vnode_shadow_reverse vn m ≡ null)

module _ (vn : ℕ) (m : VnodeMap) (valid : ValidMaps m) where
  open valid use {app_data_valid, vnode_io_valid, shadow_valid}

  abbrev forgetful : VnodeMap
  forgetful = remove_shadow_reverse vn (remove_vnode_io vn (remove_vnode_app_data vn m))

  forgets_app_data : get_vnode_app_data vn forgetful ≡ null
  unfolding get_vnode_app_data get_vnode_io get_vnode_shadow_reverse remove_vnode_app_data
      remove_vnode_io remove_shadow_reverse put_unless_null vnode_put
  forgets_app_data = ground (arith, get-remove vn vn m.app_data app_data_valid)

  forgets_io : get_vnode_io vn forgetful ≡ null
  unfolding get_vnode_app_data get_vnode_io get_vnode_shadow_reverse remove_vnode_app_data
      remove_vnode_io remove_shadow_reverse put_unless_null vnode_put
  forgets_io = ground (arith, get-remove vn vn m.vnode_io vnode_io_valid)

  forgets_shadow : get_vnode_shadow_reverse vn forgetful ≡ null
  unfolding get_vnode_app_data get_vnode_io get_vnode_shadow_reverse remove_vnode_app_data
      remove_vnode_io remove_shadow_reverse put_unless_null vnode_put
  forgets_shadow = ground (arith, get-remove vn vn m.shadow_to_vnode shadow_valid)

  Forgotten-forgetful : Forgotten vn forgetful
  Forgotten-forgetful = (forgets_app_data, forgets_io, forgets_shadow)

module _ {T : Type 0} (ght : Ght T) (laws : GhtLaws ght) (vnodes : Vnodes)
    (offset hook_of : Vop → ℕ) where
  open vnodes use {v_op_of, parent_of}

  module _ (vn new : ℕ) (s : Hooking T)
      (first : HooksFirst ght vnodes offset hook_of vn new s) where
    abbrev hooked : Hooking T
    hooked = (hook_vnode_vop ght vnodes offset hook_of new true vn s).1

    abbrev asked : ℕ × Hooking T
    asked = get_original_vnode_op ght vnodes offset hook_of vn Vop.reclaim hooked

    asked-JustHooked : JustHooked ght vnodes offset hook_of true vn new s asked.1
    unfolding get_original_vnode_op retrieve_hook_entry retain release_entry
    asked-JustHooked =
        let h = hook_vnode_vop-JustHooked ght vnodes offset hook_of true vn new s first in
        let found = JustHooked-found ght laws vnodes offset hook_of vn new s first hooked h in
        let real = first.real in
        record {
          memory_is = ground (arith, found, real) ∙ h.memory_is;
          entry_is = ground (arith, found, real) ∙ h.entry_is;
          table_is = ground (arith, found, real) ∙ h.table_is;
          maps_is = ground (arith, found, real) ∙ h.maps_is;
        }

    unhook_without_parent :
        parent_of vn ≡ null
        → unhook_vnode_vop_and_parent ght vnodes offset hook_of vn asked.1
          ≡ unhook_vnode_vop ght vnodes offset hook_of vn asked.1
    unfolding unhook_vnode_vop_and_parent
    unhook_without_parent h = ground (arith, h)

    reclaim_original : DistinctOffsets offset → asked.0 ≡ s.memory (v_op_of vn + offset Vop.reclaim)
    reclaim_original places =
        (get_original_vnode_op-hook_vnode_vop ght laws vnodes offset hook_of vn vn new s first refl
          places).0.1
        ∙ original_of_unhooked ght laws vnodes offset hook_of vn Vop.reclaim s
            hook_entries-Resolved.0 first.no_entry

    kept_maps-ValidMaps : ValidMaps s.maps → ValidMaps (remove_hooked_vnode vn asked.1.maps)
    unfolding remove_hooked_vnode add_hooked_vnode
    kept_maps-ValidMaps v =
        subst (λ m. ValidMaps (remove_hooked_vnode vn m)) (sym asked-JustHooked.maps_is)
          (record {
            app_data_valid = v.app_data_valid;
            vnode_io_valid = v.vnode_io_valid;
            shadow_valid = v.shadow_valid;
          })

    -- The state when the original reclaim operation is called.
    abbrev Reclaimed : Hooking T → Type 0
    Reclaimed r =
        ((x : ℕ) → r.memory x ≡ s.memory x)
        × ((j : ℕ) → ght.get j r.table ≡ ght.get j s.table)
        × ((r.entry new).references ≡ 0)
        × Forgotten vn r.maps

    reclaim-Reclaimed :
        parent_of vn ≡ null
        → vn ≢ null
        → ValidMaps s.maps
        → DistinctOffsets offset
        → ((a : ℕ) → s.memory a ≢ vop_not_hooked)
        → ((d : Vop) → hook_of d ≢ vop_not_hooked)
        → Reclaimed (reclaim_hook ght vnodes offset hook_of vn hooked).1
    unfolding reclaim_hook
    reclaim-Reclaimed orphan h valid places functions hooks =
        let u = unhook_vnode_vop ght vnodes offset hook_of vn asked.1 in
        let r =
          unhook-JustHooked ght laws vnodes offset hook_of vn new s first asked.1 asked-JustHooked h
            places functions hooks in
        rw (unhook_without_parent orphan) (
          r.0,
          r.1,
          r.2,
          Forgotten-forgetful vn u.maps (subst ValidMaps (sym r.3) (kept_maps-ValidMaps valid)),
        )

  -- Reclaiming a vnode takes the hooks away with it: a vnode without a parent that hooked its vector,
  -- and is reclaimed next, with no other vnode hooked in between, is reclaimed by the function that was
  -- there before, and by the time of that call every function of
  -- every vector is what it was before the hooking, the table of hooked vectors has the entries that
  -- it had, the entry has no reference left, and the vnode has no application data, no backing vnode and
  -- no controlled vnode. This is for valid maps, a table and a list that take their new entries, offsets
  -- that differ, and functions and hooks none of which is at the address that marks an operation as not
  -- hooked.
  pub reclaim_hook-restores :
      (vn new : ℕ) (s : Hooking T)
      → HooksFirst ght vnodes offset hook_of vn new s
      → parent_of vn ≡ null
      → vn ≢ null
      → ValidMaps s.maps
      → DistinctOffsets offset
      → ((a : ℕ) → s.memory a ≢ vop_not_hooked)
      → ((d : Vop) → hook_of d ≢ vop_not_hooked)
      → let h = (hook_vnode_vop ght vnodes offset hook_of new true vn s).1 in
        let r = reclaim_hook ght vnodes offset hook_of vn h in
        (r.0 ≡ s.memory (v_op_of vn + offset Vop.reclaim))
        × ((x : ℕ) → r.1.memory x ≡ s.memory x)
        × ((j : ℕ) → ght.get j r.1.table ≡ ght.get j s.table)
        × ((r.1.entry new).references ≡ 0)
        × Forgotten vn r.1.maps
  unfolding reclaim_hook
  reclaim_hook-restores vn new s first orphan h valid places functions hooks =
      let r = reclaim-Reclaimed vn new s first orphan h valid places functions hooks in
      (reclaim_original vn new s first places, r.0, r.1, r.2, r.3)
