-- ===== src/VnodeHook/Vectors/Steps.antt =====
-- What hooking does to a vnode whose vector has no entry yet (VNodeHook.cpp 227-486), and what
-- libghthash documents of its table.
use mac_osx_vfs_redirector.Base.{
  ℕ, ◌≡◌, refl, sym, subst, Bool, true, false, ◌==◌, if◌then◌else◌, arith,
}
use mac_osx_vfs_redirector.DataMap.{null}
use mac_osx_vfs_redirector.VnodeHook.Vectors.{
  Ght, Hooking, Vnodes, retain, retrieve_hook_entry, increment_vnode_counter, release_entry,
  new_entry, add_hook_entry, hook_vector, hook_exclusive, hook_vnode_vop, unknown_vector,
}
use mac_osx_vfs_redirector.VnodeHook.{Vop, hook_entries, Memory, Originals, hook_operations}
use mac_osx_vfs_redirector.VnodeMap.{add_hooked_vnode}

-- An inserted entry is found and the others stay; what is removed is what was found, and it is not
-- found again.
pub record GhtLaws {T : Type 0} (ght : Ght T) : Type 0 where
  pub get-insert :
      (j k e : ℕ) (t : T)
      → (ght.insert k e t).0 ≡ true
      → ght.get j (ght.insert k e t).1 ≡ (if k == j then e else ght.get j t)
  pub removed_is_found : (k : ℕ) (t : T) → (ght.remove k t).0 ≡ ght.get k t
  pub get-remove :
      (j k : ℕ) (t : T) → ght.get j (ght.remove k t).1 ≡ (if k == j then null else ght.get j t)

abbrev pub no_originals : Originals
no_originals i = 0

module _ {T : Type 0} (ght : Ght T) (vnodes : Vnodes) (offset hook_of : Vop → ℕ) where
  -- A vnode that hooks its vector: a regular file that is in use, a vector that is known and has no entry, memory
  -- for a new one, and a table that takes it.
  pub record HooksFirst (vn new : ℕ) (s : Hooking T) : Type 0 where
    pub known : (vnodes.v_op_of vn == unknown_vector) ≡ false
    pub in_use : vnodes.is_recycled vn ≡ false
    pub regular : vnodes.is_regular_file vn ≡ true
    pub no_entry : ght.get (vnodes.v_op_of vn) s.table ≡ null
    pub real : (new == null) ≡ false
    pub inserted : (ght.insert (vnodes.v_op_of vn) new s.table).0 ≡ true

  module _ (listed : Bool) (vn new : ℕ) (s : Hooking T) where
    open vnodes use {v_op_of}

    -- the vector and the saved functions
    abbrev pub written : Memory × Originals
    written = hook_operations offset hook_of hook_entries (v_op_of vn) (s.memory, no_originals)

    -- The state that such a hooking makes of `s`, up to the entries that it does not touch.
    pub record JustHooked (h : Hooking T) : Type 0 where
      pub memory_is : h.memory ≡ written.0
      pub entry_is :
          h.entry new ≡ record { vnode_counter = 1; originals = written.1; references = 1 }
      pub table_is : h.table ≡ (ght.insert (v_op_of vn) new s.table).1
      pub maps_is : h.maps ≡ add_hooked_vnode listed vn s.maps

    module _ (first : HooksFirst vn new s) where
      open first use {known, in_use, regular, no_entry, real, inserted}

      abbrev counted : Hooking T
      counted = increment_vnode_counter new (
          retain new (record (new_entry new s) { table = (ght.insert (v_op_of vn) new s.table).1 }))

      -- the result of the call
      abbrev result : Hooking T
      result =
          let s1 =
            release_entry new (hook_vector ght vnodes offset hook_of (v_op_of vn) new counted) in
          record s1 { maps = add_hooked_vnode listed vn s1.maps }

      pub hook_vnode_vop_first :
          hook_vnode_vop ght vnodes offset hook_of new listed vn s ≡ ((0, true), result)
      unfolding hook_vnode_vop hook_exclusive retrieve_hook_entry add_hook_entry
      hook_vnode_vop_first = ground (arith, known, in_use, regular, no_entry, real, inserted)

      result-JustHooked : JustHooked result
      unfolding release_entry hook_vector increment_vnode_counter retain new_entry
      result-JustHooked = record {
        memory_is = ground arith;
        entry_is = ground arith;
        table_is = refl;
        maps_is = refl;
      }

      pub hook_vnode_vop-JustHooked :
          JustHooked (hook_vnode_vop ght vnodes offset hook_of new listed vn s).1
      hook_vnode_vop-JustHooked =
          subst (λ r. JustHooked r.1) (sym hook_vnode_vop_first) result-JustHooked
