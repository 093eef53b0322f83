-- ===== src/VnodeHook/Vectors/Undone.antt =====
-- Unhooking a vnode (VNodeHook.cpp 490-641) after it hooked its vector.
use mac_osx_vfs_redirector.Base.{
  ℕ, ◌-◌, ◌≡◌, ◌≢◌, refl, sym, ◌∙◌, ap, true, false, Bool-cases, inl, inr, ◌==◌, if◌then◌else◌,
  arith,
}
use mac_osx_vfs_redirector.DataMap.Laws.{IsValid, get-add, get-remove, add-IsValid}
use mac_osx_vfs_redirector.DataMap.{null, add_data_by_key}
use mac_osx_vfs_redirector.VnodeHook.Restore.{DistinctOffsets, unhook-hook_entries}
use mac_osx_vfs_redirector.VnodeHook.Vectors.Steps.{
  GhtLaws, no_originals, HooksFirst, written, JustHooked, hook_vnode_vop-JustHooked,
  hook_vnode_vop_first,
}
use mac_osx_vfs_redirector.VnodeHook.Vectors.{
  Ght, Hooking, Vnodes, retain, retrieve_hook_entry, decrement_vnode_counter, release_entry,
  remove_hook_entry, hook_vnode_vop, unhook_exclusive, unhook_vnode_vop, unknown_vector,
}
use mac_osx_vfs_redirector.VnodeHook.{Vop, hook_entries, vop_not_hooked, unhook_operations}
use mac_osx_vfs_redirector.VnodeMap.{
  VnodeMap, add_hooked_vnode, remove_hooked_vnode, is_vnode_hooked,
}

not_listed :
    (vn : ℕ) (m : VnodeMap)
    → vn ≢ null
    → IsValid m.hooked_vnodes
    → is_vnode_hooked vn (remove_hooked_vnode vn (add_hooked_vnode true vn m)) ≡ false
unfolding is_vnode_hooked add_hooked_vnode remove_hooked_vnode
not_listed vn m v valid =
    let added = (add_data_by_key true vn vn m.hooked_vnodes).1 in
    ground (arith, get-remove vn vn added (add-IsValid true vn vn m.hooked_vnodes v valid))

same_key : (j k : ℕ) → (j == k) ≡ true → j ≡ k
same_key j k h = ground (arith, h)

module _ {T : Type 0} (ght : Ght T) (laws : GhtLaws ght) (vnodes : Vnodes)
    (offset hook_of : Vop → ℕ) where
  -- A vnode whose unhooking takes its vector's entry away: the last one that the entry counts.
  record UnhooksLast (vn e : ℕ) (s : Hooking T) : Type 0 where
    known_vector : (vnodes.v_op_of vn == unknown_vector) ≡ false
    regular_file : vnodes.is_regular_file vn ≡ true
    is_hooked : is_vnode_hooked vn s.maps ≡ true
    not_null : (e == null) ≡ false
    found : ght.get (vnodes.v_op_of vn) s.table ≡ e
    last : (s.entry e).vnode_counter ≡ 1

  module _ (vn e : ℕ) (s : Hooking T) (l : UnhooksLast vn e s) where
    open vnodes use {v_op_of}
    open l use {known_vector, regular_file, is_hooked, not_null, found, last}

    abbrev unhooked : Hooking T
    unhooked = unhook_vnode_vop ght vnodes offset hook_of vn s

    removed : (ght.remove (v_op_of vn) s.table).0 ≡ e
    removed = laws.removed_is_found (v_op_of vn) s.table ∙ found

    unhooked-memory :
        (x : ℕ)
        → unhooked.memory x
          ≡ unhook_operations offset hook_entries (v_op_of vn) (s.entry e).originals s.memory x
    unfolding unhook_vnode_vop unhook_exclusive retrieve_hook_entry remove_hook_entry release_entry
        retain decrement_vnode_counter
    unhooked-memory x =
        ground (arith, known_vector, regular_file, is_hooked, not_null, found, last, removed)

    unhooked-table : unhooked.table ≡ (ght.remove (v_op_of vn) s.table).1
    unfolding unhook_vnode_vop unhook_exclusive retrieve_hook_entry remove_hook_entry release_entry
        retain decrement_vnode_counter
    unhooked-table =
        ground (arith, known_vector, regular_file, is_hooked, not_null, found, last, removed)

    unhooked-maps : unhooked.maps ≡ remove_hooked_vnode vn s.maps
    unfolding unhook_vnode_vop unhook_exclusive retrieve_hook_entry remove_hook_entry release_entry
        retain decrement_vnode_counter
    unhooked-maps =
        ground (arith, known_vector, regular_file, is_hooked, not_null, found, last, removed)

    unhooked-references : (unhooked.entry e).references ≡ (s.entry e).references - 1
    unfolding unhook_vnode_vop unhook_exclusive retrieve_hook_entry remove_hook_entry release_entry
        retain decrement_vnode_counter
    unhooked-references =
        ground (arith, known_vector, regular_file, is_hooked, not_null, found, last, removed)

  module _ (vn new : ℕ) (s : Hooking T) (first : HooksFirst ght vnodes offset hook_of vn new s)
      (h : Hooking T) (hooked : JustHooked ght vnodes offset hook_of true vn new s h) where
    open vnodes use {v_op_of}
    open first use {known, regular, no_entry, real, inserted}
    open hooked use {memory_is, entry_is, table_is, maps_is}

    pub JustHooked-found : ght.get (v_op_of vn) h.table ≡ new
    JustHooked-found =
        ap (ght.get (v_op_of vn)) table_is
        ∙ (laws.get-insert (v_op_of vn) (v_op_of vn) new s.table inserted ∙ ground arith)

    JustHooked-is_vnode_hooked : vn ≢ null → is_vnode_hooked vn h.maps ≡ true
    unfolding is_vnode_hooked add_hooked_vnode
    JustHooked-is_vnode_hooked v =
        ap (is_vnode_hooked vn) maps_is ∙ ground (arith, get-add vn vn vn s.maps.hooked_vnodes, v)

    JustHooked-UnhooksLast : vn ≢ null → UnhooksLast vn new h
    JustHooked-UnhooksLast v = record {
      known_vector = known;
      regular_file = regular;
      is_hooked = JustHooked-is_vnode_hooked v;
      not_null = real;
      found = JustHooked-found;
      last = ap (λ e. e.vnode_counter) entry_is;
    }

    other_entries :
        (j : ℕ) → (if v_op_of vn == j then null else ght.get j h.table) ≡ ght.get j s.table
    other_entries j = elim (Bool-cases (v_op_of vn == j)) [
      | inl same ↦
          rw same (sym no_entry ∙ ap (λ k. ght.get k s.table) (same_key (v_op_of vn) j same))
      | inr other ↦ rw other (
          ap (ght.get j) table_is
          ∙ (laws.get-insert j (v_op_of vn) new s.table inserted ∙ rw other refl))
    ]

    -- the functions, the table and the new entry once the vector is unhooked
    abbrev pub Restored : Hooking T → Type 0
    Restored r =
        ((x : ℕ) → r.memory x ≡ s.memory x)
        × ((j : ℕ) → ght.get j r.table ≡ ght.get j s.table)
        × ((r.entry new).references ≡ 0)
        × (r.maps ≡ remove_hooked_vnode vn h.maps)

    pub unhook-JustHooked :
        vn ≢ null
        → DistinctOffsets offset
        → ((a : ℕ) → s.memory a ≢ vop_not_hooked)
        → ((d : Vop) → hook_of d ≢ vop_not_hooked)
        → Restored (unhook_vnode_vop ght vnodes offset hook_of vn h)
    unhook-JustHooked v places functions hooks =
        let u = JustHooked-UnhooksLast v in
        let saved = written ght vnodes offset hook_of true vn new s in
        let unhook = unhook_operations offset hook_entries (v_op_of vn) in
        (
          λ x.
              unhooked-memory vn new h u x
              ∙ (ap (λ r. unhook r.originals h.memory x) entry_is
                  ∙ (ap (λ m. unhook saved.1 m x) memory_is
                      ∙ unhook-hook_entries offset hook_of (v_op_of vn) places s.memory no_originals
                          functions hooks x)),
          λ j.
              ap (ght.get j) (unhooked-table vn new h u)
              ∙ (laws.get-remove j (v_op_of vn) h.table ∙ other_entries j),
          unhooked-references vn new h u ∙ ap (λ r. r.references - 1) entry_is,
          unhooked-maps vn new h u,
        )

  -- Unhooking undoes hooking: a regular file in use whose vector is known and is in the table for no other vnode
  -- is hooked with success, and when it is unhooked next, every function of every vector is what it was
  -- before, the table has the entries that it had, the new entry has no reference left, and the vnode is
  -- not listed as hooked. This is for a table and a list that take their new entries, offsets that
  -- differ, and functions and hooks none of which is at the address that marks an operation as not
  -- hooked.
  pub unhook-hook_vnode_vop :
      (vn new : ℕ) (s : Hooking T)
      → HooksFirst ght vnodes offset hook_of vn new s
      → vn ≢ null
      → IsValid s.maps.hooked_vnodes
      → DistinctOffsets offset
      → ((a : ℕ) → s.memory a ≢ vop_not_hooked)
      → ((d : Vop) → hook_of d ≢ vop_not_hooked)
      → let h = hook_vnode_vop ght vnodes offset hook_of new true vn s in
        let r = unhook_vnode_vop ght vnodes offset hook_of vn h.1 in
        (h.0 ≡ (0, true))
        × ((x : ℕ) → r.memory x ≡ s.memory x)
        × ((j : ℕ) → ght.get j r.table ≡ ght.get j s.table)
        × ((r.entry new).references ≡ 0)
        × (is_vnode_hooked vn r.maps ≡ false)
  unfolding is_vnode_hooked add_hooked_vnode remove_hooked_vnode
  unhook-hook_vnode_vop vn new s first v valid places functions hooks =
      let h = (hook_vnode_vop ght vnodes offset hook_of new true vn s).1 in
      let hooked = hook_vnode_vop-JustHooked ght vnodes offset hook_of true vn new s first in
      let r = unhook-JustHooked vn new s first h hooked v places functions hooks in
      let maps = r.3 ∙ ap (remove_hooked_vnode vn) hooked.maps_is in
      (
        ap (λ x. x.0) (hook_vnode_vop_first ght vnodes offset hook_of true vn new s first),
        r.0,
        r.1,
        r.2,
        ap (is_vnode_hooked vn) maps ∙ not_listed vn s.maps v valid,
      )
