-- ===== src/VnodeHook/Vectors/Counters.antt =====
-- The counter of a vector that more than one vnode has hooked (VNodeHook.cpp 227-641).
use mac_osx_vfs_redirector.Base.{
  ℕ, ◌+◌, ◌==◌, ◌%◌, ◌^◌, ◌≡◌, ◌≢◌, ◌∙◌, ap, Bool, true, false, arith,
}
use mac_osx_vfs_redirector.DataMap.{null}
use mac_osx_vfs_redirector.VnodeHook.Vectors.{
  Ght, Hooking, Vnodes, retain, retrieve_hook_entry, increment_vnode_counter, release_entry,
  hook_vnode_vop, unhook_vnode_vop, unknown_vector,
}
use mac_osx_vfs_redirector.VnodeHook.{Vop}
use mac_osx_vfs_redirector.VnodeMap.{is_vnode_hooked}

module _ {T : Type 0} (ght : Ght T) (vnodes : Vnodes) (offset hook_of : Vop → ℕ) where
  open vnodes use {v_op_of, is_recycled, is_regular_file}

  unhook_not_listed :
      (vn : ℕ) (s : Hooking T)
      → is_vnode_hooked vn s.maps ≡ false
      → unhook_vnode_vop ght vnodes offset hook_of vn s ≡ s
  unfolding unhook_vnode_vop
  unhook_not_listed vn s h = ground (arith, h)

  hook_vnode_vop_again :
      (vn new e : ℕ) (listed : Bool) (s : Hooking T)
      → (v_op_of vn == unknown_vector) ≡ false
      → is_recycled vn ≡ false
      → is_regular_file vn ≡ true
      → ght.get (v_op_of vn) s.table ≡ e
      → e ≢ null
      → hook_vnode_vop ght vnodes offset hook_of new listed vn s
        ≡ ((0, true), release_entry e (increment_vnode_counter e (retain e s)))
  unfolding hook_vnode_vop retrieve_hook_entry
  hook_vnode_vop_again vn new e listed s known in_use regular found h =
      ground (arith, known, in_use, regular, found, h)

  -- A second vnode of a vector is counted, and never uncounted: for a regular file in use that is not
  -- listed as hooked, and whose vector is known and has an entry, hooking succeeds and adds one to the entry's
  -- counter of 32 bits, the entry keeps its count of references, and unhooking the vnode then does
  -- nothing at all.
  pub hook_vnode_vop-counts :
      (vn new e : ℕ) (listed : Bool) (s : Hooking T)
      → (v_op_of vn == unknown_vector) ≡ false
      → is_recycled vn ≡ false
      → is_regular_file vn ≡ true
      → ght.get (v_op_of vn) s.table ≡ e
      → e ≢ null
      → is_vnode_hooked vn s.maps ≡ false
      → let h = hook_vnode_vop ght vnodes offset hook_of new listed vn s in
        (h.0 ≡ (0, true))
        × ((h.1.entry e).vnode_counter ≡ ((s.entry e).vnode_counter + 1) % 2 ^ 32)
        × ((h.1.entry e).references ≡ (s.entry e).references)
        × (unhook_vnode_vop ght vnodes offset hook_of vn h.1 ≡ h.1)
  unfolding release_entry increment_vnode_counter retain
  hook_vnode_vop-counts vn new e listed s known in_use regular found h not_listed =
      let again = hook_vnode_vop_again vn new e listed s known in_use regular found h in
      let hooked = (hook_vnode_vop ght vnodes offset hook_of new listed vn s).1 in
      (
        ap (λ r. r.0) again,
        ap (λ r. (r.1.entry e).vnode_counter) again ∙ ground arith,
        ap (λ r. (r.1.entry e).references) again ∙ ground arith,
        unhook_not_listed vn hooked (ap (λ r. is_vnode_hooked vn r.1.maps) again ∙ not_listed),
      )
