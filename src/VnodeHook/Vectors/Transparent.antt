-- ===== src/VnodeHook/Vectors/Transparent.antt =====
-- The original operations of a vnode (VNodeHook.cpp 129-223) before and after its vector is hooked.
use mac_osx_vfs_redirector.Base.{
  ℕ, ◌+◌, ◌≡◌, refl, sym, ◌∙◌, ap, ◌==◌, true, false, List, [], ◌∷◌, All, arith,
}
use mac_osx_vfs_redirector.DataMap.{null}
use mac_osx_vfs_redirector.VnodeHook.Installed.{hook_entries-Installed}
use mac_osx_vfs_redirector.VnodeHook.Restore.{DistinctOffsets, Resolved, hook_entries-Resolved}
use mac_osx_vfs_redirector.VnodeHook.Vectors.Steps.{
  GhtLaws, no_originals, HooksFirst, written, JustHooked, hook_vnode_vop-JustHooked,
}
use mac_osx_vfs_redirector.VnodeHook.Vectors.Undone.{JustHooked-found}
use mac_osx_vfs_redirector.VnodeHook.Vectors.{
  Ght, Hooking, Vnodes, retain, retrieve_hook_entry, current_vop, get_original_vnode_op,
  hook_vnode_vop,
}
use mac_osx_vfs_redirector.VnodeHook.{Vop, hook_entries, Memory}

module _ {T : Type 0} (ght : Ght T) (laws : GhtLaws ght) (vnodes : Vnodes)
    (offset hook_of : Vop → ℕ) where
  open vnodes use {v_op_of}

  abbrev original : ℕ → Vop → Hooking T → ℕ
  original vn d s = (get_original_vnode_op ght vnodes offset hook_of vn d s).0

  current_vop_lem :
      (d : Vop) (v_op : ℕ) (m : Memory)
      → Resolved d
      → current_vop ght vnodes offset hook_of v_op d m ≡ m (v_op + offset d)
  unfolding current_vop
  current_vop_lem d v_op m r = rw (r.1, current_vop) (rw (r.0, current_vop) refl)

  pub original_of_unhooked :
      (vn : ℕ) (d : Vop) (s : Hooking T)
      → Resolved d
      → ght.get (v_op_of vn) s.table ≡ null
      → original vn d s ≡ s.memory (v_op_of vn + offset d)
  unfolding get_original_vnode_op retrieve_hook_entry
  original_of_unhooked vn d s r none =
      ground (arith, none) ∙ current_vop_lem d (v_op_of vn) s.memory r

  pub original_of_hooked :
      (vn e : ℕ) (d : Vop) (s : Hooking T)
      → ght.get (v_op_of vn) s.table ≡ e
      → (e == null) ≡ false
      → original vn d s ≡ (s.entry e).originals d
  unfolding get_original_vnode_op retrieve_hook_entry retain
  original_of_hooked vn e d s found real = ground (arith, found, real)

  module _ (vn other new : ℕ) (s : Hooking T)
      (first : HooksFirst ght vnodes offset hook_of vn new s)
      (same_vector : v_op_of other ≡ v_op_of vn) where
    abbrev hooked : Hooking T
    hooked = (hook_vnode_vop ght vnodes offset hook_of new true vn s).1

    hooked-JustHooked : JustHooked ght vnodes offset hook_of true vn new s hooked
    hooked-JustHooked = hook_vnode_vop-JustHooked ght vnodes offset hook_of true vn new s first

    saved_original :
        (d : Vop) → original other d hooked ≡ (written ght vnodes offset hook_of true vn new s).1 d
    saved_original d =
        let found =
          JustHooked-found ght laws vnodes offset hook_of vn new s first hooked hooked-JustHooked in
        original_of_hooked other new d hooked (ap (λ v. ght.get v hooked.table) same_vector ∙ found)
          first.real
        ∙ ap (λ e. e.originals d) hooked-JustHooked.entry_is

    original_before : (d : Vop) → Resolved d → original other d s ≡ s.memory (v_op_of vn + offset d)
    original_before d r =
        original_of_unhooked other d s r (ap (λ v. ght.get v s.table) same_vector ∙ first.no_entry)
        ∙ ap (λ v. s.memory (v + offset d)) same_vector

    same_originals :
        (l : List Vop)
        → All Resolved l
        → let w = written ght vnodes offset hook_of true vn new s in
          All
            (λ d.
              (w.0 (v_op_of vn + offset d) ≡ hook_of d)
              × (w.1 d ≡ s.memory (v_op_of vn + offset d)))
            l
          → All
              (λ d.
                (hooked.memory (v_op_of vn + offset d) ≡ hook_of d)
                × (original other d hooked ≡ original other d s))
              l
    same_originals [] r i = tt
    same_originals (d ∷ l) r i = (
      (
        ap (λ m. m (v_op_of vn + offset d)) hooked-JustHooked.memory_is ∙ i.0.0,
        saved_original d ∙ (i.0.1 ∙ sym (original_before d r.0)),
      ),
      same_originals l r.1 i.1,
    )

  -- Hooking is transparent to what the hooks call: once a vnode has hooked its vector, the vector holds
  -- the hook of each operation of the table of hooks, and for every vnode of that vector the original
  -- of the operation is the function that it was before the hooking. This is for offsets that differ.
  pub get_original_vnode_op-hook_vnode_vop :
      (vn other new : ℕ) (s : Hooking T)
      → HooksFirst ght vnodes offset hook_of vn new s
      → v_op_of other ≡ v_op_of vn
      → DistinctOffsets offset
      → let h = (hook_vnode_vop ght vnodes offset hook_of new true vn s).1 in
        All
          (λ d.
            (h.memory (v_op_of vn + offset d) ≡ hook_of d)
            × ((get_original_vnode_op ght vnodes offset hook_of other d h).0
                ≡ (get_original_vnode_op ght vnodes offset hook_of other d s).0))
          hook_entries
  get_original_vnode_op-hook_vnode_vop vn other new s first same places =
      same_originals vn other new s first same hook_entries hook_entries-Resolved
        (hook_entries-Installed offset hook_of (v_op_of vn) places (s.memory, no_originals))
