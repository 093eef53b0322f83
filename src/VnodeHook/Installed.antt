-- ===== src/VnodeHook/Installed.antt =====
-- An operations vector while it is hooked (VNodeHook.cpp).
use mac_osx_vfs_redirector.Base.{ℕ, ◌+◌, ◌≡◌, ◌≢◌, refl, ◌∙◌, List, [], ◌∷◌, All, arith}
use mac_osx_vfs_redirector.VnodeHook.Restore.{
  DistinctOffsets, Resolved, Separate, hook_memory, hook_saves, hook_keeps_original,
  slots_elsewhere, hook_entries-Resolved, hook_entries-Separate,
}
use mac_osx_vfs_redirector.VnodeHook.{
  Vop, hook_entries, Memory, Originals, hook_operation, hook_operations,
}

module _ (offset : Vop → ℕ) (hook_of : Vop → ℕ) (v_op : ℕ) where
  hook_elsewhere :
      (l : List Vop) (s : Memory × Originals) (x : ℕ)
      → All Resolved l
      → All (λ d. x ≢ v_op + offset d) l
      → (hook_operations offset hook_of l v_op s).0 x ≡ s.0 x
  unfolding hook_operations
  hook_elsewhere [] s x r h = refl
  hook_elsewhere (d ∷ l) s x r h =
      hook_elsewhere l _ x r.1 h.1
      ∙ (hook_memory offset hook_of v_op d s r.0 x ∙ ground (arith, h.0))

  -- What an entry of the hooked list finds: its hook in the vector, and the function that stood there
  -- among the originals.
  abbrev Installed : (before hooked : Memory × Originals) → Vop → Type 0
  Installed s h d = (h.0 (v_op + offset d) ≡ hook_of d) × (h.1 d ≡ s.0 (v_op + offset d))

  Installed-later :
      (d : Vop) (l : List Vop) (s h : Memory × Originals)
      → Resolved d
      → All (λ e. v_op + offset d ≢ v_op + offset e) l
      → All (Installed (hook_operation offset hook_of d v_op s) h) l
      → All (Installed s h) l
  Installed-later d [] s h r apart i = tt
  Installed-later d (e ∷ l) s h r apart i = (
    (
      i.0.0,
      i.0.1 ∙ (hook_memory offset hook_of v_op d s r (v_op + offset e) ∙ ground (arith, apart.0)),
    ),
    Installed-later d l s h r apart.1 i.1,
  )

module _ (offset : Vop → ℕ) (hook_of : Vop → ℕ) (v_op : ℕ) (places : DistinctOffsets offset) where
  hook_operations-Installed :
      (l : List Vop) (s : Memory × Originals)
      → All Resolved l
      → Separate l
      → All (Installed offset hook_of v_op s (hook_operations offset hook_of l v_op s)) l
  unfolding hook_operations
  hook_operations-Installed [] s r apart = tt
  hook_operations-Installed (d ∷ l) s r apart =
      let s1 = hook_operation offset hook_of d v_op s in
      let slots = slots_elsewhere offset v_op places d l apart.0 in
      (
        (
          hook_elsewhere offset hook_of v_op l s1 (v_op + offset d) r.1 slots
              ∙ (hook_memory offset hook_of v_op d s r.0 (v_op + offset d) ∙ ground arith),
          hook_keeps_original offset hook_of v_op l s1 d r.1 apart.0
              ∙ hook_saves offset hook_of v_op d s r.0,
        ),
        Installed-later offset hook_of v_op d l s (hook_operations offset hook_of l v_op s1) r.0
            slots (hook_operations-Installed l s1 r.1 apart.1),
      )

module _ (offset : Vop → ℕ) (hook_of : Vop → ℕ) (v_op : ℕ) where
  -- While a vector is hooked, every operation of the table of hooks has its hook in the vector, and
  -- the function that stood in its place before is saved as its original. This is for offsets that
  -- differ.
  pub hook_entries-Installed :
      DistinctOffsets offset
      → (s : Memory × Originals)
      → let hooked = hook_operations offset hook_of hook_entries v_op s in
        All
          (λ d. (hooked.0 (v_op + offset d) ≡ hook_of d) × (hooked.1 d ≡ s.0 (v_op + offset d)))
          hook_entries
  hook_entries-Installed places s =
      hook_operations-Installed offset hook_of v_op places hook_entries s hook_entries-Resolved
        hook_entries-Separate
