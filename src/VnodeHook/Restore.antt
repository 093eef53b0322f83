-- ===== src/VnodeHook/Restore.antt =====
-- Hooking and then unhooking an operations vector (VNodeHook.cpp).
use mac_osx_vfs_redirector.Base.{
  ℕ, ◌+◌, ◌≡◌, ◌≢◌, refl, sym, subst, ap, ◌∙◌, Bool, true, false, not, ◌&&◌, some, List, [], ◌∷◌,
  ◌==◌, All, if◌then◌else◌, arith, Bool-cases, inl, inr,
}
use mac_osx_vfs_redirector.VnodeHook.{
  Vop, vop_index, same_vop, hook_entries, enum_entries, offset_entries, retrieve, Memory, Originals,
  vop_not_hooked, store, set_original_vop, hook_operation, hook_operations, unhook_operation,
  unhook_operations,
}

-- Two operations have two places in a vector.
pub record DistinctOffsets (offset : Vop → ℕ) : Type 0 where
  pub distinct : (d e : Vop) → vop_index d ≢ vop_index e → offset d ≢ offset e

-- An operation that the tables of enum members and of offsets name.
abbrev pub Resolved : Vop → Type 0
Resolved d = (retrieve d offset_entries ≡ some d) × (retrieve d enum_entries ≡ some d)

abbrev pub Separate : List Vop → Type 0
Separate [] = Unit
Separate (d ∷ l) = All (λ e. vop_index d ≢ vop_index e) l × Separate l

module _ (offset : Vop → ℕ) (hook_of : Vop → ℕ) (v_op : ℕ) where
  hook_operation_lem :
      (d : Vop) (s : Memory × Originals)
      → Resolved d
      → hook_operation offset hook_of d v_op s
        ≡ (store (v_op + offset d) (hook_of d) s.0, set_original_vop d (s.0 (v_op + offset d)) s.1)
  unfolding hook_operation
  hook_operation_lem d s r = rw (r.0, hook_operation) (rw (r.1, hook_operation) refl)

  unhook_operation_lem :
      (d : Vop) (o : Originals) (m : Memory)
      → Resolved d
      → unhook_operation offset d v_op o m
        ≡ (if o d == vop_not_hooked then m else store (v_op + offset d) (o d) m)
  unfolding unhook_operation
  unhook_operation_lem d o m r = rw (r.0, unhook_operation) (rw (r.1, unhook_operation) refl)

  -- What an unhooking leaves at an address depends on what stood there, and on nothing else.
  unhook_pointwise :
      (l : List Vop) (o : Originals) (m n : Memory) (x : ℕ)
      → All Resolved l
      → m x ≡ n x
      → unhook_operations offset l v_op o m x ≡ unhook_operations offset l v_op o n x
  unfolding unhook_operations
  unhook_pointwise [] o m n x r h = h
  unhook_pointwise (d ∷ l) o m n x r h =
      unhook_pointwise l o _ _ x r.1
        (rw (unhook_operation_lem d o m r.0, unhook_operation_lem d o n r.0) (ground (arith, h)))

  unhook_elsewhere :
      (l : List Vop) (o : Originals) (m : Memory) (x : ℕ)
      → All Resolved l
      → All (λ d. x ≢ v_op + offset d) l
      → unhook_operations offset l v_op o m x ≡ m x
  unfolding unhook_operations
  unhook_elsewhere [] o m x r h = refl
  unhook_elsewhere (d ∷ l) o m x r h =
      unhook_elsewhere l o _ x r.1 h.1 ∙ rw (unhook_operation_lem d o m r.0) (ground (arith, h.0))

  pub hook_keeps_original :
      (l : List Vop) (s : Memory × Originals) (e : Vop)
      → All Resolved l
      → All (λ d. vop_index e ≢ vop_index d) l
      → (hook_operations offset hook_of l v_op s).1 e ≡ s.1 e
  unfolding hook_operations
  hook_keeps_original [] s e r h = refl
  hook_keeps_original (d ∷ l) s e r h =
      hook_keeps_original l _ e r.1 h.1 ∙ rw (hook_operation_lem d s r.0) (ground (arith, h.0))

module _ (offset : Vop → ℕ) (v_op : ℕ) (places : DistinctOffsets offset) where
  pub slots_elsewhere :
      (d : Vop) (l : List Vop)
      → All (λ e. vop_index d ≢ vop_index e) l
      → All (λ e. v_op + offset d ≢ v_op + offset e) l
  slots_elsewhere d [] h = tt
  slots_elsewhere d (e ∷ l) h = (omega (arith, places.distinct d e h.0), slots_elsewhere d l h.1)

same_address : (x a : ℕ) → (x == a) ≡ true → x ≡ a
same_address x a h = ground (arith, h)

store_here : (a x : ℕ) (f m : Memory) → (x == a) ≡ true → store a (f a) m x ≡ f x
store_here a x f m h = rw h (ap f (sym (same_address x a h)))

store_elsewhere : (a f x : ℕ) (m : Memory) → (x == a) ≡ false → store a f m x ≡ m x
store_elsewhere a f x m h = rw h

module _ (offset : Vop → ℕ) (hook_of : Vop → ℕ) (v_op : ℕ) (d : Vop) (s : Memory × Originals)
    (resolved : Resolved d) where
  pub hook_memory :
      (x : ℕ)
      → (hook_operation offset hook_of d v_op s).0 x ≡ store (v_op + offset d) (hook_of d) s.0 x
  hook_memory x = ap (λ r. r.0 x) (hook_operation_lem offset hook_of v_op d s resolved)

  pub hook_saves : (hook_operation offset hook_of d v_op s).1 d ≡ s.0 (v_op + offset d)
  hook_saves = ap (λ r. r.1 d) (hook_operation_lem offset hook_of v_op d s resolved) ∙ ground arith

  hook_memory_real :
      ((a : ℕ) → s.0 a ≢ vop_not_hooked)
      → hook_of d ≢ vop_not_hooked
      → (x : ℕ) → (hook_operation offset hook_of d v_op s).0 x ≢ vop_not_hooked
  hook_memory_real real hook x = rw (hook_memory x) (ground (arith, real x, hook))

  unhook_restores :
      (o : Originals) (m : Memory)
      → o d ≡ s.0 (v_op + offset d)
      → s.0 (v_op + offset d) ≢ vop_not_hooked
      → (x : ℕ)
      → unhook_operation offset d v_op o m x ≡ store (v_op + offset d) (s.0 (v_op + offset d)) m x
  unhook_restores o m saved real x =
      ap (λ n. n x) (unhook_operation_lem offset hook_of v_op d o m resolved)
      ∙ ground (arith, saved, real)

module _ (offset : Vop → ℕ) (hook_of : Vop → ℕ) (v_op : ℕ) (places : DistinctOffsets offset) where
  unhook-hook_operations :
      (l : List Vop) (s : Memory × Originals) (x : ℕ)
      → All Resolved l
      → Separate l
      → ((a : ℕ) → s.0 a ≢ vop_not_hooked)
      → ((d : Vop) → hook_of d ≢ vop_not_hooked)
      → let hooked = hook_operations offset hook_of l v_op s in
        unhook_operations offset l v_op hooked.1 hooked.0 x ≡ s.0 x
  unfolding hook_operations unhook_operations
  unhook-hook_operations [] s x r apart real hooks = refl
  unhook-hook_operations (d ∷ l) s x r apart real hooks =
      let a = v_op + offset d in
      let s1 = hook_operation offset hook_of d v_op s in
      let (m, o) = hook_operations offset hook_of l v_op s1 in
      let saved =
        hook_keeps_original offset hook_of v_op l s1 d r.1 apart.0
        ∙ hook_saves offset hook_of v_op d s r.0 in
      let first = unhook_restores offset hook_of v_op d s r.0 o m saved (real a) x in
      elim (Bool-cases (x == a)) [
        | inl here ↦
            let slots =
              subst (λ y. All (λ e. y ≢ v_op + offset e) l) (sym (same_address x a here))
                (slots_elsewhere offset v_op places d l apart.0) in
            unhook_elsewhere offset hook_of v_op l o (unhook_operation offset d v_op o m) x r.1
              slots
            ∙ (first ∙ store_here a x s.0 m here)
        | inr there ↦
            let before = hook_memory_real offset hook_of v_op d s r.0 real (hooks d) in
            unhook_pointwise offset hook_of v_op l o (unhook_operation offset d v_op o m) m x r.1
              (first ∙ store_elsewhere a (s.0 a) x m there)
            ∙ (unhook-hook_operations l s1 x r.1 apart.1 before hooks
                ∙ (hook_memory offset hook_of v_op d s r.0 x
                    ∙ store_elsewhere a (hook_of d) x s.0 there))
      ]

pub hook_entries-Resolved : All Resolved hook_entries
unfolding retrieve
hook_entries-Resolved = (
  (refl, refl),
  (
    (refl, refl),
    (
      (refl, refl),
      (
        (refl, refl),
        (
          (refl, refl),
          (
            (refl, refl),
            (
              (refl, refl),
              (
                (refl, refl),
                ((refl, refl), ((refl, refl), ((refl, refl), ((refl, refl), ((refl, refl), tt))))),
              ),
            ),
          ),
        ),
      ),
    ),
  ),
)

absent : Vop → List Vop → Bool
absent d [] = true
absent d (e ∷ l) = not (same_vop d e) && absent d l

all_apart : List Vop → Bool
all_apart [] = true
all_apart (d ∷ l) = absent d l && all_apart l

absent_lem : (d : Vop) (l : List Vop) → absent d l ≡ true → All (λ e. vop_index d ≢ vop_index e) l
unfolding absent
absent_lem d [] h = tt
absent_lem d (e ∷ l) h = (ground (arith, h), absent_lem d l (ground (arith, h)))

all_apart-Separate : (l : List Vop) → all_apart l ≡ true → Separate l
unfolding all_apart
all_apart-Separate [] h = tt
all_apart-Separate (d ∷ l) h =
    (absent_lem d l (ground (arith, h)), all_apart-Separate l (ground (arith, h)))

pub hook_entries-Separate : Separate hook_entries
unfolding all_apart absent
hook_entries-Separate = all_apart-Separate hook_entries refl

module _ (offset : Vop → ℕ) (hook_of : Vop → ℕ) (v_op : ℕ) where
  -- Unhooking restores the memory: after the hooks of all entries were written into an operations
  -- vector and the saved functions were written back, every address holds what it held before. This is
  -- for offsets that differ, and for functions and hooks none of which is at the address that marks an
  -- operation as not hooked.
  pub unhook-hook_entries :
      DistinctOffsets offset
      → (m : Memory) (empty : Originals) → ((a : ℕ) → m a ≢ vop_not_hooked)
      → ((d : Vop) → hook_of d ≢ vop_not_hooked)
      → (x : ℕ)
      → let hooked = hook_operations offset hook_of hook_entries v_op (m, empty) in
        unhook_operations offset hook_entries v_op hooked.1 hooked.0 x ≡ m x
  unhook-hook_entries places m empty real hooks x =
      unhook-hook_operations offset hook_of v_op places hook_entries (m, empty) x
        hook_entries-Resolved hook_entries-Separate real hooks
