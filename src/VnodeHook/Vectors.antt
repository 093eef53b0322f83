-- ===== src/VnodeHook/Vectors.antt =====
-- VFSFilter0/VFSFilter0/VNodeHook.cpp 129-679 and 826-905, VNodeHook.h 100-222, and the reclaim hook
-- (VFSHooks.cpp 2924-2957): the table of hooked operations vectors, the entries with their counters of
-- vnodes, and the hooks of a vnode. Each function runs as a whole. The hash table is libghthash's and a
-- parameter; the entries are shared objects, given by their addresses.
pub mod Steps
pub mod Undone
pub mod Counters
pub mod Transparent
pub mod Reclaimed
use mac_osx_vfs_redirector.Base.{
  ℕ, ◌+◌, ◌-◌, ◌^◌, ◌%◌, ◌≡◌, ◌≢◌, Bool, true, false, not, ◌||◌, Option, none, some, ◌==◌,
  if◌then◌else◌,
}
use mac_osx_vfs_redirector.DataMap.{null}
use mac_osx_vfs_redirector.Event.{Vnode}
use mac_osx_vfs_redirector.VnodeHook.{
  Vop, hook_entries, enum_entries, offset_entries, retrieve, Memory, Originals, hook_operations,
  unhook_operations,
}
use mac_osx_vfs_redirector.VnodeMap.{
  VnodeMap, add_hooked_vnode, remove_hooked_vnode, is_vnode_hooked, remove_vnode_app_data,
  remove_vnode_io, remove_shadow_reverse,
}

-- ght_get, ght_insert (whether it returned GHT_OK) and ght_remove, from addresses of vectors to those of
-- entries; NULL is no entry.
pub record Ght (T : Type 0) : Type 0 where
  pub get : ℕ → T → ℕ
  pub insert : (key entry : ℕ) → T → Bool × T
  pub remove : ℕ → T → ℕ × T

-- `QvrVnodeHookEntry`; `references` is the count of OSObject.
pub record HookEntry : Type 0 where
  pub vnode_counter : ℕ
  pub originals : Originals
  pub references : ℕ

pub record Hooking (T : Type 0) : Type 0 where
  pub table : T
  pub entry : ℕ → HookEntry
  pub memory : Memory
  pub maps : VnodeMap

-- QvrGetVnodeOpVector, whether vnode_vtype is VREG, vnode_isrecycled, and vnode_getparent
pub record Vnodes : Type 0 where
  pub v_op_of : Vnode → ℕ
  pub is_regular_file : Vnode → Bool
  pub is_recycled : Vnode → Bool
  pub parent_of : Vnode → Vnode

-- QVR_VOP_UNKNOWN_OFFSET, and kIOReturnError, kIOReturnNoDevice and kIOReturnNoMemory
abbrev pub unknown_vector : ℕ
unknown_vector = 2 ^ 64 - 1

abbrev pub general_error : ℕ
general_error = 0xe00002bc

abbrev pub no_device : ℕ
no_device = 0xe00002c0

abbrev pub no_memory : ℕ
no_memory = 0xe00002bd

module _ {T : Type 0} where
  abbrev pub set_entry : ℕ → HookEntry → Hooking T → Hooking T
  set_entry e x s = record s { entry = λ a. if a == e then x else s.entry a }

  -- OSObject::retain and OSObject::release
  unfoldable pub retain : ℕ → Hooking T → Hooking T
  retain e s = set_entry e (record (s.entry e) { references = (s.entry e).references + 1 }) s

  unfoldable pub release_entry : ℕ → Hooking T → Hooking T
  release_entry e s = set_entry e (record (s.entry e) { references = (s.entry e).references - 1 }) s

  -- `newEntry`, at the address that was allocated
  unfoldable pub new_entry : ℕ → Hooking T → Hooking T
  new_entry e s = set_entry e (record { vnode_counter = 0; originals = λ i. 0; references = 1 }) s

  -- a counter of 32 bits
  unfoldable pub increment_vnode_counter : ℕ → Hooking T → Hooking T
  increment_vnode_counter e s =
      set_entry e (record (s.entry e) { vnode_counter = ((s.entry e).vnode_counter + 1) % 2 ^ 32 })
        s

  -- with the value before
  unfoldable pub decrement_vnode_counter : ℕ → Hooking T → ℕ × Hooking T
  decrement_vnode_counter e s =
      let before = (s.entry e).vnode_counter in
      (
        before,
        set_entry e (record (s.entry e) { vnode_counter = (before + (2 ^ 32 - 1)) % 2 ^ 32 }) s,
      )

module _ {T : Type 0} (ght : Ght T) where
  unfoldable pub add_hook_entry : (v_op e : ℕ) → Hooking T → Bool × Hooking T
  unfolding retain
  add_hook_entry v_op e s =
      let (ok, t) = ght.insert v_op e s.table in
      let s' = record s { table = t } in (ok, if ok then retain e s' else s')

  -- the entry that is returned keeps the table's reference
  unfoldable pub remove_hook_entry : (v_op : ℕ) → Hooking T → ℕ × Hooking T
  remove_hook_entry v_op s = let (e, t) = ght.remove v_op s.table in (e, record s { table = t })

  unfoldable pub retrieve_hook_entry : (v_op : ℕ) → (reference : Bool) → Hooking T → ℕ × Hooking T
  unfolding retain
  retrieve_hook_entry v_op reference s =
      let e = ght.get v_op s.table in
      (e, if e == null then s else if reference then retain e s else s)

module _ {T : Type 0} (ght : Ght T) (vnodes : Vnodes) (offset hook_of : Vop → ℕ) where
  open vnodes use {v_op_of, is_regular_file, is_recycled, parent_of}

  -- `*(VOPFUNC*)((vm_offset_t)v_op + offsetDescEntry->offset)` for a member of the enum; NULL where the
  -- tables have no entry, which is asserted
  unfoldable pub current_vop : (v_op : ℕ) → Vop → Memory → ℕ
  current_vop v_op i m = elim (retrieve i enum_entries) [
    | none ↦ null
    | some e ↦ elim (retrieve e offset_entries) [ none ↦ null | some o ↦ m (v_op + offset o) ]
  ]

  -- `QvrGetOriginalVnodeOp`. No other thread runs between its two lookups, which agree.
  unfoldable pub get_original_vnode_op : Vnode → Vop → Hooking T → ℕ × Hooking T
  unfolding retrieve_hook_entry release_entry current_vop
  get_original_vnode_op vn i s =
      let (e, s') = retrieve_hook_entry ght (v_op_of vn) true s in
      if e == null
      then (current_vop (v_op_of vn) i s.memory, s)
      else ((s'.entry e).originals i, release_entry e s')

  -- the loop that writes the hooks, for a new entry
  unfoldable pub hook_vector : (v_op e : ℕ) → Hooking T → Hooking T
  hook_vector v_op e s =
      let (m, o) =
        hook_operations offset hook_of hook_entries v_op (s.memory, (s.entry e).originals) in
      set_entry e (record (s.entry e) { originals = o }) (record s { memory = m })

  -- under the exclusive lock: the result
  unfoldable pub hook_exclusive : (v_op new : ℕ) → Hooking T → ℕ × Hooking T
  unfolding retrieve_hook_entry increment_vnode_counter add_hook_entry hook_vector
  hook_exclusive v_op new s =
      let (e, s') = retrieve_hook_entry ght v_op false s in
      if not (e == null)
      then (0, increment_vnode_counter e s')
      else let (ok, s1) = add_hook_entry ght v_op new s' in
        if ok then (0, hook_vector v_op new (increment_vnode_counter new s1)) else (no_memory, s1)

  -- `QvrHookVnodeVop`: the result and `*isVopHooked`; the table of vectors exists. `new` is the address of a new entry, NULL where
  -- there is no memory for it, and `listed` whether there is memory for the vnode's entry.
  unfoldable pub hook_vnode_vop :
      (new : ℕ) (listed : Bool) → Vnode → Hooking T → (ℕ × Bool) × Hooking T
  unfolding retrieve_hook_entry increment_vnode_counter release_entry new_entry hook_exclusive
  hook_vnode_vop new listed vn s =
      let (e, s') = retrieve_hook_entry ght (v_op_of vn) true s in
      let (rc, s1) = hook_exclusive (v_op_of vn) new (new_entry new s') in
      let s2 = release_entry new s1 in
      if v_op_of vn == unknown_vector
      then ((general_error, false), s)
      else if is_recycled vn
      then ((no_device, false), s)
      else if not (is_regular_file vn)
      then ((0, false), s)
      else if not (e == null)
      then ((0, true), release_entry e (increment_vnode_counter e s'))
      else if new == null
      then ((no_memory, false), s')
      else if rc == 0
      then ((0, true), record s2 { maps = add_hooked_vnode listed vn s2.maps })
      else ((rc, false), s2)

  -- under the exclusive lock, for an entry whose counter fell to 0
  unfoldable pub unhook_exclusive : (v_op e : ℕ) → Hooking T → Hooking T
  unfolding release_entry remove_hook_entry
  unhook_exclusive v_op e s =
      let (removed, s') = remove_hook_entry ght v_op (release_entry e s) in
      if not ((s.entry e).vnode_counter == 0)
      then release_entry e s
      else if removed == null
      then s'
      else release_entry removed (record s' {
        memory = unhook_operations offset hook_entries v_op (s'.entry removed).originals s'.memory;
      })

  -- `QvrUnHookVnodeVop`
  unfoldable pub unhook_vnode_vop : Vnode → Hooking T → Hooking T
  unfolding retrieve_hook_entry decrement_vnode_counter release_entry unhook_exclusive
  unhook_vnode_vop vn s =
      let (e, s1) = retrieve_hook_entry ght (v_op_of vn) true s in
      let s2 = record s1 { maps = remove_hooked_vnode vn s1.maps } in
      let (before, s3) = decrement_vnode_counter e s2 in
      if not (is_regular_file vn) || not (is_vnode_hooked vn s.maps)
      then s
      else if v_op_of vn == unknown_vector
      then s
      else if e == null
      then s1
      else if not (before == 1)
      then release_entry e s3
      else unhook_exclusive (v_op_of vn) e s3

  -- `QvrHookVnodeVopAndParent`; the parent's reference is put at once
  unfoldable pub hook_vnode_vop_and_parent :
      (new new_of_parent : ℕ) (listed parent_listed : Bool) → Vnode → Hooking T → Hooking T
  unfolding hook_vnode_vop
  hook_vnode_vop_and_parent new new_of_parent listed parent_listed vn s =
      let s' = (hook_vnode_vop new listed vn s).1 in
      if parent_of vn == null
      then s'
      else (hook_vnode_vop new_of_parent parent_listed (parent_of vn) s').1

  -- `QvrUnHookVnodeVopAndParent`
  unfoldable pub unhook_vnode_vop_and_parent : Vnode → Hooking T → Hooking T
  unfolding unhook_vnode_vop
  unhook_vnode_vop_and_parent vn s =
      let s' = unhook_vnode_vop vn s in
      if parent_of vn == null then s' else unhook_vnode_vop (parent_of vn) s'

  -- `QvrFsdReclaimHookEx2` up to the original operation, whose address is the result
  unfoldable pub reclaim_hook : Vnode → Hooking T → ℕ × Hooking T
  unfolding get_original_vnode_op unhook_vnode_vop_and_parent
  reclaim_hook vn s =
      let (original, s1) = get_original_vnode_op vn Vop.reclaim s in
      let s2 = unhook_vnode_vop_and_parent vn s1 in
      (
        original,
        record s2 {
          maps = remove_shadow_reverse vn (remove_vnode_io vn (remove_vnode_app_data vn s2.maps));
        },
      )
