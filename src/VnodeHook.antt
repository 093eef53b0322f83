-- ===== src/VnodeHook.antt =====
-- VFSFilter0/VFSFilter0/VNodeHook.cpp and VersionDependent.cpp: the tables of operations, and the two
-- loops that replace the functions of an operations vector and put them back. The loops run under the
-- lock of the table of hooked vectors, which keeps the originals.
pub mod Restore
pub mod Installed
pub mod Vectors
use mac_osx_vfs_redirector.Base.{
  ℕ, ◌+◌, ◌-◌, ◌^◌, Bool, Option, none, some, List, [], ◌∷◌, ◌==◌, if◌then◌else◌,
}

-- An operation of the tables: its `vnodeop_desc`, and its member of `QvrVopEnum`.
pub data Vop : Type 0 where
  lookup create open_file close access inactive reclaim read write pagein pageout strategy mmap
        rename pathconf exchange getattr :
      Vop

-- the value of the member
abbrev pub vop_index : Vop → ℕ
vop_index lookup = 19
vop_index create = 9
vop_index open_file = 27
vop_index close = 7
vop_index access = 1
vop_index inactive = 15
vop_index reclaim = 35
vop_index read = 31
vop_index write = 48
vop_index pagein = 28
vop_index pageout = 29
vop_index strategy = 45
vop_index mmap = 24
vop_index rename = 38
vop_index pathconf = 30
vop_index exchange = 11
vop_index getattr = 13

abbrev pub same_vop : Vop → Vop → Bool
same_vop a b = vop_index a == vop_index b

-- `gQvrVnodeVopHookEntries`, in the order of hooking
abbrev pub hook_entries : List Vop
hook_entries =
    reclaim ∷ read ∷ open_file ∷ write ∷ pagein ∷ pageout ∷ lookup ∷ create ∷ close ∷ inactive
    ∷ rename ∷ exchange ∷ getattr ∷ []

-- `gQvrVnodeVopEnumEntries`, where an operation's entry holds its own member of the enum
abbrev pub enum_entries : List Vop
enum_entries =
    lookup ∷ create ∷ open_file ∷ close ∷ access ∷ inactive ∷ reclaim ∷ read ∷ write ∷ pagein
    ∷ pageout ∷ strategy ∷ mmap ∷ rename ∷ pathconf ∷ exchange ∷ getattr ∷ []

-- `gQvrVnodeOpvOffsetDesc`, where an operation's entry holds its own offset
abbrev pub offset_entries : List Vop
offset_entries =
    lookup ∷ create ∷ open_file ∷ close ∷ inactive ∷ reclaim ∷ read ∷ write ∷ pagein ∷ pageout
    ∷ mmap ∷ rename ∷ exchange ∷ getattr ∷ []

-- `QvrRetriveVnodeOpvEntryDescByVnodeOpDesc` and `QvrRetriveVnodeOpvOffsetDescByVnodeOpDesc`
unfoldable pub retrieve : Vop → List Vop → Option Vop
retrieve d [] = none
retrieve d (e ∷ l) = if same_vop d e then some e else retrieve d l

-- The functions at the addresses of operations vectors, and `origVop` of an entry.
abbrev pub Memory : Type 0
Memory = ℕ → ℕ

abbrev pub Originals : Type 0
Originals = Vop → ℕ

-- `vopNotHooked`
abbrev pub vop_not_hooked : ℕ
vop_not_hooked = 2 ^ 64 - 1

abbrev pub store : ℕ → ℕ → Memory → Memory
store a f m x = if x == a then f else m x

abbrev pub set_original_vop : Vop → ℕ → Originals → Originals
set_original_vop i f o j = if same_vop i j then f else o j

-- The offsets are the kernel's (VNOP_OFFSET), and a hook is the address of a function.
module _ (offset : Vop → ℕ) (hook_of : Vop → ℕ) where
  pub hook_operation : Vop → (v_op : ℕ) → Memory × Originals → Memory × Originals
  hook_operation d v_op s = elim (retrieve d offset_entries) [
    | none ↦ s
    | some o ↦ elim (retrieve o enum_entries) [
      | none ↦ s
      | some i ↦
          (store (v_op + offset o) (hook_of d) s.0, set_original_vop i (s.0 (v_op + offset o)) s.1)
    ]
  ]

  -- the loop of `QvrHookVnodeVop`; the vnode is a regular file there, so no strategy routine is skipped
  unfoldable pub hook_operations : List Vop → (v_op : ℕ) → Memory × Originals → Memory × Originals
  unfolding hook_operation
  hook_operations [] v_op s = s
  hook_operations (d ∷ l) v_op s = hook_operations l v_op (hook_operation d v_op s)

module _ (offset : Vop → ℕ) where
  unhook_operation : Vop → (v_op : ℕ) → Originals → Memory → Memory
  unhook_operation d v_op originals m = elim (retrieve d offset_entries) [
    | none ↦ m
    | some o ↦ elim (retrieve o enum_entries) [
      | none ↦ m
      | some i ↦
          if originals i == vop_not_hooked then m else store (v_op + offset o) (originals i) m
    ]
  ]

  -- the loop of `QvrUnHookVnodeVop`
  unfoldable pub unhook_operations : List Vop → (v_op : ℕ) → Originals → Memory → Memory
  unfolding unhook_operation
  unhook_operations [] v_op originals m = m
  unhook_operations (d ∷ l) v_op originals m =
      unhook_operations l v_op originals (unhook_operation d v_op originals m)
