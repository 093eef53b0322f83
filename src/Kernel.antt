-- ===== src/Kernel.antt =====
-- The kernel as the hooks of VFSHooks.cpp use it. What a call answers and does to the kernel's own
-- state is a parameter; the hooks' maps, their recursion marks and the log of calls are the model's.
-- No other thread runs between two calls of one hook, and the kernel changes none of the maps: the
-- calls that come back into a hook find the thread marked recursive.
pub mod Calls
pub mod Accounts
pub mod Quiet
pub mod Marks
use mac_osx_vfs_redirector.Base.{ℕ, Bool, Option, List}
use mac_osx_vfs_redirector.DataMap.{DataMap}
use mac_osx_vfs_redirector.Event.{Vnode, FilePath, Vnop, Callee, Context, Opcode, UplFlags}
use mac_osx_vfs_redirector.VnodeMap.{VnodeMap}

-- vnode_vtype
pub data Vtype : Type 0 where
  vreg vdir vother : Vtype

-- The sizes of `struct vnode_attr`
pub record Attributes : Type 0 where
  pub total_size : ℕ
  pub total_alloc : ℕ
  pub data_size : ℕ
  pub data_alloc : ℕ

pub record Kernel (K : Type 0) : Type 0 where
  -- current_thread, an address
  pub current_thread : ℕ
  -- IOMalloc: whether memory was given
  pub malloc : K → Bool × K
  -- proc_name and OSSymbol::withCString for the context's process
  pub process_name : K → Option (List ℕ)
  -- com_VFSFilter0::IsUserClient: the current process is the client's
  pub is_user_client : K → Bool
  pub vnode_vtype : Vnode → K → Vtype
  -- the error and the path
  pub vn_getpath : Vnode → K → ℕ × FilePath
  -- the error and the vnode
  pub vnode_lookup : FilePath → Context → K → (ℕ × Vnode) × K
  -- with O_CREAT | O_TRUNC and gSuperUserContext
  pub vnode_open : FilePath → K → (ℕ × Vnode) × K
  -- i386_round_page
  pub round_page : ℕ → ℕ
  -- a vnode operation: the error and the vnode returned
  pub vnop : Vnop → Callee → Vnode → Context → K → (ℕ × Vnode) × K
  -- QvrVnodeGetSize: the error and the size
  pub get_size : Vnode → Context → K → ℕ × ℕ
  pub set_size : Vnode → ℕ → Context → K → ℕ × K
  -- the reply to a filter request: isControlledFile, false when there is no client
  pub filter_reply : Opcode → FilePath → K → Bool × K
  -- the client's work for a request of another kind
  pub client_work : Opcode → K → K
  -- ubc_pages_resident after ubc_msync with UBC_INVALIDATE
  pub invalidate_pages : Vnode → ℕ → K → Bool × K
  -- the error and the UPL
  pub ubc_create_upl : Vnode → (offset size : ℕ) → UplFlags → K → (ℕ × ℕ) × K
  -- the error
  pub ubc_upl_map : ℕ → K → ℕ × K
  -- vn_rdwr between a mapped UPL and a file
  pub vn_rdwr : Opcode → Vnode → (offset size : ℕ) → K → ℕ × K
  -- the getattr operation of a vnode, and vnode_getattr: the error and the attributes
  pub getattr_vnop : Callee → Vnode → Context → K → (ℕ × Attributes) × K
  pub vnode_getattr : Vnode → Context → K → (ℕ × Attributes) × K
  -- QvrGetVnodeVfsFlags of the vnode has the bit VFC_VFSVNOP_PAGEINV2, VFC_VFSVNOP_PAGEOUTV2
  pub supports_pagein_v2 : Vnode → K → Bool
  pub supports_pageout_v2 : Vnode → K → Bool
  -- the cn_nameiop of the componentname at an address
  pub name_op_at : ℕ → K → ℕ

pub record World (K : Type 0) : Type 0 where
  pub kernel : K
  pub maps : VnodeMap
  pub recursion : DataMap

-- A hook's step: a change of the world, with a result.
abbrev pub Hook : Type 0 → Type 0 → Type 0
Hook K A = World K → A × World K

module _ {K : Type 0} where
  unfoldable pub pure : {A : Type 0} → A → Hook K A
  pure a w = (a, w)

  infixl 5 ◌>>=◌ ◌>>◌
  unfoldable pub ◌>>=◌ : {A B : Type 0} → Hook K A → (A → Hook K B) → Hook K B
  ◌>>=◌ m f w = let (a, w') = m w in f a w'

  abbrev pub ◌>>◌ : {B : Type 0} → Hook K (Unit {0}) → Hook K B → Hook K B
  m >> k = m >>= λ _. k
