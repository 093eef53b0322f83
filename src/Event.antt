-- ===== src/Event.antt =====
-- What the redirector asks of the kernel, as a log with the newest event first. The calls are of
-- kernel functions, which are not part of the repository; the log keeps what the redirector passes
-- and what it is given back. A reference is an iocount on a vnode.
use mac_osx_vfs_redirector.Base.{ℕ, ◌+◌, Bool, true, false, List, [], ◌∷◌, ◌&&◌, ◌==◌}

-- A vnode is an address, NULLVP is 0; a path is the bytes before its terminating zero.
abbrev pub Vnode : Type 0
Vnode = ℕ

abbrev pub FilePath : Type 0
FilePath = List ℕ

-- The vnode operations that are hooked (VFSHooks.cpp).
pub data Vnop : Type 0 where
  reclaim read open_file write pagein pageout lookup create close inactive rename exchange getattr :
      Vnop

-- Whose function is called: the one that hooking saved for the vnode of the call
-- (QvrGetOriginalVnodeOp), or the one in the operations vector of the vnode named (QvrGetVnop).
pub data Callee : Type 0 where
  original : Callee
  vector_of : Vnode → Callee

-- The VFS context of a call: the caller's, or gSuperUserContext.
pub data Context : Type 0 where
  caller super_user : Context

-- The flags of the UPLs that are created: UPL_UBC_PAGEIN, alone and with UPL_RET_ONLY_ABSENT, and
-- UPL_UBC_PAGEOUT and UPL_UBC_MSYNC, alone and with UPL_RET_ONLY_DIRTY.
pub data UplFlags : Type 0 where
  ubc_pagein ubc_pagein_absent ubc_pageout ubc_pageout_dirty ubc_msync ubc_msync_dirty : UplFlags

-- `VFSOpcode` of VFSFilter0UserClientInterface.h
pub data Opcode : Type 0 where
  unknown lookup create read write rename exchange open_file filter : Opcode

pub data Event : Type 0 where
  -- vnode_get, vnode_put
  get : Vnode → Event
  put : Vnode → Event
  -- vnode_lookup and vnode_open, with the error and the vnode that they returned
  looked_up : FilePath → ℕ → Vnode → Event
  opened : FilePath → ℕ → Vnode → Event
  -- vnode_close, which ends in vnode_put
  closed : Vnode → Event
  -- a vnode operation on a vnode in a context, whether the thread was marked recursive, its error,
  -- and the vnode that it returned (0 for the operations that return none)
  called : Vnop → Callee → Vnode → Context → (recursive : Bool) → ℕ → Vnode → Event
  -- an audit record for the client, and a pre-operation request that waits for its reply
  audited : Opcode → Event
  requested : Opcode → Event
  -- a UPL created over a vnode, with the error, and the UPL given back by ubc_upl_abort_range
  upl_created : Vnode → (upl error : ℕ) → Event
  upl_aborted : (upl : ℕ) → Event
  -- vn_rdwr between a mapped UPL and a vnode, with its error
  transferred : Opcode → Vnode → ℕ → Event
  -- QvrVnodeSetsize
  resized : Vnode → (size : ℕ) → Event
  -- cluster_push, vnode_recycle, cache_purge
  pushed : Vnode → Event
  recycled : Vnode → Event
  purged : Vnode → Event
  -- what a hook writes to the componentname of its call: cn_nameiop, and cn_flags without MAKEENTRY
  name_op_set : ℕ → Event
  entry_barred : Event

abbrev pub one_if : Bool → ℕ
one_if true = 1
one_if false = 0

-- How many references to a vnode an event takes. A lookup or an open that fails returns none.
abbrev pub takes : Vnode → Event → ℕ
takes v (Event.get x) = one_if (x == v)
takes v (looked_up p e x) = one_if (e == 0 && x == v)
takes v (opened p e x) = one_if (e == 0 && x == v)
takes v (called op f x c r e y) = one_if (e == 0 && y == v)
takes v _ = 0

abbrev pub drops : Vnode → Event → ℕ
drops v (Event.put x) = one_if (x == v)
drops v (closed x) = one_if (x == v)
drops v _ = 0

abbrev pub taken : Vnode → List Event → ℕ
taken v [] = 0
taken v (e ∷ l) = takes v e + taken v l

abbrev pub dropped : Vnode → List Event → ℕ
dropped v [] = 0
dropped v (e ∷ l) = drops v e + dropped v l
