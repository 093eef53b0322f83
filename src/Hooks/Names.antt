-- ===== src/Hooks/Names.antt =====
-- VFSFilter0/VFSFilter0/VFSHooks.cpp 414-1327 and 2123-2677, the hooks that look up, create and rename
-- by name: what they share.
pub mod Lookup
pub mod Create
pub mod Rename
pub mod Accounts
pub mod Marks
pub mod Safety
use mac_osx_vfs_redirector.Applications.{ApplicationData, application_data_at}
use mac_osx_vfs_redirector.Base.{ℕ, Bool, Option, none, some, List, []}
use mac_osx_vfs_redirector.Event.{
  Vnode, FilePath, Vnop, Opcode, Context, original, caller, requested, entry_barred,
}
use mac_osx_vfs_redirector.Kernel.Calls.{
  step, note, enter_recursion, leave_recursion, lookup_path, call_vnop_for_vnode,
}
use mac_osx_vfs_redirector.Kernel.{Kernel, Hook, pure, ◌>>=◌, ◌>>◌}

-- The componentname of a call: cn_nameiop, and the strings cn_pnbuf and cn_nameptr.
pub record ComponentName : Type 0 where
  pub name_op : ℕ
  pub path : FilePath
  pub name : FilePath

-- The static variables gRedirectionIsNullAndVoid (false) and gSynchroniseWithOriginal (true)
pub record Switches : Type 0 where
  pub redirection_is_null_and_void : Bool
  pub synchronise_with_original : Bool

-- ENOENT, ENFILE, and EJUSTRETURN, which is -2
abbrev pub enoent : ℕ
enoent = 2

abbrev pub enfile : ℕ
enfile = 23

abbrev pub ejustreturn : ℕ
ejustreturn = 0xfffffffe

-- `appData->redirectTo`; the code has tested or asserted that there is application data.
abbrev pub redirect_to : ℕ → FilePath
redirect_to p = elim (application_data_at p) [ none ↦ [] | some app ↦ app.redirect_to ]

module _ {K : Type 0} (kernel : Kernel K) where
  -- A filter request: `isControlledFile` of the reply
  unfoldable pub is_controlled_file : Opcode → FilePath → Hook K Bool
  unfolding note step
  is_controlled_file op path = do note (requested Opcode.filter); step (kernel.filter_reply op path)

  -- `origVnop( ap )` of a lookup or a create
  unfoldable pub original_call : Vnop → Vnode → Hook K (ℕ × Vnode)
  unfolding call_vnop_for_vnode
  original_call op dvp = call_vnop_for_vnode kernel op original dvp caller

  -- the same in a recursive section
  unfoldable pub recursive_call : Vnop → Vnode → Hook K (ℕ × Vnode)
  unfolding enter_recursion leave_recursion original_call
  recursive_call op dvp = do
    enter_recursion kernel (kernel.current_thread)
    r ← original_call op dvp
    leave_recursion kernel
    pure r

  -- `vnode_lookup` in a recursive section
  unfoldable pub recursive_lookup : (cookie : ℕ) → FilePath → Context → Hook K (ℕ × Vnode)
  unfolding enter_recursion leave_recursion lookup_path
  recursive_lookup cookie path c = do
    enter_recursion kernel cookie
    r ← lookup_path kernel path c
    leave_recursion kernel
    pure r
