-- ===== src/Hooks.antt =====
-- VFSFilter0/VFSFilter0/VFSHooks.cpp, the hooks of vnode operations: what each hook shares.
pub mod Backing
pub mod References
pub mod Marks
pub mod PassThrough
pub mod Reclaim
pub mod Session
pub mod Io
pub mod Paging
pub mod Life
pub mod Getattr
pub mod Exchange
pub mod Names
use mac_osx_vfs_redirector.Applications.{ApplicationData, application_data_at}
use mac_osx_vfs_redirector.Base.{ℕ, Bool, true, false, ◌&&◌, not, Option, none, some, if◌then◌else◌}
use mac_osx_vfs_redirector.Event.{Vnode}
use mac_osx_vfs_redirector.Kernel.Calls.{is_recursive, is_user_client, from_maps}
use mac_osx_vfs_redirector.Kernel.{Kernel, Hook, pure, ◌>>=◌}
use mac_osx_vfs_redirector.VnodeMap.{get_vnode_app_data}

abbrev pub enodata : ℕ
enodata = 96

abbrev pub enodev : ℕ
enodev = 19

abbrev pub enomem : ℕ
enomem = 12

module _ {K : Type 0} where
  -- `VNodeMap::getVnodeAppData( vn )`; the maps hold pointers into the table only
  unfoldable pub vnode_app_data : Vnode → Hook K ℕ
  unfolding from_maps
  vnode_app_data vn = from_maps (λ s. (get_vnode_app_data vn s, s))

-- `appData && !RecursionEngine::IsRecursiveCall() && !IsUserClient()`, and what it guards
unfoldable pub if_controlled :
    {K A : Type 0}
    → Kernel K
    → Option ApplicationData
    → (ApplicationData → Hook K A)
    → Hook K A
    → Hook K A
unfolding is_recursive is_user_client
if_controlled kernel none controlled passed = passed
if_controlled kernel (some app) controlled passed = do
  recursive ← is_recursive kernel
  client ← is_user_client kernel
  if not recursive && not client then controlled app else passed
