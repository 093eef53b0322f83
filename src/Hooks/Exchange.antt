-- ===== src/Hooks/Exchange.antt =====
-- VFSFilter0/VFSFilter0/VFSHooks.cpp 2681-2805, the exchange of two files: QvrVnopExchangeHookEx2.
pub mod References
pub mod Marks
use mac_osx_vfs_redirector.Applications.{application_data_at, ApplicationData, open_existing}
use mac_osx_vfs_redirector.Base.{ℕ, ◌==◌, ◌||◌, not, Bool, false, Option, none, some, if◌then◌else◌}
use mac_osx_vfs_redirector.DataMap.{null}
use mac_osx_vfs_redirector.Event.{Vnode, Vnop, Opcode, original, caller, requested}
use mac_osx_vfs_redirector.Hooks.{vnode_app_data, enomem}
use mac_osx_vfs_redirector.Kernel.Calls.{
  ask, step, note, malloc, is_recursive, is_user_client, application_by_context, call_vnop,
  from_maps, on_maps,
}
use mac_osx_vfs_redirector.Kernel.{Kernel, Hook, pure, ◌>>=◌, ◌>>◌}
use mac_osx_vfs_redirector.VnodeMap.{get_vnode_io_ref, put_unless_null}

-- `!appData || !appData->redirectIO`
abbrev pub redirects_io : Option ApplicationData → Bool
redirects_io none = false
redirects_io (some app) = app.redirect_io

module _ {K : Type 0} (kernel : Kernel K) where
  -- `QvrPreOperationCallbackAndWaitForReply` of a request whose reply carries nothing
  unfoldable pub request : Opcode → Hook K (Unit {0})
  unfolding note step
  request op = do note (requested op); step (λ k. (tt, kernel.client_work op k))

  -- tells the client which backing files are about to be exchanged
  unfoldable pub announce_exchange : (from to : Vnode) → Hook K ℕ
  unfolding malloc ask request
  announce_exchange from to = do
    from_allocated ← malloc kernel
    to_allocated ← malloc kernel
    from_path ← ask (kernel.vn_getpath from)
    to_path ← ask (kernel.vn_getpath to)
    if not from_allocated || not to_allocated
        then pure enomem
        else if not (from_path.0 == 0)
        then pure (from_path.0)
        else if not (to_path.0 == 0)
        then pure (to_path.0)
        else do request Opcode.exchange; pure 0

  unfoldable pub exchange_redirected : (fvp tvp : Vnode) → Hook K ℕ
  unfolding from_maps announce_exchange call_vnop on_maps
  exchange_redirected fvp tvp = do
    from ← from_maps (get_vnode_io_ref fvp)
    to ← if from == null then pure null else from_maps (get_vnode_io_ref tvp)
    e ← if to == null then pure 0 else announce_exchange from to
    result ← if e == 0 then call_vnop kernel Vnop.exchange original fvp caller else pure e
    on_maps (put_unless_null from)
    on_maps (put_unless_null to)
    pure result

  -- the application of the vnode, and else of the process
  unfoldable pub application_of_exchange : Vnode → Hook K ℕ
  unfolding vnode_app_data application_by_context
  application_of_exchange fvp = do
    p ← vnode_app_data fvp
    if p == null then application_by_context kernel open_existing else pure p

  -- `QvrVnopExchangeHookEx2`
  unfoldable pub exchange_hook : (fvp tvp : Vnode) → Hook K ℕ
  unfolding application_of_exchange is_recursive is_user_client call_vnop exchange_redirected
  exchange_hook fvp tvp = do
    p ← application_of_exchange fvp
    recursive ← is_recursive kernel
    client ← is_user_client kernel
    if not (redirects_io (application_data_at p)) || recursive || client
        then call_vnop kernel Vnop.exchange original fvp caller
        else exchange_redirected fvp tvp
