-- ===== src/Kernel/Calls.antt =====
-- The calls that a hook makes (VFSHooks.cpp): each is one step of the world, which logs what it did.
use mac_osx_vfs_redirector.Applications.{Adt, get_application_data_by_context}
use mac_osx_vfs_redirector.Base.{ℕ, Bool, ◌∷◌, ◌==◌, if◌then◌else◌}
use mac_osx_vfs_redirector.DataMap.{null}
use mac_osx_vfs_redirector.Event.{
  Vnode, FilePath, Vnop, Callee, Context, Opcode, UplFlags, Event, looked_up, opened, closed,
  called, audited, upl_created, upl_aborted, transferred,
}
use mac_osx_vfs_redirector.Kernel.{Kernel, Hook, pure, ◌>>=◌, ◌>>◌}
use mac_osx_vfs_redirector.Recursion.{
  cookie_for_recursive_call, is_recursive_call, enter_recursive_call, leave_recursive_call,
}
use mac_osx_vfs_redirector.VnodeMap
use mac_osx_vfs_redirector.VnodeMap.{VnodeMap}

module _ {K : Type 0} where
  -- What a question to the kernel answers.
  unfoldable pub ask : {A : Type 0} → (K → A) → Hook K A
  ask f w = (f w.kernel, w)

  -- A kernel call that changes the kernel's state.
  unfoldable pub step : {A : Type 0} → (K → A × K) → Hook K A
  step f w = let (a, k) = f w.kernel in (a, record w { kernel = k })

  unfoldable pub note : Event → Hook K (Unit {0})
  note e w = (tt, record w { maps = record (w.maps) { log = e ∷ w.maps.log } })

  -- A method of VNodeMap.
  unfoldable pub on_maps : (VnodeMap → VnodeMap) → Hook K (Unit {0})
  on_maps f w = (tt, record w { maps = f w.maps })

  unfoldable pub from_maps : {A : Type 0} → (VnodeMap → A × VnodeMap) → Hook K A
  from_maps f w = let (a, m) = f w.maps in (a, record w { maps = m })

  -- `vnode_get( v )`
  unfoldable pub get_vnode : Vnode → Hook K (Unit {0})
  unfolding on_maps
  get_vnode v = on_maps (VnodeMap.vnode_get v)

  -- `vnode_close( v, .. )`
  unfoldable pub close_vnode : Vnode → Hook K (Unit {0})
  unfolding note
  close_vnode v = note (closed v)

  -- `gVnodeGate->sendVFSDataToClient( &audit )`
  unfoldable pub audit : Opcode → Hook K (Unit {0})
  unfolding note
  audit op = note (audited op)

  unfoldable pub put : Vnode → Hook K (Unit {0})
  unfolding on_maps
  put v = on_maps (VnodeMap.vnode_put v)

  -- `if( upl ) ubc_upl_abort_range( upl, .. )`
  unfoldable pub abort_upl_unless_null : ℕ → Hook K (Unit {0})
  unfolding note
  abort_upl_unless_null upl = if upl == null then pure tt else note (upl_aborted upl)

module _ {K : Type 0} (kernel : Kernel K) where
  open kernel use {current_thread}

  -- `RecursionEngine::IsRecursiveCall()`
  unfoldable pub is_recursive : Hook K Bool
  is_recursive w = (is_recursive_call current_thread w.recursion, w)

  unfoldable pub is_user_client : Hook K Bool
  unfolding ask
  is_user_client = ask kernel.is_user_client

  -- `RecursionEngine::EnterRecursiveCall( cookie )`
  unfoldable pub enter_recursion : (cookie : ℕ) → Hook K (Unit {0})
  unfolding step
  enter_recursion cookie = do
    a ← step kernel.malloc
    λ w. (tt, record w { recursion = enter_recursive_call a current_thread cookie w.recursion })

  unfoldable pub leave_recursion : Hook K (Unit {0})
  leave_recursion w = (tt, record w { recursion = leave_recursive_call current_thread w.recursion })

  -- `QvrGetApplicationDataByContext( ap->a_context, type )`
  unfoldable pub application_by_context : Adt → Hook K ℕ
  application_by_context t w = (get_application_data_by_context (kernel.process_name w.kernel) t, w)

  unfoldable pub lookup_path : FilePath → Context → Hook K (ℕ × Vnode)
  unfolding step note
  lookup_path p c = do r ← step (kernel.vnode_lookup p c); note (looked_up p (r.0) (r.1)); pure r

  -- A vnode operation that returns an error only.
  unfoldable pub call_vnop : Vnop → Callee → Vnode → Context → Hook K ℕ
  unfolding step note is_recursive
  call_vnop op f v c = do
    recursive ← is_recursive
    r ← step (kernel.vnop op f v c)
    note (called op f v c recursive r.0 null)
    pure (r.0)

  -- An answer of IOMalloc, and what is done with the memory.
  unfoldable pub malloc : Hook K Bool
  unfolding step
  malloc = step kernel.malloc

  -- `ubc_create_upl`
  unfoldable pub create_upl : Vnode → (offset size : ℕ) → UplFlags → Hook K (ℕ × ℕ)
  unfolding step note
  create_upl v offset size flags = do
    r ← step (kernel.ubc_create_upl v offset size flags)
    note (upl_created v (r.1) (r.0))
    pure r

  -- `vn_rdwr` between a file and a mapped UPL
  unfoldable pub transfer : Opcode → Vnode → (offset size : ℕ) → Hook K ℕ
  unfolding step note
  transfer op v offset size = do
    e ← step (kernel.vn_rdwr op v offset size)
    note (transferred op v e)
    pure e

  -- `VNodeMap::addVnodeIO`
  unfoldable pub map_add_vnode_io : Vnode → Vnode → Hook K (Unit {0})
  unfolding step on_maps
  map_add_vnode_io vn io = do a ← step kernel.malloc; on_maps (VnodeMap.add_vnode_io a vn io)

  -- `RecursionEngine::CookieForRecursiveCall()`
  unfoldable pub recursion_cookie : Hook K ℕ
  recursion_cookie w = (cookie_for_recursive_call current_thread w.recursion, w)

  -- A vnode operation that returns a vnode too.
  unfoldable pub call_vnop_for_vnode : Vnop → Callee → Vnode → Context → Hook K (ℕ × Vnode)
  unfolding step note is_recursive
  call_vnop_for_vnode op f v c = do
    recursive ← is_recursive
    r ← step (kernel.vnop op f v c)
    note (called op f v c recursive (r.0) (r.1))
    pure r

  -- `vnode_open` of a path
  unfoldable pub open_path : FilePath → Hook K (ℕ × Vnode)
  unfolding step note
  open_path p = do r ← step (kernel.vnode_open p); note (opened p (r.0) (r.1)); pure r

  -- `VNodeMap::addVnodeAppData`
  unfoldable pub map_add_vnode_app_data : Vnode → (app : ℕ) → Hook K (Unit {0})
  unfolding step on_maps
  map_add_vnode_app_data vn app = do
    a ← step kernel.malloc
    on_maps (VnodeMap.add_vnode_app_data a vn app)

  -- `VNodeMap::addVnodeShadowReverse`
  unfoldable pub map_add_vnode_shadow_reverse : (shadow vn : Vnode) → Hook K (Unit {0})
  unfolding step on_maps
  map_add_vnode_shadow_reverse shadow vn = do
    a ← step kernel.malloc
    on_maps (VnodeMap.add_vnode_shadow_reverse a shadow vn)
