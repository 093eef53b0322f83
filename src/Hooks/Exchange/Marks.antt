-- ===== src/Hooks/Exchange/Marks.antt =====
-- The recursion mark over an exchange (VFSHooks.cpp, QvrVnopExchangeHookEx2).
use mac_osx_vfs_redirector.Applications.{application_data_at, open_existing}
use mac_osx_vfs_redirector.Base.{◌≢◌, ◌==◌, ◌||◌, not}
use mac_osx_vfs_redirector.DataMap.{null}
use mac_osx_vfs_redirector.Event.{Vnode, Vnop, Opcode, original, caller, requested}
use mac_osx_vfs_redirector.Hooks.Exchange.{
  redirects_io, request, announce_exchange, exchange_redirected, application_of_exchange,
  exchange_hook,
}
use mac_osx_vfs_redirector.Hooks.{enomem}
use mac_osx_vfs_redirector.Kernel.{Kernel}
use mac_osx_vfs_redirector.Kernel.Marks.{
  Mark, unmarked, Marks, bind-Marks, if-Marks, pure-Marks, ask-Marks, step-Marks, note-Marks,
  on_maps-Marks, from_maps-Marks, is_recursive-Marks, is_user_client-Marks, malloc-Marks,
  application_by_context-Marks, call_vnop-Marks,
}
use mac_osx_vfs_redirector.Hooks.Marks.{vnode_app_data-Marks}

module _ {K : Type 0} (kernel : Kernel K) {p : Mark} where
  pub request-Marks : (op : Opcode) → Marks kernel p p (request kernel op)
  unfolding request
  request-Marks op = bind-Marks (note-Marks kernel (requested op)) (λ _. step-Marks kernel _)

  announce_exchange-Marks : (from to : Vnode) → Marks kernel p p (announce_exchange kernel from to)
  unfolding announce_exchange
  announce_exchange-Marks from to = bind-Marks (malloc-Marks kernel) (λ from_allocated.
      bind-Marks (malloc-Marks kernel) (λ to_allocated.
        bind-Marks (ask-Marks kernel _) (λ from_path. bind-Marks (ask-Marks kernel _) (λ to_path.
          if-Marks (not from_allocated || not to_allocated) (pure-Marks kernel enomem) (
            if-Marks (not (from_path.0 == 0)) (pure-Marks kernel from_path.0) (
              if-Marks (not (to_path.0 == 0)) (pure-Marks kernel to_path.0)
                (bind-Marks (request-Marks Opcode.exchange) (λ _. pure-Marks kernel 0))))))))

  application_of_exchange-Marks :
      (fvp : Vnode) → Marks kernel p p (application_of_exchange kernel fvp)
  unfolding application_of_exchange
  application_of_exchange-Marks fvp = bind-Marks (vnode_app_data-Marks kernel fvp) (λ p.
      if-Marks (p == null) (application_by_context-Marks kernel open_existing)
        (pure-Marks kernel p))

module _ {K : Type 0} (kernel : Kernel K) (real : kernel.current_thread ≢ null) where
  exchange_redirected-Marks :
      (fvp tvp : Vnode) → Marks kernel unmarked unmarked (exchange_redirected kernel fvp tvp)
  unfolding exchange_redirected
  exchange_redirected-Marks fvp tvp = bind-Marks (from_maps-Marks kernel _) (λ from.
      bind-Marks (if-Marks (from == null) (pure-Marks kernel null) (from_maps-Marks kernel _))
        (λ to.
          bind-Marks
            (if-Marks (to == null) (pure-Marks kernel 0) (announce_exchange-Marks kernel from to))
            (λ e.
              bind-Marks
                (if-Marks (e == 0) (call_vnop-Marks kernel Vnop.exchange original fvp caller)
                  (pure-Marks kernel e))
                (λ result.
                  (bind-Marks (on_maps-Marks kernel _)
                    (λ _. bind-Marks (on_maps-Marks kernel _) (λ _. pure-Marks kernel result)))))))

  pub exchange-Marks :
      (fvp tvp : Vnode) → Marks kernel unmarked unmarked (exchange_hook kernel fvp tvp)
  unfolding exchange_hook
  exchange-Marks fvp tvp = bind-Marks (application_of_exchange-Marks kernel fvp) (λ p.
      bind-Marks (is_recursive-Marks kernel) (λ recursive.
        bind-Marks (is_user_client-Marks kernel) (λ client.
          if-Marks (not (redirects_io (application_data_at p)) || recursive || client)
            (call_vnop-Marks kernel Vnop.exchange original fvp caller)
            (exchange_redirected-Marks fvp tvp))))
