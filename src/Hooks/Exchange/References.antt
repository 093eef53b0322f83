-- ===== src/Hooks/Exchange/References.antt =====
-- The references that an exchange takes (VFSHooks.cpp, QvrVnopExchangeHookEx2).
use mac_osx_vfs_redirector.Applications.{application_data_at, open_existing}
use mac_osx_vfs_redirector.Base.{◌==◌, ◌||◌, not, List, ◌∷◌, refl}
use mac_osx_vfs_redirector.DataMap.{null}
use mac_osx_vfs_redirector.Event.{Vnode, Vnop, Opcode, original, caller, requested}
use mac_osx_vfs_redirector.Hooks.Exchange.{
  redirects_io, request, announce_exchange, exchange_redirected, application_of_exchange,
  exchange_hook,
}
use mac_osx_vfs_redirector.Hooks.References.{vnode_app_data-Keeps, is_user_client-Keeps}
use mac_osx_vfs_redirector.Hooks.{enomem}
use mac_osx_vfs_redirector.Kernel.Accounts.{
  Keeps, pure-Keeps, ask-Keeps, step-Keeps, note-Keeps, from_maps-Keeps, bind-Keeps, if-Keeps,
  malloc-Keeps, null-Keeps, put_unless_null-Keeps, swap-Keeps, is_recursive-Keeps,
  application_by_context-Keeps, call_vnop-Keeps,
}
use mac_osx_vfs_redirector.Kernel.{Kernel}
use mac_osx_vfs_redirector.VnodeMap.References.{get_vnode_io_ref-Accounted}

module _ {K : Type 0} (kernel : Kernel K) (mine : List Vnode) where
  pub request-Keeps : (op : Opcode) → Keeps mine (request kernel op) (λ _. mine)
  unfolding request
  request-Keeps op =
      bind-Keeps (note-Keeps mine (requested op) (λ v. (refl, refl))) (λ _. step-Keeps mine _)

  announce_exchange-Keeps :
      (from to : Vnode) → Keeps mine (announce_exchange kernel from to) (λ _. mine)
  unfolding announce_exchange
  announce_exchange-Keeps from to = bind-Keeps (malloc-Keeps kernel mine) (λ from_allocated.
      bind-Keeps (malloc-Keeps kernel mine) (λ to_allocated.
        bind-Keeps (ask-Keeps mine _) (λ from_path. bind-Keeps (ask-Keeps mine _) (λ to_path.
          if-Keeps (not from_allocated || not to_allocated) (λ _. pure-Keeps mine enomem)
            (λ _.
              if-Keeps (not (from_path.0 == 0)) (λ _. pure-Keeps mine from_path.0)
                (λ _.
                  if-Keeps (not (to_path.0 == 0)) (λ _. pure-Keeps mine to_path.0)
                    (λ _. bind-Keeps (request-Keeps Opcode.exchange) (λ _. pure-Keeps mine 0))))))))

module _ {K : Type 0} (kernel : Kernel K) (mine : List Vnode) where
  exchange_redirected-Keeps :
      (fvp tvp : Vnode) → Keeps mine (exchange_redirected kernel fvp tvp) (λ _. mine)
  unfolding exchange_redirected
  exchange_redirected-Keeps fvp tvp =
      bind-Keeps (from_maps-Keeps mine _ (λ s ok. get_vnode_io_ref-Accounted s ok fvp)) (λ from.
        bind-Keeps
          (if-Keeps (from == null) (λ _. null-Keeps (from ∷ mine))
            (λ _. from_maps-Keeps (from ∷ mine) _ (λ s ok. get_vnode_io_ref-Accounted s ok tvp)))
          (λ to.
            bind-Keeps
              (if-Keeps (to == null) (λ _. pure-Keeps _ 0)
                (λ _. announce_exchange-Keeps kernel _ from to))
              (λ e.
                bind-Keeps
                  (if-Keeps (e == 0)
                    (λ _. call_vnop-Keeps kernel _ Vnop.exchange original fvp caller)
                    (λ _. pure-Keeps _ e))
                  (λ result. swap-Keeps mine to from (
                    bind-Keeps (put_unless_null-Keeps (to ∷ mine) from) (λ _.
                      bind-Keeps (put_unless_null-Keeps mine to) (λ _. pure-Keeps mine result)))))))

  application_of_exchange-Keeps :
      (fvp : Vnode) → Keeps mine (application_of_exchange kernel fvp) (λ _. mine)
  unfolding application_of_exchange
  application_of_exchange-Keeps fvp = bind-Keeps (vnode_app_data-Keeps kernel mine fvp) (λ p.
      if-Keeps (p == null) (λ _. application_by_context-Keeps kernel mine open_existing)
        (λ _. pure-Keeps mine p))

  pub exchange-Keeps : (fvp tvp : Vnode) → Keeps mine (exchange_hook kernel fvp tvp) (λ _. mine)
  unfolding exchange_hook
  exchange-Keeps fvp tvp = bind-Keeps (application_of_exchange-Keeps fvp) (λ p.
      bind-Keeps (is_recursive-Keeps kernel mine) (λ recursive.
        bind-Keeps (is_user_client-Keeps kernel mine) (λ client.
          if-Keeps (not (redirects_io (application_data_at p)) || recursive || client)
            (λ _. call_vnop-Keeps kernel mine Vnop.exchange original fvp caller)
            (λ _. exchange_redirected-Keeps fvp tvp))))
