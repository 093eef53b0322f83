-- ===== src/Hooks/References.antt =====
-- The references that the hooks of VFSHooks.cpp take and give back.
use mac_osx_vfs_redirector.Applications.{ApplicationData, application_data_at, create_new}
use mac_osx_vfs_redirector.Base.{
  ◌==◌, ◌&&◌, false, not, Option, none, some, List, ◌∷◌, refl, arith, ltb,
}
use mac_osx_vfs_redirector.DataMap.{null}
use mac_osx_vfs_redirector.Event.{
  Vnode, Vnop, Opcode, Context, original, caller, resized, pushed, recycled,
}
use mac_osx_vfs_redirector.Hooks.Backing.References.{get_backing_vnode-Keeps}
use mac_osx_vfs_redirector.Hooks.Backing.{adjust_vnode_size_by_backing_vnode}
use mac_osx_vfs_redirector.Hooks.Io.{
  audit_and_redirect, redirected_vnode, read_backing_vnode, read_hook, write_and_adjust,
  write_backing_vnode, write_hook,
}
use mac_osx_vfs_redirector.Hooks.Life.{
  filter_word, flush, flush_and_forget, audit_open, open_hook, close_hook, inactive_hook,
}
use mac_osx_vfs_redirector.Hooks.{vnode_app_data, if_controlled}
use mac_osx_vfs_redirector.Kernel.Accounts.{
  Keeps, FailsEmpty, pure-Keeps, ask-Keeps, step-Keeps, note-Keeps, on_maps-Keeps, from_maps-Keeps,
  put-Keeps, bind-Keeps, if-Keeps, null-Keeps, forget_null-Keeps, enter_recursion-Keeps,
  leave_recursion-Keeps, is_recursive-Keeps, application_by_context-Keeps, audit-Keeps,
  call_vnop-Keeps,
}
use mac_osx_vfs_redirector.Kernel.Calls.{is_user_client}
use mac_osx_vfs_redirector.Kernel.{Kernel, Hook}
use mac_osx_vfs_redirector.Paths.{is_extension_equal}
use mac_osx_vfs_redirector.VnodeMap.References.{
  remove_vnode_io-Accounted, get_vnode_io_ref-Accounted,
}

module _ {K : Type 0} (kernel : Kernel K) (mine : List Vnode) where
  pub vnode_app_data-Keeps : (vn : Vnode) → Keeps {K = K} mine (vnode_app_data vn) (λ _. mine)
  unfolding vnode_app_data
  vnode_app_data-Keeps vn = from_maps-Keeps mine _ (λ s ok. ok)

  pub is_user_client-Keeps : Keeps mine (is_user_client kernel) (λ _. mine)
  unfolding is_user_client
  is_user_client-Keeps = ask-Keeps mine _

  pub if_controlled-Keeps :
      {A : Type 0} {after : A → List Vnode} (o : Option ApplicationData)
      {f : ApplicationData → Hook K A} {h : Hook K A}
      → ((app : ApplicationData) → Keeps mine (f app) after)
      → Keeps mine h after
      → Keeps mine (if_controlled kernel o f h) after
  unfolding if_controlled
  if_controlled-Keeps none kf kh = kh
  if_controlled-Keeps (some app) kf kh = bind-Keeps (is_recursive-Keeps kernel mine) (λ recursive.
      bind-Keeps is_user_client-Keeps
        (λ client. if-Keeps (not recursive && not client) (λ _. kf app) (λ _. kh)))

  adjust_vnode_size-Keeps :
      (vn io : Vnode) (c : Context)
      → Keeps mine (adjust_vnode_size_by_backing_vnode kernel vn io c) (λ _. mine)
  unfolding adjust_vnode_size_by_backing_vnode
  adjust_vnode_size-Keeps vn io c = bind-Keeps (ask-Keeps mine _) (λ old.
      bind-Keeps (ask-Keeps mine _) (λ new.
        if-Keeps (not (old.0 == 0)) (λ _. pure-Keeps mine old.0)
          (λ _.
            if-Keeps (not (new.0 == 0)) (λ _. pure-Keeps mine new.0)
              (λ _.
                if-Keeps (ltb old.1 new.1)
                  (λ _. bind-Keeps (step-Keeps mine _) (λ e.
                    bind-Keeps (note-Keeps mine (resized vn new.1) (λ v. (refl, refl)))
                      (λ _. pure-Keeps mine e)))
                  (λ _. pure-Keeps mine 0)))))

  pub write_and_adjust-Keeps :
      (op : Vnop) (vp io : Vnode) → Keeps mine (write_and_adjust kernel op vp io) (λ _. mine)
  unfolding write_and_adjust
  write_and_adjust-Keeps op vp io = bind-Keeps (call_vnop-Keeps kernel mine op _ io _) (λ e.
      bind-Keeps
        (if-Keeps (e == 0) (λ _. adjust_vnode_size-Keeps vp io caller) (λ _. pure-Keeps mine 0))
        (λ _. pure-Keeps mine e))

  read_backing_vnode-Keeps :
      (io : Vnode) → Keeps (io ∷ mine) (read_backing_vnode kernel io) (λ _. mine)
  unfolding read_backing_vnode
  read_backing_vnode-Keeps io = bind-Keeps (enter_recursion-Keeps kernel _ _) (λ _.
      bind-Keeps (call_vnop-Keeps kernel _ Vnop.read _ io _) (λ e.
        bind-Keeps (leave_recursion-Keeps kernel _)
          (λ _. bind-Keeps (put-Keeps mine io) (λ _. pure-Keeps mine e))))

module _ {K : Type 0} (kernel : Kernel K) (mine : List Vnode) where
  write_backing_vnode-Keeps :
      (vp io : Vnode) → Keeps (io ∷ mine) (write_backing_vnode kernel vp io) (λ _. mine)
  unfolding write_backing_vnode
  write_backing_vnode-Keeps vp io = bind-Keeps (enter_recursion-Keeps kernel _ _) (λ _.
      bind-Keeps (write_and_adjust-Keeps kernel _ Vnop.write vp io) (λ e.
        bind-Keeps (leave_recursion-Keeps kernel _)
          (λ _. bind-Keeps (put-Keeps mine io) (λ _. pure-Keeps mine e))))

  pub open-Keeps : (vp : Vnode) → Keeps mine (open_hook kernel vp) (λ _. mine)
  unfolding open_hook audit_open
  open-Keeps vp = bind-Keeps (application_by_context-Keeps kernel mine create_new) (λ app.
      bind-Keeps
        (if_controlled-Keeps kernel mine (application_data_at app)
          (λ a. bind-Keeps (ask-Keeps mine _) (λ r.
            if-Keeps (r.0 == 0 && is_extension_equal (r.1) filter_word)
              (λ _. audit-Keeps kernel mine Opcode.open_file) (λ _. pure-Keeps mine tt)))
          (pure-Keeps mine tt))
        (λ _. call_vnop-Keeps kernel mine Vnop.open_file original vp caller))

  flush-Keeps : (io : Vnode) → Keeps {K = K} (io ∷ mine) (flush io) (λ _. mine)
  unfolding flush
  flush-Keeps io =
      bind-Keeps (note-Keeps (io ∷ mine) (pushed io) (λ v. (refl, refl))) (λ _. put-Keeps mine io)

  flush_and_forget-Keeps :
      (vp io : Vnode) → Keeps {K = K} (io ∷ mine) (flush_and_forget vp io) (λ _. mine)
  unfolding flush_and_forget
  flush_and_forget-Keeps vp io =
      bind-Keeps (note-Keeps (io ∷ mine) (pushed io) (λ v. (refl, refl))) (λ _.
        bind-Keeps (note-Keeps (io ∷ mine) (recycled io) (λ v. (refl, refl))) (λ _.
          bind-Keeps (on_maps-Keeps (io ∷ mine) _ (λ s ok. remove_vnode_io-Accounted s ok vp))
            (λ _. put-Keeps mine io)))

  pub close-Keeps : (vp : Vnode) → Keeps mine (close_hook kernel vp) (λ _. mine)
  unfolding close_hook
  close-Keeps vp =
      bind-Keeps (from_maps-Keeps mine _ (λ s ok. get_vnode_io_ref-Accounted s ok vp)) (λ io.
        bind-Keeps
          (if-Keeps (io == null)
            (λ h. forget_null-Keeps mine io (ground (arith, h)) (pure-Keeps mine tt))
            (λ _. flush-Keeps io))
          (λ _. call_vnop-Keeps kernel mine Vnop.close original vp caller))

  pub inactive-Keeps : (vp : Vnode) → Keeps mine (inactive_hook kernel vp) (λ _. mine)
  unfolding inactive_hook
  inactive-Keeps vp =
      bind-Keeps (from_maps-Keeps mine _ (λ s ok. get_vnode_io_ref-Accounted s ok vp)) (λ io.
        bind-Keeps
          (if-Keeps (io == null)
            (λ h. forget_null-Keeps mine io (ground (arith, h)) (pure-Keeps mine tt))
            (λ _. flush_and_forget-Keeps vp io))
          (λ _. call_vnop-Keeps kernel mine Vnop.inactive original vp caller))

module _ {K : Type 0} (kernel : Kernel K) (fails : FailsEmpty kernel) (mine : List Vnode) where
  pub audit_and_redirect-Keeps :
      (op : Opcode) (vp : Vnode) (app : ApplicationData)
      → Keeps mine (audit_and_redirect kernel op vp app) (λ io. io ∷ mine)
  unfolding audit_and_redirect
  audit_and_redirect-Keeps op vp app =
      bind-Keeps (audit-Keeps kernel mine op)
        (λ _. get_backing_vnode-Keeps kernel fails mine vp app false)

  pub redirected_vnode-Keeps :
      (op : Opcode) (vp : Vnode) → Keeps mine (redirected_vnode kernel op vp) (λ io. io ∷ mine)
  unfolding redirected_vnode
  redirected_vnode-Keeps op vp = bind-Keeps (vnode_app_data-Keeps kernel mine vp) (λ p.
      if_controlled-Keeps kernel mine (application_data_at p) (audit_and_redirect-Keeps op vp)
        (null-Keeps mine))

  pub read-Keeps : (vp : Vnode) → Keeps mine (read_hook kernel vp) (λ _. mine)
  unfolding read_hook
  read-Keeps vp = bind-Keeps (redirected_vnode-Keeps Opcode.read vp) (λ io.
      if-Keeps (io == null)
        (λ h.
          forget_null-Keeps mine io (ground (arith, h))
            (call_vnop-Keeps kernel mine Vnop.read original vp caller))
        (λ _. read_backing_vnode-Keeps kernel mine io))

  pub write-Keeps : (vp : Vnode) → Keeps mine (write_hook kernel vp) (λ _. mine)
  unfolding write_hook
  write-Keeps vp = bind-Keeps (redirected_vnode-Keeps Opcode.write vp) (λ io.
      if-Keeps (io == null)
        (λ h.
          forget_null-Keeps mine io (ground (arith, h))
            (call_vnop-Keeps kernel mine Vnop.write original vp caller))
        (λ _. write_backing_vnode-Keeps kernel mine vp io))
