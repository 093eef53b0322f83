-- ===== src/Hooks/Marks.antt =====
-- The recursion mark over the hooks of VFSHooks.cpp.
use mac_osx_vfs_redirector.Applications.{ApplicationData, application_data_at, create_new}
use mac_osx_vfs_redirector.Base.{◌≢◌, ◌==◌, ◌&&◌, false, not, Option, none, some, ltb}
use mac_osx_vfs_redirector.DataMap.{null}
use mac_osx_vfs_redirector.Event.{
  Vnode, Vnop, Opcode, Context, original, caller, resized, pushed, recycled,
}
use mac_osx_vfs_redirector.Hooks.Backing.{adjust_vnode_size_by_backing_vnode}
use mac_osx_vfs_redirector.Hooks.Io.{
  audit_and_redirect, redirected_vnode, read_backing_vnode, read_hook, write_and_adjust,
  write_backing_vnode, write_hook,
}
use mac_osx_vfs_redirector.Hooks.Life.{
  filter_word, flush, flush_and_forget, audit_open, open_hook, close_hook, inactive_hook,
}
use mac_osx_vfs_redirector.Hooks.{vnode_app_data, if_controlled}
use mac_osx_vfs_redirector.Kernel.{Kernel, Hook}
use mac_osx_vfs_redirector.Paths.{is_extension_equal}
use mac_osx_vfs_redirector.Kernel.Marks.{
  Mark, unmarked, Marks, bind-Marks, if-Marks, pure-Marks, ask-Marks, step-Marks, note-Marks,
  on_maps-Marks, from_maps-Marks, put-Marks, is_recursive-Marks, is_user_client-Marks,
  application_by_context-Marks, audit-Marks, call_vnop-Marks, enter_recursion-Marks,
  leave_recursion-Marks,
}
use mac_osx_vfs_redirector.Hooks.Backing.Marks.{get_backing_vnode-Marks}

module _ {K : Type 0} (kernel : Kernel K) {p : Mark} where
  pub vnode_app_data-Marks : (vn : Vnode) → Marks kernel p p (vnode_app_data vn)
  unfolding vnode_app_data
  vnode_app_data-Marks vn = from_maps-Marks kernel _

  adjust_vnode_size-Marks :
      (vn io : Vnode) (c : Context)
      → Marks kernel p p (adjust_vnode_size_by_backing_vnode kernel vn io c)
  unfolding adjust_vnode_size_by_backing_vnode
  adjust_vnode_size-Marks vn io c = bind-Marks (ask-Marks kernel _) (λ old.
      bind-Marks (ask-Marks kernel _) (λ new.
        if-Marks (not (old.0 == 0)) (pure-Marks kernel old.0) (
          if-Marks (not (new.0 == 0)) (pure-Marks kernel new.0) (
            if-Marks (ltb old.1 new.1)
              (bind-Marks (step-Marks kernel _)
                (λ e. bind-Marks (note-Marks kernel (resized vn new.1)) (λ _. pure-Marks kernel e)))
              (pure-Marks kernel 0)))))

  pub write_and_adjust-Marks :
      (op : Vnop) (vp io : Vnode) → Marks kernel p p (write_and_adjust kernel op vp io)
  unfolding write_and_adjust
  write_and_adjust-Marks op vp io = bind-Marks (call_vnop-Marks kernel op _ io _) (λ e.
      bind-Marks (if-Marks (e == 0) (adjust_vnode_size-Marks vp io caller) (pure-Marks kernel 0))
        (λ _. pure-Marks kernel e))

  flush-Marks : (io : Vnode) → Marks kernel p p (flush io)
  unfolding flush
  flush-Marks io = bind-Marks (note-Marks kernel (pushed io)) (λ _. put-Marks kernel io)

  flush_and_forget-Marks : (vp io : Vnode) → Marks kernel p p (flush_and_forget vp io)
  unfolding flush_and_forget
  flush_and_forget-Marks vp io = bind-Marks (note-Marks kernel (pushed io)) (λ _.
      bind-Marks (note-Marks kernel (recycled io))
        (λ _. bind-Marks (on_maps-Marks kernel _) (λ _. put-Marks kernel io)))

module _ {K : Type 0} (kernel : Kernel K) (real : kernel.current_thread ≢ null) where
  pub if_controlled-Marks :
      {A : Type 0} (o : Option ApplicationData) {f : ApplicationData → Hook K A} {h : Hook K A}
      → ((app : ApplicationData) → Marks kernel unmarked unmarked (f app))
      → Marks kernel unmarked unmarked h
      → Marks kernel unmarked unmarked (if_controlled kernel o f h)
  unfolding if_controlled
  if_controlled-Marks none kf kh = kh
  if_controlled-Marks (some app) kf kh = bind-Marks (is_recursive-Marks kernel) (λ recursive.
      bind-Marks (is_user_client-Marks kernel)
        (λ client. if-Marks (not recursive && not client) (kf app) (kh)))

  read_backing_vnode-Marks :
      (io : Vnode) → Marks kernel unmarked unmarked (read_backing_vnode kernel io)
  unfolding read_backing_vnode
  read_backing_vnode-Marks io = bind-Marks (enter_recursion-Marks kernel real) (λ _.
      bind-Marks (call_vnop-Marks kernel Vnop.read _ io _) (λ e.
        bind-Marks (leave_recursion-Marks kernel)
          (λ _. bind-Marks (put-Marks kernel io) (λ _. pure-Marks kernel e))))

  write_backing_vnode-Marks :
      (vp io : Vnode) → Marks kernel unmarked unmarked (write_backing_vnode kernel vp io)
  unfolding write_backing_vnode
  write_backing_vnode-Marks vp io = bind-Marks (enter_recursion-Marks kernel real) (λ _.
      bind-Marks (write_and_adjust-Marks kernel Vnop.write vp io) (λ e.
        bind-Marks (leave_recursion-Marks kernel)
          (λ _. bind-Marks (put-Marks kernel io) (λ _. pure-Marks kernel e))))

  pub open-Marks : (vp : Vnode) → Marks kernel unmarked unmarked (open_hook kernel vp)
  unfolding open_hook audit_open
  open-Marks vp = bind-Marks (application_by_context-Marks kernel create_new) (λ app.
      bind-Marks
        (if_controlled-Marks (application_data_at app)
          (λ a. bind-Marks (ask-Marks kernel _) (λ r.
            if-Marks (r.0 == 0 && is_extension_equal (r.1) filter_word)
              (audit-Marks kernel Opcode.open_file) (pure-Marks kernel tt)))
          (pure-Marks kernel tt))
        (λ _. call_vnop-Marks kernel Vnop.open_file original vp caller))

  pub close-Marks : (vp : Vnode) → Marks kernel unmarked unmarked (close_hook kernel vp)
  unfolding close_hook
  close-Marks vp = bind-Marks (from_maps-Marks kernel _) (λ io.
      bind-Marks (if-Marks (io == null) ((pure-Marks kernel tt)) (flush-Marks kernel io))
        (λ _. call_vnop-Marks kernel Vnop.close original vp caller))

  pub inactive-Marks : (vp : Vnode) → Marks kernel unmarked unmarked (inactive_hook kernel vp)
  unfolding inactive_hook
  inactive-Marks vp = bind-Marks (from_maps-Marks kernel _) (λ io.
      bind-Marks
        (if-Marks (io == null) ((pure-Marks kernel tt)) (flush_and_forget-Marks kernel vp io))
        (λ _. call_vnop-Marks kernel Vnop.inactive original vp caller))

  pub audit_and_redirect-Marks :
      (op : Opcode) (vp : Vnode) (app : ApplicationData)
      → Marks kernel unmarked unmarked (audit_and_redirect kernel op vp app)
  unfolding audit_and_redirect
  audit_and_redirect-Marks op vp app =
      bind-Marks (audit-Marks kernel op) (λ _. get_backing_vnode-Marks kernel real vp app false)

  pub redirected_vnode-Marks :
      (op : Opcode) (vp : Vnode) → Marks kernel unmarked unmarked (redirected_vnode kernel op vp)
  unfolding redirected_vnode
  redirected_vnode-Marks op vp = bind-Marks (vnode_app_data-Marks kernel vp) (λ p.
      if_controlled-Marks (application_data_at p) (audit_and_redirect-Marks op vp)
        (pure-Marks kernel null))

  pub read-Marks : (vp : Vnode) → Marks kernel unmarked unmarked (read_hook kernel vp)
  unfolding read_hook
  read-Marks vp = bind-Marks (redirected_vnode-Marks Opcode.read vp) (λ io.
      if-Marks (io == null) ((call_vnop-Marks kernel Vnop.read original vp caller))
        (read_backing_vnode-Marks io))

  pub write-Marks : (vp : Vnode) → Marks kernel unmarked unmarked (write_hook kernel vp)
  unfolding write_hook
  write-Marks vp = bind-Marks (redirected_vnode-Marks Opcode.write vp) (λ io.
      if-Marks (io == null) ((call_vnop-Marks kernel Vnop.write original vp caller))
        (write_backing_vnode-Marks vp io))
