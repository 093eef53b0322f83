-- ===== src/Hooks/Io/Routes.antt =====
-- Where a read and a write go (VFSHooks.cpp, QvrVnopReadHookEx2 and QvrVnopWriteHookEx2).
use mac_osx_vfs_redirector.Applications.{ApplicationData, application_data_at}
use mac_osx_vfs_redirector.Base.{
  arith, ℕ, ◌==◌, ◌≡◌, ◌≢◌, ◌∙◌, refl, true, false, ◌&&◌, not, Option, none, some, ◌∷◌, ltb,
  Bool-cases, inl, inr, if◌then◌else◌,
}
use mac_osx_vfs_redirector.DataMap.{null}
use mac_osx_vfs_redirector.Event.{
  Vnode, Vnop, Opcode, Context, called, original, vector_of, caller, super_user, resized,
}
use mac_osx_vfs_redirector.Hooks.Backing.Silence.{get_backing_vnode-Quiet}
use mac_osx_vfs_redirector.Hooks.Backing.{adjust_vnode_size_by_backing_vnode}
use mac_osx_vfs_redirector.Hooks.Io.{
  audit_and_redirect, redirected_vnode, read_backing_vnode, read_hook, write_backing_vnode,
  write_hook,
}
use mac_osx_vfs_redirector.Hooks.{vnode_app_data, if_controlled}
use mac_osx_vfs_redirector.Kernel.Calls.{call_vnop, enter_recursion}
use mac_osx_vfs_redirector.Kernel.Quiet.{
  operations, Quiet, pure-Quiet, ask-Quiet, from_maps-Quiet, bind-Quiet, if-Quiet,
  is_recursive-Quiet, audit-Quiet, note-Quiet, step-Quiet,
}
use mac_osx_vfs_redirector.Kernel.{Kernel, World, Hook, ◌>>=◌, pure}
use mac_osx_vfs_redirector.VnodeMap.{vnode_put}
use mac_osx_vfs_redirector.Recursion.{is_recursive_call, enter-is_recursive_call}

-- IOMalloc gives memory, and threads are no null pointers.
pub record Allocates {K : Type 0} (kernel : Kernel K) : Type 0 where
  pub allocates : (k : K) → (kernel.malloc k).0 ≡ true
  pub real_thread : kernel.current_thread ≢ null

module _ {K : Type 0} (kernel : Kernel K) where
  if_controlled-Quiet :
      {A : Type 0} (o : Option ApplicationData) {f : ApplicationData → Hook K A} {h : Hook K A}
      → ((app : ApplicationData) → Quiet (f app))
      → Quiet h
      → Quiet (if_controlled kernel o f h)
  unfolding if_controlled
  if_controlled-Quiet none kf kh = kh
  if_controlled-Quiet (some app) kf kh = bind-Quiet (is_recursive-Quiet kernel) (λ recursive.
      bind-Quiet (ask-Quiet _) (λ client. if-Quiet (not recursive && not client) (kf app) kh))

  pub redirected_vnode-Quiet : (op : Opcode) (vp : Vnode) → Quiet (redirected_vnode kernel op vp)
  unfolding redirected_vnode audit_and_redirect vnode_app_data
  redirected_vnode-Quiet op vp = bind-Quiet (from_maps-Quiet _ (λ s. refl)) (λ p.
      if_controlled-Quiet (application_data_at p)
        (λ app.
          bind-Quiet (audit-Quiet kernel op) (λ _. get_backing_vnode-Quiet kernel vp app false))
        (pure-Quiet null))

module _ {K : Type 0} (kernel : Kernel K) where
  original_call :
      (op : Vnop) (v : Vnode) (c : Context) (w : World K)
      → operations (call_vnop kernel op original v c w).1.maps.log
        ≡ called op original v c
            (is_recursive_call kernel.current_thread w.recursion)
            (call_vnop kernel op original v c w).0
            null
          ∷ operations w.maps.log
  unfolding call_vnop ◌>>=◌ pure operations
  original_call op v c w = refl

  marked_by_enter :
      Allocates kernel
      → (w : World K)
      → is_recursive_call kernel.current_thread
          (enter_recursion kernel kernel.current_thread w).1.recursion
        ≡ true
  unfolding enter_recursion ◌>>=◌ pure
  marked_by_enter allocs w =
      let t = kernel.current_thread in
      rw (allocs.allocates w.kernel)
        (ground (arith, (enter-is_recursive_call t t t w.recursion).0, allocs.real_thread))

  read_backing_call :
      Allocates kernel
      → (io : Vnode) (w : World K)
      → operations (read_backing_vnode kernel io w).1.maps.log
        ≡ called Vnop.read (vector_of io) io caller true (read_backing_vnode kernel io w).0 null
          ∷ operations w.maps.log
  unfolding read_backing_vnode vnode_put ◌>>=◌ pure operations
  read_backing_call allocs io w = rw (marked_by_enter allocs w)

  adjust_vnode_size-Quiet :
      (vn io : Vnode) (c : Context) → Quiet (adjust_vnode_size_by_backing_vnode kernel vn io c)
  unfolding adjust_vnode_size_by_backing_vnode operations
  adjust_vnode_size-Quiet vn io c = bind-Quiet (ask-Quiet _) (λ old.
      bind-Quiet (ask-Quiet _) (λ new. if-Quiet (not (old.0 == 0)) (pure-Quiet old.0) (
        if-Quiet (not (new.0 == 0)) (pure-Quiet new.0) (
          if-Quiet (ltb old.1 new.1)
            (bind-Quiet (step-Quiet _)
              (λ e. bind-Quiet (note-Quiet (resized vn new.1) (λ l. refl)) (λ _. pure-Quiet e)))
            (pure-Quiet 0)))))

  adjusted-Quiet :
      (vp io : Vnode) (e : ℕ)
      → Quiet (if e == 0 then adjust_vnode_size_by_backing_vnode kernel vp io caller else pure 0)
  adjusted-Quiet vp io e = if-Quiet (e == 0) (adjust_vnode_size-Quiet vp io caller) (pure-Quiet 0)

module _ {K : Type 0} (kernel : Kernel K) where
  write_backing_call :
      Allocates kernel
      → (vp io : Vnode) (w : World K)
      → operations (write_backing_vnode kernel vp io w).1.maps.log
        ≡ called Vnop.write
            (vector_of io)
            io
            super_user
            true
            (write_backing_vnode kernel vp io w).0
            null
          ∷ operations w.maps.log
  unfolding write_backing_vnode vnode_put ◌>>=◌ pure operations
  write_backing_call allocs vp io w =
      let (e, after) =
        call_vnop kernel Vnop.write (vector_of io) io super_user
          (enter_recursion kernel kernel.current_thread w).1 in
      (adjusted-Quiet kernel vp io e).quiet after ∙ rw (marked_by_enter kernel allocs w)

  -- Where memory is given, a read makes one vnode operation in all. Where no backing vnode is found it is the original read
  -- of the vnode, and else the read of the backing vnode's own vector, by the same caller, in a thread
  -- that is marked recursive. The hook returns that operation's error.
  pub read_hook-operation :
      Allocates kernel
      → (vp : Vnode) (w : World K)
      → let found = redirected_vnode kernel Opcode.read vp w in
        let done = read_hook kernel vp w in
        operations done.1.maps.log
        ≡ (if found.0 == null
            then called Vnop.read original vp caller
                (is_recursive_call kernel.current_thread found.1.recursion)
                done.0
                null
            else called Vnop.read (vector_of found.0) found.0 caller true done.0 null)
          ∷ operations w.maps.log
  unfolding read_hook ◌>>=◌ pure
  read_hook-operation allocs vp w =
      let found = redirected_vnode kernel Opcode.read vp w in
      let quiet = (redirected_vnode-Quiet kernel Opcode.read vp).quiet w in
      elim (Bool-cases (found.0 == null)) [
        | inl absent ↦ rw (absent, ← quiet) (original_call kernel Vnop.read vp caller found.1)
        | inr present ↦ rw (present, ← quiet) (read_backing_call kernel allocs found.0 found.1)
      ]

  -- Where memory is given, a write makes one vnode operation in all. Where no backing vnode is found it is the original write
  -- of the vnode, and else the write of the backing vnode's own vector, in the super user's context, in
  -- a thread that is marked recursive. The hook returns that operation's error, whether or not the size
  -- of the covering vnode could be adjusted behind it.
  pub write_hook-operation :
      Allocates kernel
      → (vp : Vnode) (w : World K)
      → let found = redirected_vnode kernel Opcode.write vp w in
        let done = write_hook kernel vp w in
        operations done.1.maps.log
        ≡ (if found.0 == null
            then called Vnop.write original vp caller
                (is_recursive_call kernel.current_thread found.1.recursion)
                done.0
                null
            else called Vnop.write (vector_of found.0) found.0 super_user true done.0 null)
          ∷ operations w.maps.log
  unfolding write_hook ◌>>=◌ pure
  write_hook-operation allocs vp w =
      let found = redirected_vnode kernel Opcode.write vp w in
      let quiet = (redirected_vnode-Quiet kernel Opcode.write vp).quiet w in
      elim (Bool-cases (found.0 == null)) [
        | inl absent ↦ rw (absent, ← quiet) (original_call kernel Vnop.write vp caller found.1)
        | inr present ↦ rw (present, ← quiet) (write_backing_call allocs vp found.0 found.1)
      ]
