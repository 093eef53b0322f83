-- ===== src/Hooks/PassThrough.antt =====
-- The hooks of VFSHooks.cpp in a thread that is marked recursive: the calls that the redirector itself
-- causes, which come back into its hooks.
use mac_osx_vfs_redirector.Applications.{ApplicationData, create_new, application_data_at}
use mac_osx_vfs_redirector.Base.{
  ◌||◌, Bool, false, Bool-cases, inl, inr, ap, ◌==◌, if◌then◌else◌, ◌≡◌, refl, true, Option, none,
  some,
}
use mac_osx_vfs_redirector.VnodeMap.{get_vnode_app_data}
use mac_osx_vfs_redirector.DataMap.{null}
use mac_osx_vfs_redirector.Event.{Vnode, Vnop, Opcode, original, caller}
use mac_osx_vfs_redirector.Hooks.Exchange.{exchange_hook}
use mac_osx_vfs_redirector.Hooks.Io.{
  read_hook, write_hook, redirected_vnode, audit_and_redirect, read_backing_vnode,
  write_backing_vnode,
}
use mac_osx_vfs_redirector.Hooks.Life.{audit_open, open_hook}
use mac_osx_vfs_redirector.Hooks.Paging.{
  PagingArgs, pagein_hook, pageout_hook, pageout_original, pageout_redirected,
}
use mac_osx_vfs_redirector.Hooks.{if_controlled, enodata}
use mac_osx_vfs_redirector.Kernel.Calls.{application_by_context, call_vnop}
use mac_osx_vfs_redirector.Kernel.{Kernel, World, Hook, ◌>>=◌, pure}
use mac_osx_vfs_redirector.Recursion.{is_recursive_call}

or_true : (b c : Bool) → (b || true || c) ≡ true
or_true true c = refl
or_true false c = refl

module _ {K : Type 0} (kernel : Kernel K) (w : World K)
    (marked : is_recursive_call kernel.current_thread w.recursion ≡ true) where
  if_controlled-marked :
      {A : Type 0} (o : Option ApplicationData) (f : ApplicationData → Hook K A) (h : Hook K A)
      → if_controlled kernel o f h w ≡ h w
  unfolding if_controlled ◌>>=◌ pure
  if_controlled-marked none f h = refl
  if_controlled-marked (some app) f h = simp marked

  redirected_vnode-marked : (op : Opcode) (vp : Vnode) → redirected_vnode kernel op vp w ≡ (null, w)
  unfolding redirected_vnode ◌>>=◌ pure
  redirected_vnode-marked op vp =
      if_controlled-marked (application_data_at (get_vnode_app_data vp w.maps))
        (audit_and_redirect kernel op vp) (pure null)

  read-passes :
      (vp : Vnode) → read_hook kernel vp w ≡ call_vnop kernel Vnop.read original vp caller w
  unfolding read_hook ◌>>=◌ pure
  read-passes vp =
      ap
        (λ r.
          (if r.0 == null
              then call_vnop kernel Vnop.read original vp caller
              else read_backing_vnode kernel r.0)
            r.1)
        (redirected_vnode-marked Opcode.read vp)

  write-passes :
      (vp : Vnode) → write_hook kernel vp w ≡ call_vnop kernel Vnop.write original vp caller w
  unfolding write_hook ◌>>=◌ pure
  write-passes vp =
      ap
        (λ r.
          (if r.0 == null
              then call_vnop kernel Vnop.write original vp caller
              else write_backing_vnode kernel vp r.0)
            r.1)
        (redirected_vnode-marked Opcode.write vp)

  open-passes :
      (vp : Vnode) → open_hook kernel vp w ≡ call_vnop kernel Vnop.open_file original vp caller w
  unfolding open_hook ◌>>=◌ pure
  open-passes vp =
      ap (λ r. call_vnop kernel Vnop.open_file original vp caller r.1)
        (if_controlled-marked (application_data_at (application_by_context kernel create_new w).0)
          (audit_open kernel vp) (pure tt))

  pagein-passes :
      (ap : PagingArgs)
      → pagein_hook kernel ap w ≡ call_vnop kernel Vnop.pagein original ap.vp caller w
  unfolding pagein_hook ◌>>=◌ pure
  pagein-passes args = simp (marked, or_true)

  exchange-passes :
      (fvp tvp : Vnode)
      → exchange_hook kernel fvp tvp w ≡ call_vnop kernel Vnop.exchange original fvp caller w
  unfolding exchange_hook ◌>>=◌ pure
  exchange-passes fvp tvp = elim (Bool-cases (get_vnode_app_data fvp w.maps == null)) [
    | inl none_of_vnode ↦ simp (none_of_vnode, marked, or_true)
    | inr of_vnode ↦ simp (of_vnode, marked, or_true)
  ]

  pageout-passes :
      (args : PagingArgs)
      → pageout_hook kernel args w
        ≡ (enodata, (call_vnop kernel Vnop.pageout original args.vp caller w).1)
  unfolding pageout_hook ◌>>=◌ pure
  pageout-passes args =
      ap
        (λ r.
          (if r.0 == null then pageout_original kernel args else pageout_redirected kernel args r.0)
            r.1)
        (redirected_vnode-marked Opcode.write args.vp)

  -- In a thread that is marked recursive, the hooks of read, write, open, pagein and exchange do what
  -- the original operation does, and nothing else: no audit record, no change of a map, no lookup. The
  -- pageout hook does so too, but returns ENODATA in place of the operation's error.
  pub recursive_calls_pass :
      ((vp : Vnode)
        → (read_hook kernel vp w ≡ call_vnop kernel Vnop.read original vp caller w)
          × (write_hook kernel vp w ≡ call_vnop kernel Vnop.write original vp caller w)
          × (open_hook kernel vp w ≡ call_vnop kernel Vnop.open_file original vp caller w))
      × ((args : PagingArgs)
          → (pagein_hook kernel args w ≡ call_vnop kernel Vnop.pagein original args.vp caller w)
            × (pageout_hook kernel args w
                ≡ (enodata, (call_vnop kernel Vnop.pageout original args.vp caller w).1)))
      × ((fvp tvp : Vnode)
          → exchange_hook kernel fvp tvp w ≡ call_vnop kernel Vnop.exchange original fvp caller w)
  recursive_calls_pass = (
    λ vp. (read-passes vp, write-passes vp, open-passes vp),
    λ args. (pagein-passes args, pageout-passes args),
    exchange-passes,
  )
