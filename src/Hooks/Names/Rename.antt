-- ===== src/Hooks/Names/Rename.antt =====
-- VFSFilter0/VFSFilter0/VFSHooks.cpp 2123-2677, the renaming of a file: QvrVnopRenameHookEx2. The
-- argument block is its two vnodes, NULLVP for no target, and its two componentnames; the copies of it
-- are the vnodes and the context that they get. The addresses of the fields `apRedirected.a_fcnp` and
-- `apRedirected.a_tcnp`, which are cookies, are parameters.
pub mod References
pub mod Releases
pub mod Order
pub mod Marks
use mac_osx_vfs_redirector.Applications.{ApplicationData, application_data_at, open_existing}
use mac_osx_vfs_redirector.Base.{
  ℕ, zero, suc, ◌+◌, Bool, not, ◌&&◌, ◌||◌, ◌==◌, leb, if◌then◌else◌, List, [], none, some,
}
use mac_osx_vfs_redirector.DataMap.{null}
use mac_osx_vfs_redirector.Event.{
  Vnode, FilePath, Vnop, Opcode, Context, original, vector_of, caller, super_user, purged,
}
use mac_osx_vfs_redirector.Hooks.Backing.{resize}
use mac_osx_vfs_redirector.Hooks.Names.{ComponentName, Switches, redirect_to, recursive_lookup}
use mac_osx_vfs_redirector.Hooks.{vnode_app_data, if_controlled, enomem}
use mac_osx_vfs_redirector.Kernel.Calls.{
  note, on_maps, put, get_vnode, audit, enter_recursion, leave_recursion, application_by_context,
  malloc, call_vnop,
}
use mac_osx_vfs_redirector.Kernel.{Kernel, Hook, pure, ◌>>=◌, ◌>>◌}
use mac_osx_vfs_redirector.Paths.{convert_to_shadow_and_then_redirected_path}
use mac_osx_vfs_redirector.VnodeMap.{remove_shadow_reverse, put_unless_null}

-- `ap`, with the cookies of its lookups
pub record RenameArgs : Type 0 where
  pub fvp : Vnode
  pub tvp : Vnode
  pub from : ComponentName
  pub target : ComponentName
  pub from_cookie : ℕ
  pub target_cookie : ℕ

module _ {K : Type 0} (kernel : Kernel K) where
  -- Allocations one after the other up to the first that fails: how many were given.
  unfoldable pub allocate : ℕ → Hook K ℕ
  unfolding malloc
  allocate zero = pure 0
  allocate (suc n) =
      let rest = allocate n in
      do a ← malloc kernel; k ← if a then rest else pure 0; pure (if a then k + 1 else 0)

  -- a lookup, if there has been no error before it
  unfoldable pub find_next : (error cookie : ℕ) → FilePath → Context → Hook K (ℕ × Vnode)
  unfolding recursive_lookup
  find_next e cookie path c =
      if e == 0 then recursive_lookup kernel cookie path c else pure (e, null)

  -- `! appData->redirectIO`: the vnodes of the call are those of redirected files
  unfoldable pub rename_originals : RenameArgs → Hook K ℕ
  unfolding find_next call_vnop audit on_maps
  rename_originals ap = do
    f ← find_next 0 (ap.from_cookie) (ap.from.path) caller
    t ←
        if ap.tvp == null
        then pure (f.0, null)
        else find_next (f.0) (ap.target_cookie) (ap.target.path) caller
    e ← if t.0 == 0 then call_vnop kernel Vnop.rename original (f.1) caller else pure (t.0)
    audit Opcode.rename
    on_maps (put_unless_null (f.1))
    on_maps (put_unless_null (t.1))
    pure e

  -- "truncate the existing file"
  unfoldable pub truncate_target : Vnode → Hook K Vnode
  unfolding enter_recursion leave_recursion resize get_vnode
  truncate_target redirected = do
    enter_recursion kernel (kernel.current_thread)
    e ← resize kernel redirected 0 super_user
    leave_recursion kernel
    get_vnode redirected
    pure redirected

  -- the redirected target that is there although the call has none: it is renamed to, unless the
  -- original target is there too
  unfoldable pub existing_target : RenameArgs → Vnode → Hook K Vnode
  unfolding recursive_lookup put truncate_target
  existing_target ap redirected = do
    o ← recursive_lookup kernel (kernel.current_thread) (ap.target.path) caller
    v ← if o.0 == 0 then put (o.1) >> pure null else truncate_target redirected
    put redirected
    pure v

  -- `! ap->a_tvp`; the results are the error, `apRedirected.a_tvp` and `originalTvp`
  unfoldable pub find_no_target : RenameArgs → (redirected : FilePath) → Hook K (ℕ × Vnode × Vnode)
  unfolding recursive_lookup existing_target
  find_no_target ap redirected = do
    r ← recursive_lookup kernel (kernel.current_thread) redirected super_user
    v ← if r.0 == 0 then existing_target ap (r.1) else pure null
    pure (0, v, null)

  -- `ap->a_tvp`
  unfoldable pub find_both_targets :
      RenameArgs → (redirected : FilePath) → Hook K (ℕ × Vnode × Vnode)
  unfolding recursive_lookup find_next
  find_both_targets ap redirected = do
    r ← recursive_lookup kernel (kernel.current_thread) redirected super_user
    o ← find_next (r.0) (kernel.current_thread) (ap.target.path) caller
    pure (o.0, r.1, o.1)

  unfoldable pub find_targets :
      (error : ℕ) → RenameArgs → (redirected : FilePath) → Hook K (ℕ × Vnode × Vnode)
  unfolding find_no_target find_both_targets
  find_targets e ap redirected =
      if not (e == 0)
      then pure (e, null, null)
      else if ap.tvp == null
      then find_no_target ap redirected
      else find_both_targets ap redirected

  -- the recursive section of the three renames
  unfoldable pub rename_all : Switches → (shadow redirected original_fvp : Vnode) → Hook K ℕ
  unfolding enter_recursion leave_recursion call_vnop on_maps note
  rename_all switches shadow redirected original_fvp = do
    enter_recursion kernel (kernel.current_thread)
    first ← call_vnop kernel Vnop.rename (vector_of redirected) redirected super_user
    second ←
        if first == 0 then call_vnop kernel Vnop.rename original shadow super_user else pure first
    third ←
        if first == 0 && (second == 0 && switches.synchronise_with_original)
        then call_vnop kernel Vnop.rename original original_fvp caller
        else pure second
    if third == 0 then on_maps (remove_shadow_reverse shadow) else pure tt
    if third == 0 then note (purged shadow) else pure tt
    if third == 0 then note (purged original_fvp) else pure tt
    leave_recursion kernel
    pure third

  -- redirected I/O, with the paths converted or ENOMEM; the audit records and the puts of the end
  unfoldable pub rename_converted :
      Switches → ApplicationData → RenameArgs → (error : ℕ) → (both_paths : Bool) → Hook K ℕ
  unfolding find_next find_targets rename_all audit on_maps
  rename_converted switches app ap e0 both_paths =
      let from_redirected =
        convert_to_shadow_and_then_redirected_path ap.from.path app.redirect_to in
      let to_redirected =
        convert_to_shadow_and_then_redirected_path ap.target.path app.redirect_to in
      do
        fd ← find_next e0 (kernel.current_thread) (app.redirect_to) super_user
        td ← find_next (fd.0) (kernel.current_thread) (app.redirect_to) super_user
        f ← find_next (td.0) (ap.from_cookie) from_redirected super_user
        o ← find_next (f.0) (ap.from_cookie) (ap.from.path) caller
        t ← find_targets (o.0) ap to_redirected
        e ← if t.0 == 0 then rename_all switches (ap.fvp) (f.1) (o.1) else pure (t.0)
        audit Opcode.rename
        if both_paths then audit Opcode.rename else pure tt
        on_maps (put_unless_null (fd.1))
        on_maps (put_unless_null (f.1))
        on_maps (put_unless_null (td.1))
        on_maps (put_unless_null (t.1))
        on_maps (put_unless_null (o.1))
        on_maps (put_unless_null (t.2))
        pure e

  -- four conversions of two buffers, of which the first and the third are the redirected paths, and
  -- four of one
  unfoldable pub rename_redirected : Switches → ApplicationData → RenameArgs → Hook K ℕ
  unfolding allocate rename_converted
  rename_redirected switches app ap = do
    n ← allocate 12
    rename_converted switches app ap (if n == 12 then 0 else enomem) (leb 6 n)

  -- `gRedirectionIsNullAndVoid`
  unfoldable pub rename_unredirected : RenameArgs → Hook K ℕ
  unfolding enter_recursion leave_recursion call_vnop audit
  rename_unredirected ap = do
    enter_recursion kernel (kernel.current_thread)
    e ← call_vnop kernel Vnop.rename original (ap.fvp) caller
    leave_recursion kernel
    audit Opcode.rename
    pure e

  unfoldable pub controlled_rename : Switches → ApplicationData → RenameArgs → Hook K ℕ
  unfolding rename_unredirected rename_originals rename_redirected
  controlled_rename switches app ap =
      if switches.redirection_is_null_and_void
      then rename_unredirected ap
      else if app.redirect_io
      then rename_redirected switches app ap
      else rename_originals ap

  -- the application of the vnode, and else of the process
  unfoldable pub application_of_rename : Vnode → Hook K ℕ
  unfolding vnode_app_data application_by_context
  application_of_rename fvp = do
    p ← vnode_app_data fvp
    if p == null then application_by_context kernel open_existing else pure p

  -- `QvrVnopRenameHookEx2`
  unfoldable pub rename_hook : Switches → RenameArgs → Hook K ℕ
  unfolding application_of_rename if_controlled controlled_rename call_vnop
  rename_hook switches ap = do
    p ← application_of_rename (ap.fvp)
    if_controlled kernel (application_data_at p) (λ app. controlled_rename switches app ap)
        (call_vnop kernel Vnop.rename original (ap.fvp) caller)
