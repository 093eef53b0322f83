-- ===== src/Hooks/Names/Lookup.antt =====
-- VFSFilter0/VFSFilter0/VFSHooks.cpp 414-1071, the lookup of a name: QvrVnopLookupHookEx2. The result
-- is the error and `*ap->a_vpp`, which is NULLVP at the start.
pub mod References
pub mod Marks
pub mod Handover
use mac_osx_vfs_redirector.Applications.{
  ApplicationData, application_data_at, create_new, open_existing,
}
use mac_osx_vfs_redirector.Base.{
  ℕ, Bool, true, false, not, ◌&&◌, ◌||◌, Option, none, some, ◌==◌, if◌then◌else◌, length,
}
use mac_osx_vfs_redirector.DataMap.{null}
use mac_osx_vfs_redirector.Event.{
  Vnode, FilePath, Vnop, Opcode, super_user, caller, name_op_set, entry_barred,
}
use mac_osx_vfs_redirector.Hooks.Backing.{is_regular, associate_vnode_for_redirected_io, resize}
use mac_osx_vfs_redirector.Hooks.Exchange.{redirects_io, request}
use mac_osx_vfs_redirector.Hooks.Names.{
  ComponentName, Switches, enoent, ejustreturn, redirect_to, is_controlled_file, original_call,
  recursive_call, recursive_lookup,
}
use mac_osx_vfs_redirector.Hooks.{vnode_app_data, if_controlled, enomem}
use mac_osx_vfs_redirector.Kernel.Calls.{
  ask, step, note, on_maps, from_maps, put, get_vnode, close_vnode, audit, is_recursive,
  is_user_client, enter_recursion, leave_recursion, application_by_context, lookup_path, malloc,
  recursion_cookie, open_path, map_add_vnode_app_data, map_add_vnode_shadow_reverse,
}
use mac_osx_vfs_redirector.Kernel.{Kernel, Hook, pure, ◌>>=◌, ◌>>◌}
use mac_osx_vfs_redirector.Paths.{
  convert_to_shadow_copy_path, convert_to_redirected_path, equal_ignoring_case,
}
use mac_osx_vfs_redirector.VnodeMap.{get_vnode_io_ref, put_unless_null}

-- LOOKUP is 0, CREATE 1, DELETE 2 and RENAME 3.
abbrev pub create_or_rename_or_delete : ℕ → Bool
create_or_rename_or_delete op = op == 1 || op == 3 || op == 2

-- Where the part for redirected I/O ends: with the result of the hook, or with none, for the
-- redirection of the path to go on; and the vnodes that are put at the end.
pub record Stage : Type 0 where
  pub result : Option (ℕ × Vnode)
  pub original_vnode : Vnode
  pub shadow_vnode : Vnode

abbrev pub finished : ℕ × Vnode → Stage
finished r = record { result = some r; original_vnode = null; shadow_vnode = null }

-- The result of the hook, if it is there, with the vnode that belongs to the caller
abbrev pub vnode_of : Option (ℕ × Vnode) → Vnode
vnode_of none = null
vnode_of (some r) = r.1

module _ {K : Type 0} (kernel : Kernel K) where
  -- A lookup that is passed through, with the cn_nameiop of the rename hook's componentname
  unfoldable pub pass_lookup : Vnode → Hook K (ℕ × Vnode)
  unfolding recursion_cookie ask note original_call
  pass_lookup dvp = do
    cookie ← recursion_cookie kernel
    op ← ask (kernel.name_op_at cookie)
    if not (cookie == null) && not (kernel.current_thread == cookie)
        then note (name_op_set op)
        else pure tt
    original_call kernel Vnop.lookup dvp

  -- "equalize file sizes"
  unfoldable pub equalize_sizes : (original shadow : Vnode) → Hook K ℕ
  unfolding ask resize
  equalize_sizes original shadow = do
    o ← ask (kernel.get_size original caller)
    s ← ask (kernel.get_size shadow super_user)
    if not (o.0 == 0)
        then pure (o.0)
        else if not (s.0 == 0)
        then pure (s.0)
        else if not (s.1 == o.1)
        then resize kernel shadow (o.1) super_user
        else pure 0

  -- the shadow file made anew: the error and the vnode
  unfoldable pub create_shadow_file : FilePath → (original : Vnode) → Hook K (ℕ × Vnode)
  unfolding open_path get_vnode close_vnode equalize_sizes
  create_shadow_file shadow_path original = do
    r ← open_path kernel shadow_path
    if not (r.0 == 0) then pure r else do
      get_vnode (r.1)
      close_vnode (r.1)
      e ← if r.1 == original then pure 0 else equalize_sizes original (r.1)
      pure (e, r.1)

  -- the shadow file, looked up or made, and whether it was made
  unfoldable pub find_shadow_file : FilePath → (original : Vnode) → Hook K ((ℕ × Vnode) × Bool)
  unfolding lookup_path create_shadow_file
  find_shadow_file shadow_path original = do
    found ← lookup_path kernel shadow_path super_user
    if found.0 == 0
        then pure (found, false)
        else do made ← create_shadow_file shadow_path original; pure (made, true)

  -- the recursive section in which it is found, with the entry of the shadow map
  unfoldable pub shadow_section : FilePath → (original : Vnode) → Hook K ((ℕ × Vnode) × Bool)
  unfolding enter_recursion leave_recursion find_shadow_file map_add_vnode_shadow_reverse
  shadow_section shadow_path original = do
    enter_recursion kernel (kernel.current_thread)
    r ← find_shadow_file shadow_path original
    if r.0.0 == 0 && not (r.0.1 == original)
        then map_add_vnode_shadow_reverse kernel (r.0.1) original
        else pure tt
    leave_recursion kernel
    pure r

  -- the shadow vnode for the caller, if it has a backing vnode, and else NULLVP
  unfoldable pub cover_with_shadow : (p : ℕ) → ApplicationData → (shadow : Vnode) → Hook K Vnode
  unfolding associate_vnode_for_redirected_io from_maps map_add_vnode_app_data put get_vnode
  cover_with_shadow p app shadow = do
    associate_vnode_for_redirected_io kernel shadow app false
    backing ← from_maps (get_vnode_io_ref shadow)
    if backing == null
        then pure null
        else do map_add_vnode_app_data kernel shadow p; put backing; get_vnode shadow; pure shadow

  -- what is done with a shadow file that was found without an error
  unfoldable pub offer_shadow_file :
      (p : ℕ) → ApplicationData → (created : Bool) → (shadow : Vnode) → Hook K Vnode
  unfolding malloc request cover_with_shadow
  offer_shadow_file p app created shadow = do
    allocated ← malloc kernel
    if not allocated then pure null else do
      if created then request kernel Opcode.lookup else pure tt
      cover_with_shadow p app shadow

  -- a controlled regular file that has been looked up
  unfoldable pub shadow_stage : (p : ℕ) → ApplicationData → FilePath → Vnode → Hook K Stage
  unfolding get_vnode put malloc shadow_section offer_shadow_file
  shadow_stage p app path vnode = do
    get_vnode vnode
    put vnode
    path_allocated ← malloc kernel
    name_allocated ← if path_allocated then malloc kernel else pure false
    if not name_allocated
        then pure
            (record { result = some (enomem, null); original_vnode = vnode; shadow_vnode = null })
        else do
          r ← shadow_section (convert_to_shadow_copy_path path) vnode
          v ← if r.0.0 == 0 then offer_shadow_file p app (r.1) (r.0.1) else pure null
          pure (record {
            result = if v == null then none else some (0, v);
            original_vnode = vnode;
            shadow_vnode = r.0.1;
          })

  -- `if( appData->redirectIO )`
  unfoldable pub redirect_io_stage :
      (p : ℕ) → ApplicationData → Vnode → ComponentName → Hook K Stage
  unfolding recursive_call vnode_app_data ask is_controlled_file shadow_stage
  redirect_io_stage p app dvp cn = do
    r ← recursive_call kernel Vnop.lookup dvp
    q ← vnode_app_data (r.1)
    type ← ask (kernel.vnode_vtype (r.1))
    if not (r.0 == 0) || redirects_io (application_data_at q) || not (is_regular type)
        then pure (finished r)
        else do
          controlled ← is_controlled_file kernel Opcode.lookup (cn.path)
          if controlled then shadow_stage p app (cn.path) (r.1) else pure (finished r)

  -- the lookup of the redirected path, after the original one gave `r`
  unfoldable pub swap_to_redirected :
      (p : ℕ) → (redirected : FilePath) → ℕ × Vnode → Hook K (ℕ × Vnode)
  unfolding recursive_lookup on_maps map_add_vnode_app_data
  swap_to_redirected p redirected r = do
    found ← recursive_lookup kernel (kernel.current_thread) redirected super_user
    if not (found.0 == 0)
        then pure (
            if r.0 == 0 then r else (
              if r.0 == ejustreturn && (found.0 == enoent || found.0 == ejustreturn)
                  then ejustreturn
                  else found.0,
              r.1,
            ))
        else if found.1 == null
        then pure (if r.1 == null then (ejustreturn, null) else r)
        else do
          on_maps (put_unless_null (r.1))
          map_add_vnode_app_data kernel (found.1) p
          pure (0, found.1)

  -- the original lookup of the path redirection
  unfoldable pub synchronised_lookup : Switches → Vnode → ComponentName → Hook K (ℕ × Vnode)
  unfolding enter_recursion leave_recursion original_call
  synchronised_lookup switches dvp cn = do
    enter_recursion kernel (kernel.current_thread)
    r ←
        if switches.synchronise_with_original
        then original_call kernel Vnop.lookup dvp
        else pure (if create_or_rename_or_delete (cn.name_op) then ejustreturn else enoent, null)
    leave_recursion kernel
    pure r

  unfoldable pub synchronised_redirection :
      Switches → (p : ℕ) → (redirected : FilePath) → Vnode → ComponentName → Hook K (ℕ × Vnode)
  unfolding synchronised_lookup ask swap_to_redirected
  synchronised_redirection switches p redirected dvp cn = do
    r ← synchronised_lookup switches dvp cn
    type ← ask (kernel.vnode_vtype (r.1))
    if r.0 == 0 && not (is_regular type)
        then pure r
        else if r.0 == 0
            || r.0 == ejustreturn && create_or_rename_or_delete (cn.name_op)
            || r.0 == enoent
        then swap_to_redirected p redirected r
        else pure r

  -- "Path redirection", up to the audit record of the end
  unfoldable pub redirect_path : Switches → Vnode → ComponentName → Hook K (ℕ × Vnode)
  unfolding application_by_context note malloc request recursive_call synchronised_redirection audit
  redirect_path switches dvp cn = do
    p ← application_by_context kernel open_existing
    note entry_barred
    allocated ← malloc kernel
    if not allocated then pure (enomem, null) else do
      request kernel Opcode.lookup
      r ←
          if switches.redirection_is_null_and_void
          then recursive_call kernel Vnop.lookup dvp
          else synchronised_redirection switches p
              (convert_to_redirected_path (cn.path) (redirect_to p)) dvp cn
      audit Opcode.lookup
      pure r

  -- the lookup for a controlled application, outside of the directory that it is redirected to
  unfoldable pub redirect_lookup :
      Switches → (p : ℕ) → ApplicationData → Vnode → ComponentName → Hook K (ℕ × Vnode)
  unfolding redirect_io_stage redirect_path on_maps
  redirect_lookup switches p app dvp cn = do
    s ←
        if app.redirect_io
        then redirect_io_stage p app dvp cn
        else pure (record { result = none; original_vnode = null; shadow_vnode = null })
    r ← elim (s.result) [ some r ↦ pure r | none ↦ redirect_path switches dvp cn ]
    on_maps (put_unless_null (s.shadow_vnode))
    on_maps (put_unless_null (s.original_vnode))
    pure r

  unfoldable pub controlled_lookup :
      Switches → (p : ℕ) → ApplicationData → Vnode → ComponentName → Hook K (ℕ × Vnode)
  unfolding original_call redirect_lookup
  controlled_lookup switches p app dvp cn =
      if equal_ignoring_case (length app.redirect_to) cn.path app.redirect_to
      then original_call kernel Vnop.lookup dvp
      else redirect_lookup switches p app dvp cn

  -- `QvrVnopLookupHookEx2`
  unfoldable pub lookup_hook : Switches → Vnode → ComponentName → Hook K (ℕ × Vnode)
  unfolding application_by_context if_controlled controlled_lookup pass_lookup
  lookup_hook switches dvp cn = do
    p ← application_by_context kernel create_new
    if_controlled kernel (application_data_at p) (λ app. controlled_lookup switches p app dvp cn)
        (pass_lookup dvp)
