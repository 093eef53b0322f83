-- ===== src/Kernel/Quiet.antt =====
-- The vnode operations that a step of VFSHooks.cpp calls, and the steps that call none.

use mac_osx_vfs_redirector.Base.{
  arith, ℕ, ◌==◌, ◌≡◌, refl, ◌∙◌, Bool, true, false, List, [], ◌∷◌, if◌then◌else◌,
}
use mac_osx_vfs_redirector.DataMap.{null}
use mac_osx_vfs_redirector.Event.{
  Vnode, FilePath, Context, Opcode, UplFlags, Event, called, upl_created, transferred, audited,
  upl_aborted, looked_up,
}
use mac_osx_vfs_redirector.Kernel.Calls.{
  ask, step, note, on_maps, from_maps, enter_recursion, leave_recursion, lookup_path, audit,
  create_upl, abort_upl_unless_null, transfer, map_add_vnode_io, malloc, is_recursive,
}
use mac_osx_vfs_redirector.Kernel.{Kernel, World, Hook, pure, ◌>>=◌}
use mac_osx_vfs_redirector.VnodeMap.{VnodeMap, add_vnode_io}

-- The calls of vnode operations in a log.
unfoldable pub operations : List Event → List Event
operations [] = []
operations (called op f v c r e x ∷ l) = called op f v c r e x ∷ operations l
operations (_ ∷ l) = operations l

-- A step that calls no vnode operation.
pub record Quiet {K A : Type 0} (h : Hook K A) : Type 0 where
  pub quiet : (w : World K) → operations (h w).1.maps.log ≡ operations w.maps.log

module _ {K : Type 0} where
  pub pure-Quiet : {A : Type 0} (a : A) → Quiet {K = K} (pure a)
  unfolding pure
  pure-Quiet a = record { quiet = λ w. refl }

  pub ask-Quiet : {A : Type 0} (f : K → A) → Quiet (ask f)
  unfolding ask
  ask-Quiet f = record { quiet = λ w. refl }

  pub step-Quiet : {A : Type 0} (f : K → A × K) → Quiet (step f)
  unfolding step
  step-Quiet f = record { quiet = λ w. refl }

  pub note-Quiet :
      (e : Event) → ((l : List Event) → operations (e ∷ l) ≡ operations l) → Quiet {K = K} (note e)
  unfolding note
  note-Quiet e h = record { quiet = λ w. h w.maps.log }

  pub on_maps-Quiet :
      (f : VnodeMap → VnodeMap)
      → ((s : VnodeMap) → operations (f s).log ≡ operations s.log)
      → Quiet {K = K} (on_maps f)
  unfolding on_maps
  on_maps-Quiet f h = record { quiet = λ w. h w.maps }

  pub from_maps-Quiet :
      {A : Type 0} (f : VnodeMap → A × VnodeMap)
      → ((s : VnodeMap) → operations (f s).1.log ≡ operations s.log)
      → Quiet {K = K} (from_maps f)
  unfolding from_maps
  from_maps-Quiet f h = record { quiet = λ w. h w.maps }

  pub bind-Quiet :
      {A B : Type 0} {m : Hook K A} {f : A → Hook K B}
      → Quiet m
      → ((a : A) → Quiet (f a))
      → Quiet (m >>= f)
  unfolding ◌>>=◌
  bind-Quiet hm hf = record { quiet = λ w. (hf _).quiet _ ∙ hm.quiet w }

  pub if-Quiet :
      {A : Type 0} (b : Bool) {h g : Hook K A} → Quiet h → Quiet g → Quiet (if b then h else g)
  if-Quiet true hh hg = hh
  if-Quiet false hh hg = hg

module _ {K : Type 0} (kernel : Kernel K) where
  pub is_recursive-Quiet : Quiet (is_recursive kernel)
  unfolding is_recursive
  is_recursive-Quiet = record { quiet = λ w. refl }

  pub malloc-Quiet : Quiet (malloc kernel)
  unfolding malloc
  malloc-Quiet = step-Quiet _

  pub enter_recursion-Quiet : (cookie : ℕ) → Quiet (enter_recursion kernel cookie)
  unfolding enter_recursion step ◌>>=◌ pure
  enter_recursion-Quiet cookie = record { quiet = λ w. refl }

  pub leave_recursion-Quiet : Quiet (leave_recursion kernel)
  unfolding leave_recursion
  leave_recursion-Quiet = record { quiet = λ w. refl }

  pub audit-Quiet : (op : Opcode) → Quiet {K = K} (audit op)
  unfolding audit operations
  audit-Quiet op = note-Quiet (audited op) (λ l. refl)

  pub lookup_path-Quiet : (p : FilePath) (c : Context) → Quiet (lookup_path kernel p c)
  unfolding lookup_path operations
  lookup_path-Quiet p c =
      bind-Quiet (step-Quiet _)
        (λ r. bind-Quiet (note-Quiet (looked_up p r.0 r.1) (λ l. refl)) (λ _. pure-Quiet r))

  pub create_upl-Quiet :
      (v : Vnode) (offset size : ℕ) (flags : UplFlags)
      → Quiet (create_upl kernel v offset size flags)
  unfolding create_upl operations
  create_upl-Quiet v offset size flags =
      bind-Quiet (step-Quiet _)
        (λ r. bind-Quiet (note-Quiet (upl_created v r.1 r.0) (λ l. refl)) (λ _. pure-Quiet r))

  pub abort_upl_unless_null-Quiet : (upl : ℕ) → Quiet {K = K} (abort_upl_unless_null upl)
  unfolding abort_upl_unless_null operations
  abort_upl_unless_null-Quiet upl =
      if-Quiet (upl == null) (pure-Quiet tt) (note-Quiet (upl_aborted upl) (λ l. refl))

  pub transfer-Quiet :
      (op : Opcode) (v : Vnode) (offset size : ℕ) → Quiet (transfer kernel op v offset size)
  unfolding transfer operations
  transfer-Quiet op v offset size =
      bind-Quiet (step-Quiet _)
        (λ e. bind-Quiet (note-Quiet (transferred op v e) (λ l. refl)) (λ _. pure-Quiet e))

  pub map_add_vnode_io-Quiet : (vn io : Vnode) → Quiet (map_add_vnode_io kernel vn io)
  unfolding map_add_vnode_io add_vnode_io operations
  map_add_vnode_io-Quiet vn io =
      bind-Quiet (step-Quiet _) (λ a. on_maps-Quiet _ (λ s. ground arith))
