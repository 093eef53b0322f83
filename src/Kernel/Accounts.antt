-- ===== src/Kernel/Accounts.antt =====
-- The references that a hook takes and gives back: what a step of VFSHooks.cpp does to the account of
-- VnodeMap/References.antt, and how the accounts of steps compose.
use mac_osx_vfs_redirector.Base.{
  ℕ, ◌≡◌, ◌≢◌, refl, Bool, true, false, List, ◌∷◌, ◌==◌, if◌then◌else◌, arith,
}
use mac_osx_vfs_redirector.DataMap.{null}
use mac_osx_vfs_redirector.Event.{
  Vnode, FilePath, Vnop, Callee, Context, Opcode, UplFlags, Event, upl_created, transferred, takes,
  drops,
}
use mac_osx_vfs_redirector.Applications.{Adt}
use mac_osx_vfs_redirector.Kernel.Calls.{
  application_by_context, audit, ask, step, note, on_maps, from_maps, enter_recursion,
  leave_recursion, lookup_path, call_vnop, create_upl, abort_upl_unless_null, transfer,
  map_add_vnode_io, put, malloc, is_recursive,
}
use mac_osx_vfs_redirector.Kernel.{Kernel, World, Hook, pure, ◌>>=◌}
use mac_osx_vfs_redirector.VnodeMap.References.{
  put_unless_null-Accounted, Accounted, vnode_put-Accounted, add_vnode_io-Accounted,
}
use mac_osx_vfs_redirector.VnodeMap.{VnodeMap, put_unless_null}

-- A step that starts with the references `mine` in its hands ends with the references `after`.
pub record Keeps {K A : Type 0} (mine : List Vnode) (h : Hook K A) (after : A → List Vnode)
    : Type 0 where
  pub keeps : (w : World K) → Accounted mine w.maps → Accounted (after (h w).0) (h w).1.maps

-- A lookup that fails returns no vnode, as the documentation of vnode_lookup has it.
pub record FailsEmpty {K : Type 0} (kernel : Kernel K) : Type 0 where
  pub fails_empty :
      (p : FilePath) (c : Context) (k : K)
      → (kernel.vnode_lookup p c k).0.0 ≢ 0
      → (kernel.vnode_lookup p c k).0.1 ≡ null

module _ {K : Type 0} (mine : List Vnode) where
  pub pure-Keeps : {A : Type 0} (a : A) → Keeps {K = K} mine (pure a) (λ _. mine)
  unfolding pure
  pure-Keeps a = record { keeps = λ w ok. ok }

  pub ask-Keeps : {A : Type 0} (f : K → A) → Keeps mine (ask f) (λ _. mine)
  unfolding ask
  ask-Keeps f = record { keeps = λ w ok. ok }

  pub step-Keeps : {A : Type 0} (f : K → A × K) → Keeps mine (step f) (λ _. mine)
  unfolding step
  step-Keeps f = record { keeps = λ w ok. ok }

  -- An event that is about no reference.
  pub note-Keeps :
      (e : Event)
      → ((v : Vnode) → (takes v e ≡ 0) × (drops v e ≡ 0))
      → Keeps {K = K} mine (note e) (λ _. mine)
  unfolding note
  note-Keeps e none = record {
    keeps = λ w ok. record {
      shadow_valid = ok.shadow_valid;
      balance = λ v real. omega (arith, (none v).0, (none v).1, ok.balance v real);
    };
  }

  pub on_maps-Keeps :
      {after : List Vnode} (f : VnodeMap → VnodeMap)
      → ((s : VnodeMap) → Accounted mine s → Accounted after (f s))
      → Keeps {K = K} mine (on_maps f) (λ _. after)
  unfolding on_maps
  on_maps-Keeps f h = record { keeps = λ w ok. h w.maps ok }

  pub from_maps-Keeps :
      {A : Type 0} {after : A → List Vnode} (f : VnodeMap → A × VnodeMap)
      → ((s : VnodeMap) → Accounted mine s → Accounted (after (f s).0) (f s).1)
      → Keeps {K = K} mine (from_maps f) after
  unfolding from_maps
  from_maps-Keeps f h = record { keeps = λ w ok. h w.maps ok }

pub put-Keeps :
    {K : Type 0} (mine : List Vnode) (v : Vnode) → Keeps {K = K} (v ∷ mine) (put v) (λ _. mine)
unfolding put on_maps
put-Keeps mine v = record { keeps = λ w ok. vnode_put-Accounted w.maps v ok }

pub bind-Keeps :
    {K A B : Type 0} {mine : List Vnode} {after : B → List Vnode} {mid : A → List Vnode}
    {m : Hook K A} {f : A → Hook K B}
    → Keeps mine m mid
    → ((a : A) → Keeps (mid a) (f a) after)
    → Keeps mine (m >>= f) after
unfolding ◌>>=◌
bind-Keeps hm hf = record { keeps = λ w ok. (hf _).keeps _ (hm.keeps w ok) }

pub if-Keeps :
    {K B : Type 0} {mine : List Vnode} {after : B → List Vnode} (b : Bool) {h g : Hook K B}
    → (b ≡ true → Keeps mine h after)
    → (b ≡ false → Keeps mine g after)
    → Keeps mine (if b then h else g) after
if-Keeps true hh hg = hh refl
if-Keeps false hh hg = hg refl

module _ {K : Type 0} (mine : List Vnode) where
  -- NULLVP is no reference.
  pub null-Keeps : Keeps {K = K} mine (pure null) (λ v. v ∷ mine)
  unfolding pure
  null-Keeps = record {
    keeps = λ w ok. record {
      shadow_valid = ok.shadow_valid;
      balance = λ v real. ground (arith, ok.balance v real);
    };
  }

  -- A reference in hand is handed over with the vnode that is returned.
  pub hand_over-Keeps : (v : Vnode) → Keeps {K = K} (v ∷ mine) (pure v) (λ x. x ∷ mine)
  unfolding pure
  hand_over-Keeps v = record { keeps = λ w ok. ok }

  pub forget_null-Keeps :
      {A : Type 0} (x : Vnode) {h : Hook K A} {after : A → List Vnode}
      → x ≡ null
      → Keeps mine h after
      → Keeps (x ∷ mine) h after
  forget_null-Keeps x e k = record {
    keeps = λ w ok. k.keeps w (record {
      shadow_valid = ok.shadow_valid;
      balance = λ v real. ground (arith, e, ok.balance v real);
    });
  }

  pub swap-Keeps :
      {A : Type 0} (x y : Vnode) {h : Hook K A} {after : A → List Vnode}
      → Keeps (y ∷ x ∷ mine) h after
      → Keeps (x ∷ y ∷ mine) h after
  swap-Keeps x y k = record {
    keeps = λ w ok. k.keeps w (record {
      shadow_valid = ok.shadow_valid;
      balance = λ v real. omega (arith, ok.balance v real);
    });
  }

  pub put_unless_null-Keeps :
      (v : Vnode) → Keeps {K = K} (v ∷ mine) (on_maps (put_unless_null v)) (λ _. mine)
  put_unless_null-Keeps v = on_maps-Keeps (v ∷ mine) _ (λ s ok. put_unless_null-Accounted s v ok)

module _ {K : Type 0} (kernel : Kernel K) (mine : List Vnode) where
  pub is_recursive-Keeps : Keeps mine (is_recursive kernel) (λ _. mine)
  unfolding is_recursive
  is_recursive-Keeps = record { keeps = λ w ok. ok }

  pub malloc-Keeps : Keeps mine (malloc kernel) (λ _. mine)
  unfolding malloc
  malloc-Keeps = step-Keeps mine _

  pub enter_recursion-Keeps : (cookie : ℕ) → Keeps mine (enter_recursion kernel cookie) (λ _. mine)
  unfolding enter_recursion step ◌>>=◌ pure
  enter_recursion-Keeps cookie = record { keeps = λ w ok. ok }

  pub leave_recursion-Keeps : Keeps mine (leave_recursion kernel) (λ _. mine)
  unfolding leave_recursion
  leave_recursion-Keeps = record { keeps = λ w ok. ok }

  pub application_by_context-Keeps :
      (t : Adt) → Keeps mine (application_by_context kernel t) (λ _. mine)
  unfolding application_by_context
  application_by_context-Keeps t = record { keeps = λ w ok. ok }

  pub audit-Keeps : (op : Opcode) → Keeps {K = K} mine (audit op) (λ _. mine)
  unfolding audit
  audit-Keeps op = note-Keeps mine _ (λ v. (refl, refl))

  -- The reference that a lookup takes is in the hands of its caller.
  pub lookup_path-Keeps :
      FailsEmpty kernel
      → (p : FilePath) (c : Context) → Keeps mine (lookup_path kernel p c) (λ r. r.1 ∷ mine)
  unfolding lookup_path step note ◌>>=◌ pure
  lookup_path-Keeps fails p c = record {
    keeps = λ w ok. record {
      shadow_valid = ok.shadow_valid;
      balance = λ v real. ground (arith, fails.fails_empty p c w.kernel, ok.balance v real);
    };
  }

  pub call_vnop-Keeps :
      (op : Vnop) (f : Callee) (v : Vnode) (c : Context)
      → Keeps mine (call_vnop kernel op f v c) (λ _. mine)
  unfolding call_vnop step note is_recursive ◌>>=◌ pure
  call_vnop-Keeps op f v c = record {
    keeps = λ w ok. record {
      shadow_valid = ok.shadow_valid;
      balance = λ v real. ground (arith, ok.balance v real);
    };
  }

  pub create_upl-Keeps :
      (v : Vnode) (offset size : ℕ) (flags : UplFlags)
      → Keeps mine (create_upl kernel v offset size flags) (λ _. mine)
  unfolding create_upl
  create_upl-Keeps v offset size flags = bind-Keeps (step-Keeps mine _) (λ r.
      bind-Keeps (note-Keeps mine (upl_created v r.1 r.0) (λ v. (refl, refl)))
        (λ _. pure-Keeps mine r))

  pub abort_upl_unless_null-Keeps :
      (upl : ℕ) → Keeps {K = K} mine (abort_upl_unless_null upl) (λ _. mine)
  unfolding abort_upl_unless_null
  abort_upl_unless_null-Keeps upl =
      if-Keeps (upl == null) (λ _. pure-Keeps mine tt) (λ _. note-Keeps mine _ (λ v. (refl, refl)))

  pub transfer-Keeps :
      (op : Opcode) (v : Vnode) (offset size : ℕ)
      → Keeps mine (transfer kernel op v offset size) (λ _. mine)
  unfolding transfer
  transfer-Keeps op v offset size = bind-Keeps (step-Keeps mine _) (λ r.
      bind-Keeps (note-Keeps mine (transferred op v r) (λ v. (refl, refl)))
        (λ _. pure-Keeps mine r))

  pub map_add_vnode_io-Keeps :
      (vn io : Vnode) → Keeps mine (map_add_vnode_io kernel vn io) (λ _. mine)
  unfolding map_add_vnode_io step
  map_add_vnode_io-Keeps vn io =
      bind-Keeps (step-Keeps mine _)
        (λ a. on_maps-Keeps mine _ (λ s ok. add_vnode_io-Accounted s ok a vn io))
