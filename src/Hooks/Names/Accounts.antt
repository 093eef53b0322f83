-- ===== src/Hooks/Names/Accounts.antt =====
-- The references that pass through the calls of the hooks of names (VFSHooks.cpp).
use mac_osx_vfs_redirector.Base.{ℕ, ◌≡◌, ◌≢◌, List, ◌∷◌, arith, refl}
use mac_osx_vfs_redirector.DataMap.{null}
use mac_osx_vfs_redirector.Event.{
  Vnode, FilePath, Vnop, Callee, Context, Opcode, requested, resized,
}
use mac_osx_vfs_redirector.Hooks.Backing.{resize}
use mac_osx_vfs_redirector.Hooks.Names.{
  is_controlled_file, original_call, recursive_call, recursive_lookup,
}
use mac_osx_vfs_redirector.Kernel.Accounts.{
  Keeps, FailsEmpty, pure-Keeps, step-Keeps, note-Keeps, on_maps-Keeps, bind-Keeps,
  lookup_path-Keeps, enter_recursion-Keeps, leave_recursion-Keeps,
}
use mac_osx_vfs_redirector.Kernel.Calls.{
  get_vnode, close_vnode, recursion_cookie, call_vnop_for_vnode, open_path, map_add_vnode_app_data,
  lookup_path, map_add_vnode_shadow_reverse, step, note, on_maps, is_recursive,
}
use mac_osx_vfs_redirector.Kernel.{Kernel, World, Hook, pure, ◌>>=◌}
use mac_osx_vfs_redirector.VnodeMap.References.{
  Accounted, count, add_vnode_shadow_reverse-Accounted,
}
use mac_osx_vfs_redirector.VnodeMap.{VnodeMap, vnode_get, add_vnode_app_data}

-- What the documentation says of operations and vnode_open: one that fails returns no vnode, and a
-- lookup that succeeds returns one.
pub record ReturnsVnodes {K : Type 0} (kernel : Kernel K) : Type 0 where
  pub vnop_fails :
      (op : Vnop) (f : Callee) (v : Vnode) (c : Context) (k : K)
      → (kernel.vnop op f v c k).0.0 ≢ 0
      → (kernel.vnop op f v c k).0.1 ≡ null
  pub lookup_finds :
      (f : Callee) (v : Vnode) (c : Context) (k : K)
      → (kernel.vnop Vnop.lookup f v c k).0.0 ≡ 0
      → (kernel.vnop Vnop.lookup f v c k).0.1 ≢ null
  pub open_fails :
      (p : FilePath) (k : K) → (kernel.vnode_open p k).0.0 ≢ 0 → (kernel.vnode_open p k).0.1 ≡ null

-- The references in hand are the same, in another order or with NULLVP among them.
reorder-Accounted :
    {mine mine' : List Vnode} (s : VnodeMap)
    → ((v : Vnode) → v ≢ null → count v mine ≡ count v mine')
    → Accounted mine s
    → Accounted mine' s
reorder-Accounted s same ok = record {
  shadow_valid = ok.shadow_valid;
  balance = λ v real. omega (arith, ok.balance v real, same v real);
}

pub reorder-Keeps :
    {K A : Type 0} {mine : List Vnode} (mine' : List Vnode) {h : Hook K A} {after : A → List Vnode}
    → ((v : Vnode) → v ≢ null → count v mine ≡ count v mine')
    → Keeps mine' h after
    → Keeps mine h after
reorder-Keeps mine' same k = record { keeps = λ w ok. k.keeps w (reorder-Accounted w.maps same ok) }

pub weaken-Keeps :
    {K A : Type 0} {mine : List Vnode} {h : Hook K A} {after after' : A → List Vnode}
    → Keeps mine h after
    → ((a : A) (v : Vnode) → v ≢ null → count v (after a) ≡ count v (after' a))
    → Keeps mine h after'
weaken-Keeps {h} k same = record {
  keeps = λ w ok. reorder-Accounted (h w).1.maps (same (h w).0) (k.keeps w ok);
}

pub return-Keeps :
    {K A : Type 0} {mine : List Vnode} (a : A) {after : A → List Vnode}
    → ((v : Vnode) → v ≢ null → count v mine ≡ count v (after a))
    → Keeps {K = K} mine (pure a) after
unfolding pure
return-Keeps a same = record { keeps = λ w ok. reorder-Accounted w.maps same ok }

-- A step whose result is known to have a property.
pub bind-Keeps_where :
    {K A B : Type 0} {mine : List Vnode} {after : B → List Vnode} {mid : A → List Vnode}
    {m : Hook K A} {f : A → Hook K B} (P : A → Type 0)
    → ((w : World K) → P (m w).0)
    → Keeps mine m mid
    → ((a : A) → P a → Keeps (mid a) (f a) after)
    → Keeps mine (m >>= f) after
unfolding ◌>>=◌
bind-Keeps_where P known hm hf = record { keeps = λ w ok. (hf _ (known w)).keeps _ (hm.keeps w ok) }

module _ {K : Type 0} (mine : List Vnode) where
  pub get_vnode-Keeps : (v : Vnode) → Keeps {K = K} mine (get_vnode v) (λ _. v ∷ mine)
  unfolding get_vnode on_maps vnode_get
  get_vnode-Keeps v = record {
    keeps = λ w ok. record {
      shadow_valid = ok.shadow_valid;
      balance = λ x real. ground (arith, ok.balance x real);
    };
  }

  pub close_vnode-Keeps : (v : Vnode) → Keeps {K = K} (v ∷ mine) (close_vnode v) (λ _. mine)
  unfolding close_vnode note
  close_vnode-Keeps v = record {
    keeps = λ w ok. record {
      shadow_valid = ok.shadow_valid;
      balance = λ x real. ground (arith, ok.balance x real);
    };
  }

module _ {K : Type 0} (kernel : Kernel K) (mine : List Vnode) where
  pub recursion_cookie-Keeps : Keeps mine (recursion_cookie kernel) (λ _. mine)
  unfolding recursion_cookie
  recursion_cookie-Keeps = record { keeps = λ w ok. ok }

  pub resize-Keeps :
      (vn : Vnode) (size : ℕ) (c : Context) → Keeps mine (resize kernel vn size c) (λ _. mine)
  unfolding resize
  resize-Keeps vn size c = bind-Keeps (step-Keeps mine _) (λ e.
      bind-Keeps (note-Keeps mine (resized vn size) (λ v. (refl, refl))) (λ _. pure-Keeps mine e))

  pub is_controlled_file-Keeps :
      (op : Opcode) (p : FilePath) → Keeps mine (is_controlled_file kernel op p) (λ _. mine)
  unfolding is_controlled_file
  is_controlled_file-Keeps op p =
      bind-Keeps (note-Keeps mine (requested Opcode.filter) (λ v. (refl, refl)))
        (λ _. step-Keeps mine _)

  pub map_add_vnode_app_data-Keeps :
      (vn : Vnode) (app : ℕ) → Keeps mine (map_add_vnode_app_data kernel vn app) (λ _. mine)
  unfolding map_add_vnode_app_data add_vnode_app_data
  map_add_vnode_app_data-Keeps vn app = bind-Keeps (step-Keeps mine _) (λ a.
      on_maps-Keeps mine _
        (λ s ok. record { shadow_valid = ok.shadow_valid; balance = ok.balance }))

  pub map_add_vnode_shadow_reverse-Keeps :
      (shadow vn : Vnode)
      → vn ≢ null
      → Keeps mine (map_add_vnode_shadow_reverse kernel shadow vn) (λ _. mine)
  unfolding map_add_vnode_shadow_reverse
  map_add_vnode_shadow_reverse-Keeps shadow vn real =
      bind-Keeps (step-Keeps mine _) (λ a.
        on_maps-Keeps mine _ (λ s ok. add_vnode_shadow_reverse-Accounted s ok a shadow vn real))

-- What a lookup returns
abbrev pub Finds : ℕ × Vnode → Type 0
Finds r = r.0 ≡ 0 → r.1 ≢ null

-- What a lookup or an open returns
abbrev pub ReturnsNone : ℕ × Vnode → Type 0
ReturnsNone r = r.0 ≢ 0 → r.1 ≡ null

module _ {K : Type 0} {kernel : Kernel K} (returns : ReturnsVnodes kernel) (mine : List Vnode) where
  pub call_vnop_for_vnode-Keeps :
      (op : Vnop) (f : Callee) (v : Vnode) (c : Context)
      → Keeps mine (call_vnop_for_vnode kernel op f v c) (λ r. r.1 ∷ mine)
  unfolding call_vnop_for_vnode step note is_recursive ◌>>=◌ pure
  call_vnop_for_vnode-Keeps op f v c = record {
    keeps = λ w ok. record {
      shadow_valid = ok.shadow_valid;
      balance = λ x real. ground (arith, returns.vnop_fails op f v c w.kernel, ok.balance x real);
    };
  }

  pub open_path-Keeps : (p : FilePath) → Keeps mine (open_path kernel p) (λ r. r.1 ∷ mine)
  unfolding open_path step note ◌>>=◌ pure
  open_path-Keeps p = record {
    keeps = λ w ok. record {
      shadow_valid = ok.shadow_valid;
      balance = λ x real. ground (arith, returns.open_fails p w.kernel, ok.balance x real);
    };
  }

  pub original_call-Keeps :
      (op : Vnop) (v : Vnode) → Keeps mine (original_call kernel op v) (λ r. r.1 ∷ mine)
  unfolding original_call
  original_call-Keeps op v = call_vnop_for_vnode-Keeps op _ v _

module _ {K : Type 0} {kernel : Kernel K} (returns : ReturnsVnodes kernel) (mine : List Vnode) where
  pub recursive_call-Keeps :
      (op : Vnop) (v : Vnode) → Keeps mine (recursive_call kernel op v) (λ r. r.1 ∷ mine)
  unfolding recursive_call
  recursive_call-Keeps op v =
      bind-Keeps (enter_recursion-Keeps kernel mine kernel.current_thread) (λ _.
        bind-Keeps (original_call-Keeps returns mine op v) (λ r.
          bind-Keeps (leave_recursion-Keeps kernel (r.1 ∷ mine))
            (λ _. return-Keeps r (λ v real. refl))))

module _ {K : Type 0} {kernel : Kernel K} (returns : ReturnsVnodes kernel) where
  pub open_path-ReturnsNone : (p : FilePath) (w : World K) → ReturnsNone (open_path kernel p w).0
  unfolding open_path step note ◌>>=◌ pure
  open_path-ReturnsNone p w = returns.open_fails p w.kernel

  pub recursive_call-Finds :
      (v : Vnode) (w : World K) → Finds (recursive_call kernel Vnop.lookup v w).0
  unfolding recursive_call original_call call_vnop_for_vnode step note is_recursive ◌>>=◌ pure
  recursive_call-Finds v w = returns.lookup_finds _ v _ _

module _ {K : Type 0} {kernel : Kernel K} (fails : FailsEmpty kernel) (mine : List Vnode) where
  pub recursive_lookup-Keeps :
      (cookie : ℕ) (p : FilePath) (c : Context)
      → Keeps mine (recursive_lookup kernel cookie p c) (λ r. r.1 ∷ mine)
  unfolding recursive_lookup
  recursive_lookup-Keeps cookie p c = bind-Keeps (enter_recursion-Keeps kernel mine cookie) (λ _.
      bind-Keeps (lookup_path-Keeps kernel mine fails p c) (λ r.
        bind-Keeps (leave_recursion-Keeps kernel (r.1 ∷ mine))
          (λ _. return-Keeps r (λ v real. refl))))

module _ {K : Type 0} {kernel : Kernel K} (fails : FailsEmpty kernel) where
  pub lookup_path-ReturnsNone :
      (p : FilePath) (c : Context) (w : World K) → ReturnsNone (lookup_path kernel p c w).0
  unfolding lookup_path step note ◌>>=◌ pure
  lookup_path-ReturnsNone p c w = fails.fails_empty p c w.kernel

  pub recursive_lookup-ReturnsNone :
      (cookie : ℕ) (p : FilePath) (c : Context) (w : World K)
      → ReturnsNone (recursive_lookup kernel cookie p c w).0
  unfolding recursive_lookup lookup_path step note ◌>>=◌ pure
  recursive_lookup-ReturnsNone cookie p c w = fails.fails_empty p c _
