-- ===== src/Kernel/Marks.antt =====
-- What a step of VFSHooks.cpp does to the recursion mark of the thread that runs it.
use mac_osx_vfs_redirector.Applications.{Adt}
use mac_osx_vfs_redirector.Base.{
  ℕ, ◌≡◌, ◌≢◌, refl, sym, subst, ◌∙◌, ◌==◌, arith, Bool, true, false, if◌then◌else◌,
}
use mac_osx_vfs_redirector.DataMap.Laws.{IsValid, add-IsValid, remove-IsValid}
use mac_osx_vfs_redirector.DataMap.{DataMap, null}
use mac_osx_vfs_redirector.Event.{Vnode, FilePath, Vnop, Callee, Context, Opcode, UplFlags, Event}
use mac_osx_vfs_redirector.Kernel.Calls.{
  ask, step, note, on_maps, from_maps, enter_recursion, leave_recursion, lookup_path, call_vnop,
  create_upl, abort_upl_unless_null, transfer, map_add_vnode_io, put, malloc, is_recursive,
  application_by_context, audit, is_user_client, call_vnop_for_vnode, recursion_cookie, get_vnode,
  close_vnode, open_path, map_add_vnode_app_data, map_add_vnode_shadow_reverse,
}
use mac_osx_vfs_redirector.Kernel.{Kernel, World, Hook, pure, ◌>>=◌}
use mac_osx_vfs_redirector.Recursion.{
  is_recursive_call, leave_recursive_call, enter_recursive_call, leave-is_recursive_call,
}
use mac_osx_vfs_redirector.VnodeMap.{VnodeMap}

-- What is known of the mark: the thread has none, or it may have one.
pub data Mark : Type 0 where
  unmarked maybe_marked : Mark

abbrev pub Has : {K : Type 0} → Kernel K → Mark → DataMap → Type 0
Has kernel unmarked m = is_recursive_call kernel.current_thread m ≡ false
Has kernel maybe_marked m = Unit

pub record Marks {K A : Type 0} (kernel : Kernel K) (p q : Mark) (h : Hook K A) : Type 0 where
  pub marks :
      (w : World K)
      → IsValid w.recursion
      → Has kernel p w.recursion
      → IsValid (h w).1.recursion × Has kernel q (h w).1.recursion

leave-IsValid : (t : ℕ) (m : DataMap) → IsValid m → IsValid (leave_recursive_call t m)
unfolding leave_recursive_call
leave-IsValid t m v = remove-IsValid t m v

own : (t : ℕ) (b : Bool) → (if t == t then false else b) ≡ false
own t b = ground arith

pub bind-Marks :
    {K A B : Type 0} {kernel : Kernel K} {p q r : Mark} {m : Hook K A} {f : A → Hook K B}
    → Marks kernel p q m
    → ((a : A) → Marks kernel q r (f a))
    → Marks kernel p r (m >>= f)
unfolding ◌>>=◌
bind-Marks hm hf = record { marks = λ w v h. let (v', h') = hm.marks w v h in (hf _).marks _ v' h' }

pub if-Marks :
    {K A : Type 0} {kernel : Kernel K} {p q : Mark} (b : Bool) {h g : Hook K A}
    → Marks kernel p q h
    → Marks kernel p q g
    → Marks kernel p q (if b then h else g)
if-Marks true hh hg = hh
if-Marks false hh hg = hg

is_unmarked :
    {K : Type 0} (kernel : Kernel K) (q : Mark) (m : DataMap)
    → Has kernel unmarked m
    → Has kernel q m
is_unmarked kernel unmarked m h = h
is_unmarked kernel maybe_marked m h = tt

module _ {K : Type 0} (kernel : Kernel K) {p : Mark} where
  -- A step that leaves the marks of all threads as they are.
  pub leaves-Marks :
      {A : Type 0} (h : Hook K A)
      → ((w : World K) → (h w).1.recursion ≡ w.recursion)
      → Marks kernel p p h
  leaves-Marks h e = record {
    marks = λ w v m. subst (λ d. IsValid d × Has kernel p d) (sym (e w)) (v, m);
  }

  pub pure-Marks : {A : Type 0} (a : A) → Marks kernel p p (pure a)
  unfolding pure
  pure-Marks a = leaves-Marks _ (λ w. refl)

  pub ask-Marks : {A : Type 0} (f : K → A) → Marks kernel p p (ask f)
  unfolding ask
  ask-Marks f = leaves-Marks _ (λ w. refl)

  pub step-Marks : {A : Type 0} (f : K → A × K) → Marks kernel p p (step f)
  unfolding step
  step-Marks f = leaves-Marks _ (λ w. refl)

  pub note-Marks : (e : Event) → Marks kernel p p (note e)
  unfolding note
  note-Marks e = leaves-Marks _ (λ w. refl)

  pub on_maps-Marks : (f : VnodeMap → VnodeMap) → Marks kernel p p (on_maps f)
  unfolding on_maps
  on_maps-Marks f = leaves-Marks _ (λ w. refl)

  pub from_maps-Marks : {A : Type 0} (f : VnodeMap → A × VnodeMap) → Marks kernel p p (from_maps f)
  unfolding from_maps
  from_maps-Marks f = leaves-Marks _ (λ w. refl)

  pub put-Marks : (v : Vnode) → Marks kernel p p (put v)
  unfolding put
  put-Marks v = on_maps-Marks _

  pub is_recursive-Marks : Marks kernel p p (is_recursive kernel)
  unfolding is_recursive
  is_recursive-Marks = leaves-Marks _ (λ w. refl)

  pub is_user_client-Marks : Marks kernel p p (is_user_client kernel)
  unfolding is_user_client
  is_user_client-Marks = ask-Marks _

  pub malloc-Marks : Marks kernel p p (malloc kernel)
  unfolding malloc
  malloc-Marks = step-Marks _

  pub application_by_context-Marks : (t : Adt) → Marks kernel p p (application_by_context kernel t)
  unfolding application_by_context
  application_by_context-Marks t = leaves-Marks _ (λ w. refl)

  pub audit-Marks : (op : Opcode) → Marks kernel p p (audit op)
  unfolding audit
  audit-Marks op = note-Marks _

  pub lookup_path-Marks : (f : FilePath) (c : Context) → Marks kernel p p (lookup_path kernel f c)
  unfolding lookup_path ◌>>=◌ pure
  lookup_path-Marks f c = leaves-Marks _ (λ w. refl)

  pub call_vnop-Marks :
      (op : Vnop) (f : Callee) (v : Vnode) (c : Context)
      → Marks kernel p p (call_vnop kernel op f v c)
  unfolding call_vnop ◌>>=◌ pure
  call_vnop-Marks op f v c = leaves-Marks _ (λ w. refl)

  pub call_vnop_for_vnode-Marks :
      (op : Vnop) (f : Callee) (v : Vnode) (c : Context)
      → Marks kernel p p (call_vnop_for_vnode kernel op f v c)
  unfolding call_vnop_for_vnode ◌>>=◌ pure
  call_vnop_for_vnode-Marks op f v c = leaves-Marks _ (λ w. refl)

  pub recursion_cookie-Marks : Marks kernel p p (recursion_cookie kernel)
  unfolding recursion_cookie
  recursion_cookie-Marks = leaves-Marks _ (λ w. refl)

  pub get_vnode-Marks : (v : Vnode) → Marks kernel p p (get_vnode v)
  unfolding get_vnode
  get_vnode-Marks v = on_maps-Marks _

  pub close_vnode-Marks : (v : Vnode) → Marks kernel p p (close_vnode v)
  unfolding close_vnode
  close_vnode-Marks v = note-Marks _

  pub open_path-Marks : (f : FilePath) → Marks kernel p p (open_path kernel f)
  unfolding open_path ◌>>=◌ pure
  open_path-Marks f = leaves-Marks _ (λ w. refl)

  pub map_add_vnode_app_data-Marks :
      (vn : Vnode) (app : ℕ) → Marks kernel p p (map_add_vnode_app_data kernel vn app)
  unfolding map_add_vnode_app_data ◌>>=◌ pure
  map_add_vnode_app_data-Marks vn app = leaves-Marks _ (λ w. refl)

  pub map_add_vnode_shadow_reverse-Marks :
      (shadow vn : Vnode) → Marks kernel p p (map_add_vnode_shadow_reverse kernel shadow vn)
  unfolding map_add_vnode_shadow_reverse ◌>>=◌ pure
  map_add_vnode_shadow_reverse-Marks shadow vn = leaves-Marks _ (λ w. refl)

  pub create_upl-Marks :
      (v : Vnode) (offset size : ℕ) (flags : UplFlags)
      → Marks kernel p p (create_upl kernel v offset size flags)
  unfolding create_upl ◌>>=◌ pure
  create_upl-Marks v offset size flags = leaves-Marks _ (λ w. refl)

  pub abort_upl_unless_null-Marks : (upl : ℕ) → Marks kernel p p (abort_upl_unless_null upl)
  unfolding abort_upl_unless_null
  abort_upl_unless_null-Marks upl = if-Marks (upl == null) (pure-Marks tt) (note-Marks _)

  pub transfer-Marks :
      (op : Opcode) (v : Vnode) (offset size : ℕ)
      → Marks kernel p p (transfer kernel op v offset size)
  unfolding transfer ◌>>=◌ pure
  transfer-Marks op v offset size = leaves-Marks _ (λ w. refl)

  pub map_add_vnode_io-Marks : (vn io : Vnode) → Marks kernel p p (map_add_vnode_io kernel vn io)
  unfolding map_add_vnode_io ◌>>=◌ pure
  map_add_vnode_io-Marks vn io = leaves-Marks _ (λ w. refl)

  -- the cookie of a section is an address, which is no NULL
  pub enter_with-Marks :
      (cookie : ℕ) → cookie ≢ null → Marks kernel p maybe_marked (enter_recursion kernel cookie)
  unfolding enter_recursion enter_recursive_call ◌>>=◌ pure
  enter_with-Marks cookie real = record {
    marks = λ w v h. (add-IsValid _ kernel.current_thread cookie w.recursion real v, tt);
  }

  pub enter_recursion-Marks :
      kernel.current_thread ≢ null
      → Marks kernel p maybe_marked (enter_recursion kernel kernel.current_thread)
  enter_recursion-Marks real = enter_with-Marks kernel.current_thread real

  pub leave_recursion-Marks : {q : Mark} → Marks kernel p q (leave_recursion kernel)
  unfolding leave_recursion
  leave_recursion-Marks {q} = record {
    marks = λ w v h. (
      leave-IsValid kernel.current_thread w.recursion v,
      is_unmarked kernel q (leave_recursive_call kernel.current_thread w.recursion) (
          leave-is_recursive_call kernel.current_thread kernel.current_thread w.recursion v
          ∙ own kernel.current_thread _),
    );
  }
