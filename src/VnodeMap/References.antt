-- ===== src/VnodeMap/References.antt =====
-- Who owns the references that VNodeMap (VNode.h) takes: an entry of the I/O map and an entry of
-- the shadow map own one reference each to the vnode that they hold, and no other entry does.
use mac_osx_vfs_redirector.Base.{
  ℕ, ◌+◌, ◌≡◌, ◌≢◌, Bool, true, false, List, [], ◌∷◌, ◌==◌, is_some, arith, Bool-cases, inl, inr,
}
use mac_osx_vfs_redirector.DataMap.{
  null, DataMap, find_entry_by_key, set_existing, remove_entry, add_data_by_key, remove_key,
  get_data_by_key,
}
use mac_osx_vfs_redirector.DataMap.Laws.{IsValid, get-remove, add-IsValid, remove-IsValid}
use mac_osx_vfs_redirector.Event.{Vnode, one_if, taken, dropped}
use mac_osx_vfs_redirector.VnodeMap.{
  VnodeMap, put_unless_null, vnode_put, insert_shadow_reverse, add_vnode_shadow_reverse,
  remove_shadow_reverse, get_vnode_shadow_reverse_ref, add_vnode_io, remove_vnode_io,
  get_vnode_io_ref,
}

-- How many entries hold a vnode.
unfoldable pub held : Vnode → DataMap → ℕ
held v [] = 0
held v (e ∷ m) = one_if (e.value == v) + held v m

abbrev pub count : Vnode → List Vnode → ℕ
count v [] = 0
count v (x ∷ l) = one_if (x == v) + count v l

-- Every reference that was taken is given back, is owned by an entry of a map, or is in the hands
-- of the code that runs (`mine`). The shadow map has one entry for each key, and no NULL for a vnode.
pub record Accounted (mine : List Vnode) (s : VnodeMap) : Type 0 where
  pub shadow_valid : IsValid s.shadow_to_vnode
  pub balance :
      (v : Vnode)
      → v ≢ null
      → taken v s.log
        ≡ dropped v s.log + held v s.vnode_io + held v s.shadow_to_vnode + count v mine

module _ (v k : Vnode) (real : v ≢ null) where
  held-set_existing :
      (d : ℕ) (m : DataMap)
      → is_some (find_entry_by_key k m) ≡ true
      → held v (set_existing k d m) + one_if (get_data_by_key k m == v) ≡ held v m + one_if (d == v)
  unfolding held set_existing get_data_by_key
  held-set_existing d [] h = cc
  held-set_existing d (e ∷ m) h = ground (arith, held-set_existing d m)

  pub held-add :
      (d : ℕ) (m : DataMap)
      → held v (add_data_by_key true k d m).1 + one_if (get_data_by_key k m == v)
        ≡ held v m + one_if (d == v)
  unfolding add_data_by_key
  held-add d m = elim (Bool-cases (is_some (find_entry_by_key k m))) [
    | inl old ↦ rw (old, add_data_by_key) (held-set_existing d m old)
    | inr new ↦ rw (new, add_data_by_key) (unfold held get_data_by_key in ground arith)
  ]

  held-remove_entry :
      (m : DataMap) → held v (remove_entry k m) + one_if (get_data_by_key k m == v) ≡ held v m
  unfolding held remove_entry get_data_by_key
  held-remove_entry [] = ground arith
  held-remove_entry (e ∷ m) = ground (arith, held-remove_entry m)

  pub held-remove :
      (m : DataMap) → held v (remove_key k m) + one_if (get_data_by_key k m == v) ≡ held v m
  unfolding remove_key
  held-remove m = elim (Bool-cases (is_some (find_entry_by_key k m))) [
    | inl old ↦ rw (old, remove_key) (held-remove_entry m)
    | inr new ↦ rw (new, remove_key) (unfold held get_data_by_key in ground arith)
  ]

-- `vnode_put` gives one reference back.
pub put_unless_null-Accounted :
    {mine : List Vnode} (s : VnodeMap) (x : Vnode)
    → Accounted (x ∷ mine) s
    → Accounted mine (put_unless_null x s)
unfolding put_unless_null
put_unless_null-Accounted s x ok = record {
  shadow_valid = ground (arith, ok.shadow_valid);
  balance = λ v real. ground (arith, ok.balance v real);
}

pub vnode_put-Accounted :
    {mine : List Vnode} (s : VnodeMap) (x : Vnode)
    → Accounted (x ∷ mine) s
    → Accounted mine (vnode_put x s)
unfolding vnode_put
vnode_put-Accounted s x ok = record {
  shadow_valid = ok.shadow_valid;
  balance = λ v real. ground (arith, ok.balance v real);
}

insert_shadow_reverse-IsValid :
    (s : VnodeMap) (a : Bool) (shadow vn : Vnode)
    → vn ≢ null
    → IsValid s.shadow_to_vnode
    → IsValid (insert_shadow_reverse a shadow vn s).shadow_to_vnode
unfolding insert_shadow_reverse
insert_shadow_reverse-IsValid s a shadow vn h valid =
    ground (arith, add-IsValid a shadow vn s.shadow_to_vnode)

insert_shadow_reverse-Accounted :
    {mine : List Vnode} (s : VnodeMap) (a : Bool) (shadow vn : Vnode)
    → get_data_by_key shadow s.shadow_to_vnode ≡ null
    → vn ≢ null
    → Accounted mine s
    → Accounted mine (insert_shadow_reverse a shadow vn s)
unfolding insert_shadow_reverse add_data_by_key
insert_shadow_reverse-Accounted s false shadow vn h real_vn ok = record {
  shadow_valid = ok.shadow_valid;
  balance = λ v real. ground (arith, ok.balance v real);
}
insert_shadow_reverse-Accounted s true shadow vn h real_vn ok = record {
  shadow_valid = insert_shadow_reverse-IsValid s true shadow vn real_vn ok.shadow_valid;
  balance =
      λ v real. ground (arith, ok.balance v real, held-add v shadow real vn s.shadow_to_vnode);
}

module _ {mine : List Vnode} (s : VnodeMap) (ok : Accounted mine s) where
  -- A vnode that `getVnodeIORef` returns is the caller's, and has to be put.
  pub get_vnode_io_ref-Accounted :
      (vn : Vnode) → Accounted ((get_vnode_io_ref vn s).0 ∷ mine) (get_vnode_io_ref vn s).1
  unfolding get_vnode_io_ref
  get_vnode_io_ref-Accounted vn = record {
    shadow_valid = ground (arith, ok.shadow_valid);
    balance = λ v real. ground (arith, ok.balance v real);
  }

  pub get_vnode_shadow_reverse_ref-Accounted :
      (vn : Vnode)
      → Accounted
          ((get_vnode_shadow_reverse_ref vn s).0 ∷ mine)
          (get_vnode_shadow_reverse_ref vn s).1
  unfolding get_vnode_shadow_reverse_ref
  get_vnode_shadow_reverse_ref-Accounted vn = record {
    shadow_valid = ground (arith, ok.shadow_valid);
    balance = λ v real. ground (arith, ok.balance v real);
  }

  pub add_vnode_io-Accounted : (a : Bool) (vn io : Vnode) → Accounted mine (add_vnode_io a vn io s)
  unfolding add_vnode_io add_data_by_key
  add_vnode_io-Accounted false vn io = record {
    shadow_valid = ground (arith, ok.shadow_valid);
    balance = λ v real. ground (arith, ok.balance v real);
  }
  add_vnode_io-Accounted true vn io = record {
    shadow_valid = ground (arith, ok.shadow_valid);
    balance = λ v real. ground (arith, ok.balance v real, held-add v vn real io s.vnode_io);
  }

  pub remove_vnode_io-Accounted : (vn : Vnode) → Accounted mine (remove_vnode_io vn s)
  unfolding remove_vnode_io
  remove_vnode_io-Accounted vn = record {
    shadow_valid = ground (arith, ok.shadow_valid);
    balance = λ v real. ground (arith, ok.balance v real, held-remove v vn real s.vnode_io);
  }

  pub remove_shadow_reverse-Accounted : (sh : Vnode) → Accounted mine (remove_shadow_reverse sh s)
  unfolding remove_shadow_reverse
  remove_shadow_reverse-Accounted sh = record {
    shadow_valid = ground (arith, remove-IsValid sh s.shadow_to_vnode, ok.shadow_valid);
    balance = λ v real. ground (arith, ok.balance v real, held-remove v sh real s.shadow_to_vnode);
  }

  cut_shadow_reverse-Accounted :
      (sh : Vnode)
      → Accounted
          (get_data_by_key sh s.shadow_to_vnode ∷ mine)
          (record s { shadow_to_vnode = remove_key sh s.shadow_to_vnode })
  cut_shadow_reverse-Accounted sh = record {
    shadow_valid = remove-IsValid sh s.shadow_to_vnode ok.shadow_valid;
    balance = λ v real. ground (arith, ok.balance v real, held-remove v sh real s.shadow_to_vnode);
  }

  -- `addVnodeShadowReverse` of a vnode that is not NULL keeps the account of references, and the shadow
  -- map in order: it takes a reference for the entry that it makes, if it makes one, and gives back that
  -- of the entry that it replaces.
  pub add_vnode_shadow_reverse-Accounted :
      (a : Bool) (shadow vn : Vnode)
      → vn ≢ null
      → Accounted mine (add_vnode_shadow_reverse a shadow vn s)
  unfolding add_vnode_shadow_reverse
  add_vnode_shadow_reverse-Accounted a shadow vn real_vn =
      let current = get_data_by_key shadow s.shadow_to_vnode in
      elim (Bool-cases (current == null)) [
        | inl absent ↦
            rw absent (insert_shadow_reverse-Accounted s a shadow vn (ground arith) real_vn ok)
        | inr present ↦ elim (Bool-cases (vn == current)) [
          | inl same ↦ rw (present, same) ok
          | inr other ↦
              rw (present, other)
                (vnode_put-Accounted _ current (
                  insert_shadow_reverse-Accounted _ a shadow vn
                    (ground (arith, get-remove shadow shadow s.shadow_to_vnode ok.shadow_valid))
                    real_vn (cut_shadow_reverse-Accounted shadow)))
        ]
      ]
