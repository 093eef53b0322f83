-- ===== src/VnodeMap/Release.antt =====
-- The loops of VNodeMap (VNode.h) that give back every reference of a map when the client closes.
use mac_osx_vfs_redirector.Base.{ℕ, suc, ◌≡◌, refl, subst, ap, List, [], ◌∷◌, arith, length}
use mac_osx_vfs_redirector.DataMap.{Entry, DataMap}
use mac_osx_vfs_redirector.DataMap.Laws.{IsValid}
use mac_osx_vfs_redirector.Event.{Vnode}
use mac_osx_vfs_redirector.VnodeMap.References.{held, Accounted, put_unless_null-Accounted}
use mac_osx_vfs_redirector.VnodeMap.{
  VnodeMap, put_unless_null, release_shadow_loop, release_all_shadow_reverse, release_io_loop,
  release_all_vnode_io,
}

release_io_loop_step :
    (n : ℕ) (e : Entry) (m : DataMap) (s : VnodeMap)
    → s.vnode_io ≡ e ∷ m
    → release_io_loop (suc n) s
      ≡ release_io_loop n (put_unless_null e.value (record s { vnode_io = m }))
unfolding release_io_loop
release_io_loop_step n e m s h = simp h

module _ {mine : List Vnode} where
  cut_vnode_io-Accounted :
      (e : Entry) (m : DataMap) (s : VnodeMap)
      → s.vnode_io ≡ e ∷ m
      → Accounted mine s
      → Accounted (e.value ∷ mine) (record s { vnode_io = m })
  unfolding held
  cut_vnode_io-Accounted e m s h ok = record {
    shadow_valid = ok.shadow_valid;
    balance = λ v real. ground (arith, ok.balance v real, ap (held v) h);
  }

  release_io_loop-empty :
      (m : DataMap) (s : VnodeMap)
      → s.vnode_io ≡ m
      → Accounted mine s
      → ((release_io_loop (length m) s).vnode_io ≡ [])
        × Accounted mine (release_io_loop (length m) s)
  release_io_loop-empty [] s h ok = unfold release_io_loop in (h, ok)
  release_io_loop-empty (e ∷ m) s h ok =
      let s' = put_unless_null e.value (record s { vnode_io = m }) in
      rw (release_io_loop_step (length m) e m s h) (
        release_io_loop-empty m s' (unfold put_unless_null in ground arith)
          (put_unless_null-Accounted _ e.value (cut_vnode_io-Accounted e m s h ok)))

-- From a state whose references are accounted for, `releaseAllVnodeIO` ends with an empty map, having
-- given back the reference of every entry.
pub release_all_vnode_io-Accounted :
    {mine : List Vnode} (s : VnodeMap)
    → Accounted mine s
    → ((release_all_vnode_io s).vnode_io ≡ []) × Accounted mine (release_all_vnode_io s)
unfolding release_all_vnode_io
release_all_vnode_io-Accounted s ok = release_io_loop-empty s.vnode_io s refl ok

release_shadow_loop_step :
    (n : ℕ) (e : Entry) (m : DataMap) (s : VnodeMap)
    → s.shadow_to_vnode ≡ e ∷ m
    → release_shadow_loop (suc n) s
      ≡ release_shadow_loop n (put_unless_null e.value (record s { shadow_to_vnode = m }))
unfolding release_shadow_loop
release_shadow_loop_step n e m s h = simp h

module _ {mine : List Vnode} where
  cut_shadow_to_vnode-Accounted :
      (e : Entry) (m : DataMap) (s : VnodeMap)
      → s.shadow_to_vnode ≡ e ∷ m
      → Accounted mine s
      → Accounted (e.value ∷ mine) (record s { shadow_to_vnode = m })
  unfolding held
  cut_shadow_to_vnode-Accounted e m s h ok = record {
    shadow_valid = (subst IsValid h ok.shadow_valid).2;
    balance = λ v real. ground (arith, ok.balance v real, ap (held v) h);
  }

  release_shadow_loop-empty :
      (m : DataMap) (s : VnodeMap)
      → s.shadow_to_vnode ≡ m
      → Accounted mine s
      → ((release_shadow_loop (length m) s).shadow_to_vnode ≡ [])
        × Accounted mine (release_shadow_loop (length m) s)
  release_shadow_loop-empty [] s h ok = unfold release_shadow_loop in (h, ok)
  release_shadow_loop-empty (e ∷ m) s h ok =
      let s' = put_unless_null e.value (record s { shadow_to_vnode = m }) in
      rw (release_shadow_loop_step (length m) e m s h) (
        release_shadow_loop-empty m s' (unfold put_unless_null in ground arith)
          (put_unless_null-Accounted _ e.value (cut_shadow_to_vnode-Accounted e m s h ok)))

-- From a state whose references are accounted for, `releaseAllShadowReverse` ends with an empty map,
-- having given back the reference of every entry.
pub release_all_shadow_reverse-Accounted :
    {mine : List Vnode} (s : VnodeMap)
    → Accounted mine s
    → ((release_all_shadow_reverse s).shadow_to_vnode ≡ [])
      × Accounted mine (release_all_shadow_reverse s)
unfolding release_all_shadow_reverse
release_all_shadow_reverse-Accounted s ok = release_shadow_loop-empty s.shadow_to_vnode s refl ok
