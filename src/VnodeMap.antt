-- ===== src/VnodeMap.antt =====
-- VFSFilter0/VFSFilter0/VNode.h, class VNodeMap: four DataMaps and the references that two of them
-- hold. Each method holds VNodeMap::Lock over its accesses to the maps, except for the final
-- vnode_put, which is the last event that it logs. An `allocated` argument is the answer of the
-- IOMalloc that `addDataByKey` makes.
pub mod References
pub mod Release
use mac_osx_vfs_redirector.Base.{
  ℕ, zero, suc, Bool, true, false, List, ◌∷◌, not, length, ◌==◌, if◌then◌else◌,
}
use mac_osx_vfs_redirector.DataMap.{
  null, DataMap, add_data_by_key, remove_key, get_data_by_key, is_empty,
  remove_first_entry_and_return_its_data,
}
use mac_osx_vfs_redirector.Event.{Vnode, Event, get, put}

-- InstanceForAppData, InstanceForVnodeIO, InstanceForShadowToVnode, InstanceForHookedVnodes
pub record VnodeMap : Type 0 where
  pub app_data : DataMap
  pub vnode_io : DataMap
  pub shadow_to_vnode : DataMap
  pub hooked_vnodes : DataMap
  pub log : List Event

unfoldable pub add_hooked_vnode : (allocated : Bool) → Vnode → VnodeMap → VnodeMap
add_hooked_vnode a vn s = record s { hooked_vnodes = (add_data_by_key a vn vn s.hooked_vnodes).1 }

unfoldable pub remove_hooked_vnode : Vnode → VnodeMap → VnodeMap
remove_hooked_vnode vn s = record s { hooked_vnodes = remove_key vn s.hooked_vnodes }

unfoldable pub is_vnode_hooked : Vnode → VnodeMap → Bool
is_vnode_hooked vn s = not (get_data_by_key vn s.hooked_vnodes == null)

unfoldable pub add_vnode_app_data : (allocated : Bool) → Vnode → ℕ → VnodeMap → VnodeMap
add_vnode_app_data a vn d s = record s { app_data = (add_data_by_key a vn d s.app_data).1 }

unfoldable pub remove_vnode_app_data : Vnode → VnodeMap → VnodeMap
remove_vnode_app_data vn s = record s { app_data = remove_key vn s.app_data }

unfoldable pub get_vnode_app_data : Vnode → VnodeMap → ℕ
get_vnode_app_data vn s = get_data_by_key vn s.app_data

-- vnode_get and vnode_put
unfoldable pub vnode_get : Vnode → VnodeMap → VnodeMap
vnode_get v s = record s { log = get v ∷ s.log }

unfoldable pub vnode_put : Vnode → VnodeMap → VnodeMap
vnode_put v s = record s { log = put v ∷ s.log }

-- `if( v ) vnode_put( v );`
unfoldable pub put_unless_null : Vnode → VnodeMap → VnodeMap
unfolding vnode_put
put_unless_null v s = if v == null then s else vnode_put v s

unfoldable pub get_vnode_shadow_reverse : Vnode → VnodeMap → Vnode
get_vnode_shadow_reverse shadow s = get_data_by_key shadow s.shadow_to_vnode

unfoldable pub get_vnode_io : Vnode → VnodeMap → Vnode
get_vnode_io vn s = get_data_by_key vn s.vnode_io

-- `if( addDataByKey( shadow, vn ) ) vnode_get( vn );`
insert_shadow_reverse : (allocated : Bool) → Vnode → Vnode → VnodeMap → VnodeMap
unfolding vnode_get
insert_shadow_reverse a shadow vn s =
    let (added, m) = add_data_by_key a shadow vn s.shadow_to_vnode in
    let s' = record s { shadow_to_vnode = m } in if added then vnode_get vn s' else s'

unfoldable pub add_vnode_shadow_reverse : (allocated : Bool) → Vnode → Vnode → VnodeMap → VnodeMap
unfolding insert_shadow_reverse put_unless_null get_vnode_shadow_reverse
add_vnode_shadow_reverse a shadow vn s =
    let current = get_vnode_shadow_reverse shadow s in
    if current == null
    then insert_shadow_reverse a shadow vn s
    else if vn == current
    then s
    else put_unless_null current (
        insert_shadow_reverse a shadow vn
          (record s { shadow_to_vnode = remove_key shadow s.shadow_to_vnode }))

unfoldable pub remove_shadow_reverse : Vnode → VnodeMap → VnodeMap
unfolding put_unless_null get_vnode_shadow_reverse
remove_shadow_reverse shadow s =
    let vn = get_vnode_shadow_reverse shadow s in
    put_unless_null vn
      (if vn == null then s else record s { shadow_to_vnode = remove_key shadow s.shadow_to_vnode })

-- The vnode returned is referenced.
unfoldable pub get_vnode_shadow_reverse_ref : Vnode → VnodeMap → Vnode × VnodeMap
unfolding get_vnode_shadow_reverse vnode_get
get_vnode_shadow_reverse_ref shadow s =
    let vn = get_vnode_shadow_reverse shadow s in (vn, if vn == null then s else vnode_get vn s)

-- The loop runs while the map is not empty, and every round takes one entry out of it: it is
-- given as many rounds as the map has entries.
release_shadow_loop : (rounds : ℕ) → VnodeMap → VnodeMap
unfolding put_unless_null remove_first_entry_and_return_its_data is_empty
release_shadow_loop zero s = s
release_shadow_loop (suc n) s =
    let rest =
      (let (first, m) = remove_first_entry_and_return_its_data s.shadow_to_vnode in
        release_shadow_loop n (put_unless_null first.1 (record s { shadow_to_vnode = m }))) in
    if is_empty s.shadow_to_vnode then s else rest

unfoldable pub release_all_shadow_reverse : VnodeMap → VnodeMap
unfolding release_shadow_loop
release_all_shadow_reverse s = release_shadow_loop (length s.shadow_to_vnode) s

unfoldable pub add_vnode_io : (allocated : Bool) → Vnode → Vnode → VnodeMap → VnodeMap
unfolding get_vnode_io vnode_get
add_vnode_io a vn vnode_io s =
    if get_vnode_io vn s == null
    then (let (added, m) = add_data_by_key a vn vnode_io s.vnode_io in
        let s' = record s { vnode_io = m } in if added then vnode_get vnode_io s' else s')
    else s

unfoldable pub remove_vnode_io : Vnode → VnodeMap → VnodeMap
unfolding put_unless_null get_vnode_io
remove_vnode_io vn s =
    let io = get_vnode_io vn s in
    put_unless_null io (if io == null then s else record s { vnode_io = remove_key vn s.vnode_io })

-- The vnode returned is referenced.
unfoldable pub get_vnode_io_ref : Vnode → VnodeMap → Vnode × VnodeMap
unfolding get_vnode_io vnode_get
get_vnode_io_ref vn s = let io = get_vnode_io vn s in (io, if io == null then s else vnode_get io s)

release_io_loop : (rounds : ℕ) → VnodeMap → VnodeMap
unfolding put_unless_null remove_first_entry_and_return_its_data is_empty
release_io_loop zero s = s
release_io_loop (suc n) s =
    let rest =
      (let (first, m) = remove_first_entry_and_return_its_data s.vnode_io in
        release_io_loop n (put_unless_null first.1 (record s { vnode_io = m }))) in
    if is_empty s.vnode_io then s else rest

unfoldable pub release_all_vnode_io : VnodeMap → VnodeMap
unfolding release_io_loop
release_all_vnode_io s = release_io_loop (length s.vnode_io) s
