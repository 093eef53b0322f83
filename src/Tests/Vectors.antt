-- ===== src/Tests/Vectors.antt =====
-- Runs of the hooks of vnodes, over a table that is a function, with the vector 40 for every vnode.
use mac_osx_vfs_redirector.Base.{
  ℕ, ◌+◌, ◌%◌, ◌^◌, ◌≡◌, refl, true, false, [], ◌==◌, if◌then◌else◌, All, arith,
}
use mac_osx_vfs_redirector.DataMap.{null, get_data_by_key}
use mac_osx_vfs_redirector.Tests.{
  hook_function, functions, vop_index-DistinctOffsets, functions_real, hook_functions_real,
}
use mac_osx_vfs_redirector.VnodeHook.Vectors.Counters.{hook_vnode_vop-counts}
use mac_osx_vfs_redirector.VnodeHook.Vectors.Reclaimed.{ValidMaps, Forgotten, reclaim_hook-restores}
use mac_osx_vfs_redirector.VnodeHook.Vectors.Steps.{GhtLaws, HooksFirst}
use mac_osx_vfs_redirector.VnodeHook.Vectors.Transparent.{get_original_vnode_op-hook_vnode_vop}
use mac_osx_vfs_redirector.VnodeHook.Vectors.Undone.{unhook-hook_vnode_vop}
use mac_osx_vfs_redirector.VnodeHook.Vectors.{
  Ght, Hooking, Vnodes, get_original_vnode_op, hook_vnode_vop, unhook_vnode_vop, reclaim_hook,
}
use mac_osx_vfs_redirector.VnodeHook.{Vop, vop_index, hook_entries}
use mac_osx_vfs_redirector.VnodeMap.{is_vnode_hooked}

abbrev table_of_tests : Ght (ℕ → ℕ)
table_of_tests = record {
  get = λ k t. t k;
  insert = λ k e t. (true, λ j. if k == j then e else t j);
  remove = λ k t. (t k, λ j. if k == j then null else t j);
}

GhtLaws-table_of_tests : GhtLaws table_of_tests
GhtLaws-table_of_tests = record {
  get-insert = λ j k e t h. refl;
  removed_is_found = λ k t. refl;
  get-remove = λ j k t. refl;
}

abbrev vnodes_of_tests : Vnodes
vnodes_of_tests = record {
  v_op_of = λ v. 40;
  is_regular_file = λ v. true;
  is_recycled = λ v. false;
  parent_of = λ v. null;
}

abbrev unhooked : Hooking (ℕ → ℕ)
unhooked = record {
  table = λ k. null;
  entry = λ e. record { vnode_counter = 0; originals = λ i. 0; references = 0 };
  memory = functions;
  maps = record {
    app_data = [];
    vnode_io = [];
    shadow_to_vnode = [];
    hooked_vnodes = [];
    log = [];
  };
}

-- the entry 200 for the vector, which counts one vnode
abbrev hooked_by_another : Hooking (ℕ → ℕ)
hooked_by_another = record unhooked {
  table = λ k. if k == 40 then 200 else null;
  entry = λ e. record { vnode_counter = 1; originals = λ i. 5; references = 1 };
}

unhooked-HooksFirst :
    HooksFirst table_of_tests vnodes_of_tests vop_index hook_function 7 200 unhooked
unhooked-HooksFirst = record {
  known = refl;
  in_use = refl;
  regular = refl;
  no_entry = refl;
  real = refl;
  inserted = refl;
}

unhooked-ValidMaps : ValidMaps unhooked.maps
unhooked-ValidMaps = record { app_data_valid = tt; vnode_io_valid = tt; shadow_valid = tt }

unhook-hook_vnode_vop_example :
    let h =
      hook_vnode_vop table_of_tests vnodes_of_tests vop_index hook_function 200 true 7 unhooked in
    let r = unhook_vnode_vop table_of_tests vnodes_of_tests vop_index hook_function 7 h.1 in
    (h.0 ≡ (0, true))
    × ((x : ℕ) → r.memory x ≡ functions x)
    × ((j : ℕ) → r.table j ≡ null)
    × ((r.entry 200).references ≡ 0)
    × (is_vnode_hooked 7 r.maps ≡ false)
unhook-hook_vnode_vop_example =
    unhook-hook_vnode_vop table_of_tests GhtLaws-table_of_tests vnodes_of_tests vop_index
      hook_function 7 200 unhooked unhooked-HooksFirst (omega arith) tt vop_index-DistinctOffsets
      functions_real hook_functions_real

-- an unlisted vnode of a vector that is hooked
unlisted : is_vnode_hooked 8 hooked_by_another.maps ≡ false
unfolding is_vnode_hooked get_data_by_key
unlisted = refl

hook_vnode_vop-counts_example :
    let h =
      hook_vnode_vop table_of_tests vnodes_of_tests vop_index hook_function 300 true 8
        hooked_by_another in
    (h.0 ≡ (0, true))
    × ((h.1.entry 200).vnode_counter ≡ (1 + 1) % 2 ^ 32)
    × ((h.1.entry 200).references ≡ 1)
    × (unhook_vnode_vop table_of_tests vnodes_of_tests vop_index hook_function 8 h.1 ≡ h.1)
hook_vnode_vop-counts_example =
    hook_vnode_vop-counts table_of_tests vnodes_of_tests vop_index hook_function 8 300 200 true
      hooked_by_another refl refl refl refl (omega arith) unlisted

get_original_vnode_op-hook_vnode_vop_example :
    let h =
      (hook_vnode_vop table_of_tests vnodes_of_tests vop_index hook_function 200 true 7
        unhooked).1 in
    All
      (λ d.
        (h.memory (40 + vop_index d) ≡ hook_function d)
        × ((get_original_vnode_op table_of_tests vnodes_of_tests vop_index hook_function 8 d h).0
            ≡ (get_original_vnode_op table_of_tests vnodes_of_tests vop_index hook_function 8 d
                unhooked).0))
      hook_entries
get_original_vnode_op-hook_vnode_vop_example =
    get_original_vnode_op-hook_vnode_vop table_of_tests GhtLaws-table_of_tests vnodes_of_tests
      vop_index hook_function 7 8 200 unhooked unhooked-HooksFirst refl vop_index-DistinctOffsets

reclaim_hook-restores_example :
    let h =
      (hook_vnode_vop table_of_tests vnodes_of_tests vop_index hook_function 200 true 7
        unhooked).1 in
    let r = reclaim_hook table_of_tests vnodes_of_tests vop_index hook_function 7 h in
    (r.0 ≡ functions (40 + vop_index Vop.reclaim))
    × ((x : ℕ) → r.1.memory x ≡ functions x)
    × ((j : ℕ) → r.1.table j ≡ null)
    × ((r.1.entry 200).references ≡ 0)
    × Forgotten 7 r.1.maps
reclaim_hook-restores_example =
    reclaim_hook-restores table_of_tests GhtLaws-table_of_tests vnodes_of_tests vop_index
      hook_function 7 200 unhooked unhooked-HooksFirst refl (omega arith) unhooked-ValidMaps
      vop_index-DistinctOffsets functions_real hook_functions_real
