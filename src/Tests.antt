-- ===== src/Tests.antt =====
-- Runs at concrete inputs of what is modelled: a kernel that answers every lookup with the vnode 50,
-- the thread 9, and the vnode 7 of a document that Microsoft Word has created.
mod Protocol
mod Names
mod Vectors
mod Copies
use mac_osx_vfs_redirector.Applications.Rows.{
  get_application_data_by_name_rows, EntryFor, SameDirectory,
}
use mac_osx_vfs_redirector.Applications.{
  ApplicationData, application_data_at, create_new, open_existing, get_application_data_by_name,
}
use mac_osx_vfs_redirector.Base.{
  not, ◌&&◌, ℕ, ◌%◌, ◌+◌, ◌≤◌, ◌≡◌, ◌≢◌, ◌⊎◌, inr, refl, true, false, some, List, [], ◌∷◌, ◌++◌,
  length, codes, arith, ◌==◌, All, if◌then◌else◌,
}
use mac_osx_vfs_redirector.DataMap.Laws.{IsValid, get-add, get-remove, get-remove_first}
use mac_osx_vfs_redirector.DataMap.Refinement.{
  MapCall, adds, removes, gets, answers, specified_answers, empty_map, answers-specified_answers,
}
use mac_osx_vfs_redirector.DataMap.{
  null, DataMap, is_empty, add_data_by_key, remove_key, get_data_by_key,
  remove_first_entry_and_return_its_data,
}
use mac_osx_vfs_redirector.Event.{
  Vnode, Vnop, Opcode, get, called, taken, dropped, super_user, original, caller, vector_of,
}
use mac_osx_vfs_redirector.Hooks.Exchange.{exchange_hook}
use mac_osx_vfs_redirector.Hooks.Getattr.Sizes.{getattr_hook-sizes, reported}
use mac_osx_vfs_redirector.Hooks.Getattr.{Wanted, getattr_hook}
use mac_osx_vfs_redirector.Hooks.Io.Routes.{Allocates, read_hook-operation, write_hook-operation}
use mac_osx_vfs_redirector.Hooks.Io.{read_hook, write_hook, redirected_vnode}
use mac_osx_vfs_redirector.Hooks.Life.{open_hook, inactive_hook}
use mac_osx_vfs_redirector.Hooks.Life.Forgets.{inactive_hook-forgets}
use mac_osx_vfs_redirector.Hooks.Paging.Unredirected.{pagein_hook-unredirected}
use mac_osx_vfs_redirector.Hooks.Paging.{PagingArgs, pagein_hook, pageout_hook}
use mac_osx_vfs_redirector.Hooks.PassThrough.{recursive_calls_pass}
use mac_osx_vfs_redirector.Hooks.Session.Unmarked.{run_all-unmarked}
use mac_osx_vfs_redirector.Hooks.Session.{
  HookCall, associates, reads, closes, inactivates, no_entries, run_all, run_all-references,
}
use mac_osx_vfs_redirector.Hooks.{enodata}
use mac_osx_vfs_redirector.Kernel.Accounts.{FailsEmpty}
use mac_osx_vfs_redirector.Kernel.Calls.{call_vnop}
use mac_osx_vfs_redirector.Kernel.Quiet.{operations}
use mac_osx_vfs_redirector.Kernel.{Kernel, World, Attributes, vreg}
use mac_osx_vfs_redirector.Paths.Redirect.{
  convert_to_redirected_path-inside, convert_to_redirected_path-collision,
  length-convert_to_redirected_path, length-convert_to_shadow_copy_path,
}
use mac_osx_vfs_redirector.Paths.Shadow.{
  NoSlash, convert_to_shadow_copy_path_lem, convert_to_shadow_copy_path_idempotent,
}
use mac_osx_vfs_redirector.Paths.{
  slash, shadow_prefix, equal_ignoring_case, convert_to_shadow_copy_path,
  convert_to_redirected_path, redirected_path_size, shadow_path_size,
}
use mac_osx_vfs_redirector.Recursion.{
  is_recursive_call, enter_recursive_call, leave_recursive_call, cookie_for_recursive_call,
  enter-is_recursive_call, leave-is_recursive_call,
}
use mac_osx_vfs_redirector.VnodeMap.References.{Accounted, held, add_vnode_shadow_reverse-Accounted}
use mac_osx_vfs_redirector.VnodeMap.Release.{
  release_all_vnode_io-Accounted, release_all_shadow_reverse-Accounted,
}
use mac_osx_vfs_redirector.VnodeMap.{
  VnodeMap, get_vnode_shadow_reverse, get_vnode_io, get_vnode_app_data, add_vnode_shadow_reverse,
  release_all_vnode_io, release_all_shadow_reverse,
}
use mac_osx_vfs_redirector.VnodeHook.Installed.{hook_entries-Installed}
use mac_osx_vfs_redirector.VnodeHook.Restore.{DistinctOffsets, unhook-hook_entries}
use mac_osx_vfs_redirector.VnodeHook.{
  Vop, vop_index, hook_entries, vop_not_hooked, hook_operations, unhook_operations,
}

abbrev sizes : Attributes
sizes = record { total_size = 1; total_alloc = 2; data_size = 3; data_alloc = 4 }

abbrev kernel_of_tests : Kernel ℕ
kernel_of_tests = record {
  current_thread = 9;
  malloc = λ k. (true, k);
  process_name = λ k. some (codes "Microsoft Word");
  is_user_client = λ k. false;
  vnode_vtype = λ v k. vreg;
  vn_getpath = λ v k. (0, codes "/home/report.docx");
  vnode_lookup = λ p c k. ((0, 50), k);
  vnode_open = λ p k. ((0, 51), k);
  round_page = λ n. n;
  vnop = λ op f v c k. ((0, 0), k + 1);
  get_size = λ v c k. (0, 8);
  set_size = λ v n c k. (0, k);
  filter_reply = λ op p k. (true, k);
  client_work = λ op k. k;
  invalidate_pages = λ v n k. (false, k);
  ubc_create_upl = λ v o n f k. ((0, 5), k);
  ubc_upl_map = λ u k. (0, k);
  vn_rdwr = λ op v o n k. (0, k);
  getattr_vnop = λ f v c k. ((0, sizes), k);
  vnode_getattr = λ v c k. ((0, sizes), k);
  supports_pagein_v2 = λ v k. false;
  supports_pageout_v2 = λ v k. false;
  name_op_at = λ p k. 0;
}

FailsEmpty-kernel_of_tests : FailsEmpty kernel_of_tests
FailsEmpty-kernel_of_tests = record { fails_empty = λ p c k h. elim (h refl) [ ] }

Allocates-kernel_of_tests : Allocates kernel_of_tests
Allocates-kernel_of_tests = record { allocates = λ k. refl; real_thread = omega arith }

abbrev word : ApplicationData
word = record {
  application_short_name = codes "Microsoft Word";
  redirect_to = codes "/work1/my_word";
  redirect_io = true;
}

abbrev start : World ℕ
start = record { kernel = 0; maps = no_entries; recursion = [] }

-- The vnode 7 is Word's, and the vnode 8 covers the vnode 60.
abbrev controlled : World ℕ
controlled = record {
  kernel = 0;
  maps = record {
    app_data = record { key = 7; value = 1 } ∷ [];
    vnode_io = record { key = 8; value = 60 } ∷ [];
    shadow_to_vnode = [];
    hooked_vnodes = [];
    log = [];
  };
  recursion = [];
}

abbrev marked : World ℕ
marked = record {
  kernel = 0;
  maps = controlled.maps;
  recursion = record { key = 9; value = 9 } ∷ [];
}

read_hook-operation_example :
    let found = redirected_vnode kernel_of_tests Opcode.read 7 controlled in
    let done = read_hook kernel_of_tests 7 controlled in
    operations done.1.maps.log
    ≡ (if found.0 == null
        then called Vnop.read original 7 caller (is_recursive_call 9 found.1.recursion) done.0 null
        else called Vnop.read (vector_of found.0) found.0 caller true done.0 null)
      ∷ operations []
read_hook-operation_example =
    read_hook-operation kernel_of_tests Allocates-kernel_of_tests 7 controlled

write_hook-operation_example :
    let found = redirected_vnode kernel_of_tests Opcode.write 7 controlled in
    let done = write_hook kernel_of_tests 7 controlled in
    operations done.1.maps.log
    ≡ (if found.0 == null
        then called Vnop.write original 7 caller (is_recursive_call 9 found.1.recursion) done.0 null
        else called Vnop.write (vector_of found.0) found.0 super_user true done.0 null)
      ∷ operations []
write_hook-operation_example =
    write_hook-operation kernel_of_tests Allocates-kernel_of_tests 7 controlled

marked_is_recursive : is_recursive_call 9 marked.recursion ≡ true
unfolding is_recursive_call get_data_by_key
marked_is_recursive = refl

recursive_calls_pass_example :
    ((vp : Vnode)
      → (read_hook kernel_of_tests vp marked
          ≡ call_vnop kernel_of_tests Vnop.read original vp caller marked)
        × (write_hook kernel_of_tests vp marked
            ≡ call_vnop kernel_of_tests Vnop.write original vp caller marked)
        × (open_hook kernel_of_tests vp marked
            ≡ call_vnop kernel_of_tests Vnop.open_file original vp caller marked))
    × ((args : PagingArgs)
        → (pagein_hook kernel_of_tests args marked
            ≡ call_vnop kernel_of_tests Vnop.pagein original args.vp caller marked)
          × (pageout_hook kernel_of_tests args marked ≡ (
            enodata,
            (call_vnop kernel_of_tests Vnop.pageout original args.vp caller marked).1,
          )))
    × ((fvp tvp : Vnode)
        → exchange_hook kernel_of_tests fvp tvp marked
          ≡ call_vnop kernel_of_tests Vnop.exchange original fvp caller marked)
recursive_calls_pass_example = recursive_calls_pass kernel_of_tests marked marked_is_recursive

no_entries-Accounted : Accounted [] no_entries
unfolding held
no_entries-Accounted = record { shadow_valid = tt; balance = λ v real. refl }

pub no_entries-IsValid : IsValid []
no_entries-IsValid = tt

add_vnode_shadow_reverse-Accounted_example :
    Accounted [] (add_vnode_shadow_reverse true 8 60 no_entries)
add_vnode_shadow_reverse-Accounted_example =
    add_vnode_shadow_reverse-Accounted no_entries no_entries-Accounted true 8 60 (omega arith)

-- One shadow file and one backing file, each with its reference.
abbrev two_entries : VnodeMap
two_entries = record {
  app_data = [];
  vnode_io = record { key = 8; value = 60 } ∷ [];
  shadow_to_vnode = record { key = 8; value = 61 } ∷ [];
  hooked_vnodes = [];
  log = get 60 ∷ get 61 ∷ [];
}

two_entries-Accounted : Accounted [] two_entries
unfolding held get_data_by_key
two_entries-Accounted = record {
  shadow_valid = (refl, omega arith, tt);
  balance = λ v real. ground arith;
}

release_all_vnode_io-Accounted_example :
    ((release_all_vnode_io two_entries).vnode_io ≡ [])
    × Accounted [] (release_all_vnode_io two_entries)
release_all_vnode_io-Accounted_example =
    release_all_vnode_io-Accounted two_entries two_entries-Accounted

release_all_shadow_reverse-Accounted_example :
    ((release_all_shadow_reverse two_entries).shadow_to_vnode ≡ [])
    × Accounted [] (release_all_shadow_reverse two_entries)
release_all_shadow_reverse-Accounted_example =
    release_all_shadow_reverse-Accounted two_entries two_entries-Accounted

abbrev report : List ℕ
report = codes "/home/report.docx"

convert_to_redirected_path-inside_example :
    (slashes : List ℕ) × (name : List ℕ) × All (λ c. c ≡ slash) slashes
    × NoSlash name
    × (convert_to_redirected_path report word.redirect_to
        ≡ word.redirect_to ++ (slash ∷ (slashes ++ name)))
convert_to_redirected_path-inside_example =
    convert_to_redirected_path-inside report word.redirect_to (λ h. cc) (λ h. cc)

length-convert_to_redirected_path_example :
    (length (convert_to_redirected_path report word.redirect_to) + 4
      ≤ redirected_path_size report word.redirect_to)
    × (word.redirect_to ≢ []
        → length (convert_to_redirected_path report word.redirect_to) + 4
          ≡ redirected_path_size report word.redirect_to)
length-convert_to_redirected_path_example =
    length-convert_to_redirected_path report word.redirect_to

convert_to_redirected_path-collision_example :
    convert_to_redirected_path (codes "/a/b") (codes "/work1")
    ≡ convert_to_redirected_path (codes "/a$b") (codes "/work1")
convert_to_redirected_path-collision_example =
    convert_to_redirected_path-collision b'a' (codes "/b") (codes "$b") (codes "/work1")
      (omega arith) refl

convert_to_shadow_copy_path_lem_example :
    convert_to_shadow_copy_path (codes "/home/" ++ codes "a.docx") ≡ (
      if equal_ignoring_case (length shadow_prefix) (codes "a.docx") shadow_prefix
      then codes "/home/" ++ codes "a.docx"
      else codes "/home/" ++ (shadow_prefix ++ codes "a.docx"))
convert_to_shadow_copy_path_lem_example =
    convert_to_shadow_copy_path_lem (codes "/home/") (codes "a.docx") (inr (codes "/home", refl))
      (omega arith, (omega arith, (omega arith, (omega arith, (omega arith, (omega arith, tt))))))

convert_to_shadow_copy_path_idempotent_example :
    convert_to_shadow_copy_path (convert_to_shadow_copy_path report)
    ≡ convert_to_shadow_copy_path report
convert_to_shadow_copy_path_idempotent_example = convert_to_shadow_copy_path_idempotent report

length-convert_to_shadow_copy_path_example :
    length (convert_to_shadow_copy_path report) + 1 ≤ shadow_path_size report
length-convert_to_shadow_copy_path_example = length-convert_to_shadow_copy_path report

abbrev data_size_wanted : Wanted
data_size_wanted = record {
  total_size = false;
  total_alloc = false;
  data_size = true;
  data_alloc = false;
}

abbrev shadowed : World ℕ
shadowed = record controlled {
  maps = record (controlled.maps) { shadow_to_vnode = record { key = 8; value = 7 } ∷ [] };
}

shadowed_real : (get_vnode_shadow_reverse 8 shadowed.maps == null) ≡ false
unfolding get_vnode_shadow_reverse get_data_by_key
shadowed_real = refl

shadowed_unmarked : is_recursive_call 9 shadowed.recursion ≡ false
unfolding is_recursive_call get_data_by_key
shadowed_unmarked = refl

getattr_hook-sizes_example :
    let real = get_vnode_shadow_reverse 8 shadowed.maps in
    let r =
      kernel_of_tests.getattr_vnop (vector_of real) real caller (kernel_of_tests.malloc 0).1 in
    let io = get_vnode_io 8 shadowed.maps in
    let b = kernel_of_tests.vnode_getattr io super_user r.1 in
    let has_backing = r.0.0 == 0 && not (io == null) in
    let got = (getattr_hook kernel_of_tests data_size_wanted 8 shadowed).0 in
    (got.0 ≡ r.0.0)
    × (got.1.total_size ≡ reported false has_backing b.0.0 b.0.1.total_size r.0.1.total_size)
    × (got.1.total_alloc ≡ reported false has_backing b.0.0 b.0.1.total_alloc r.0.1.total_alloc)
    × (got.1.data_size ≡ reported true has_backing b.0.0 b.0.1.data_size r.0.1.data_size)
    × (got.1.data_alloc ≡ reported false has_backing b.0.0 b.0.1.data_alloc r.0.1.data_alloc)
getattr_hook-sizes_example =
    getattr_hook-sizes kernel_of_tests data_size_wanted 8 shadowed shadowed_real shadowed_unmarked
      refl

abbrev one_entry : DataMap
one_entry = record { key = 3; value = 4 } ∷ []

one_entry-IsValid : IsValid one_entry
unfolding get_data_by_key
one_entry-IsValid = (refl, omega arith, tt)

abbrev calls_of_a_map : List MapCall
calls_of_a_map = adds true 3 4 ∷ adds true 3 6 ∷ adds false 5 6 ∷ gets 3 ∷ removes 3 ∷ gets 3 ∷ []

answers-specified_answers_example :
    answers calls_of_a_map [] ≡ specified_answers calls_of_a_map empty_map
answers-specified_answers_example =
    answers-specified_answers calls_of_a_map
      (omega arith, (omega arith, (omega arith, (tt, (tt, (tt, tt))))))

get-remove_first_example :
    let r = remove_first_entry_and_return_its_data one_entry in
    (get_data_by_key r.0.0 one_entry ≡ r.0.1)
    × (r.0.1 ≢ null)
    × (get_data_by_key 3 r.1 ≡ (if r.0.0 == 3 then null else get_data_by_key 3 one_entry))
    × IsValid r.1
unfolding is_empty
get-remove_first_example = get-remove_first 3 one_entry refl one_entry-IsValid

enter-is_recursive_call_example :
    (is_recursive_call 9 (enter_recursive_call true 9 9 [])
      ≡ (if 9 == 9 then not (9 == null) else is_recursive_call 9 []))
    × (cookie_for_recursive_call 9 (enter_recursive_call true 9 9 []) ≡ 9)
enter-is_recursive_call_example = enter-is_recursive_call 9 9 9 []

leave-is_recursive_call_example :
    is_recursive_call 9 (leave_recursive_call 9 one_entry)
    ≡ (if 9 == 9 then false else is_recursive_call 9 one_entry)
leave-is_recursive_call_example = leave-is_recursive_call 9 9 one_entry one_entry-IsValid

abbrev preview : List ℕ
preview = codes "Preview"

get_application_data_by_name_rows_example :
    let p = get_application_data_by_name preview create_new in
    let q = get_application_data_by_name preview open_existing in
    ((p ≡ 0) × (q ≡ 0)) ⊎ (EntryFor preview true p × EntryFor preview false q × SameDirectory p q)
get_application_data_by_name_rows_example = get_application_data_by_name_rows preview

controlled-IsValid : IsValid controlled.maps.vnode_io
unfolding get_data_by_key
controlled-IsValid = (refl, omega arith, tt)

inactive_hook-forgets_example :
    get_vnode_io 8 (inactive_hook kernel_of_tests 8 controlled).1.maps
    ≡ (if 8 == 8 then null else get_vnode_io 8 controlled.maps)
inactive_hook-forgets_example =
    inactive_hook-forgets kernel_of_tests 8 8 controlled controlled-IsValid

-- The vnode 7 is Word's, opened and not created.
abbrev opened_by_word : World ℕ
opened_by_word = record {
  kernel = 0;
  maps = record {
    app_data = record { key = 7; value = 4 } ∷ [];
    vnode_io = [];
    shadow_to_vnode = [];
    hooked_vnodes = [];
    log = [];
  };
  recursion = [];
}

abbrev word_unredirected : ApplicationData
word_unredirected = record {
  application_short_name = codes "Microsoft Word";
  redirect_to = codes "/work1/my_word";
  redirect_io = false;
}

abbrev page : PagingArgs
page = record { vp = 7; pl = 0; f_offset = 0; size = 4096; no_commit = false; msync = false }

opened_by_word_found :
    application_data_at (get_vnode_app_data 7 opened_by_word.maps) ≡ some word_unredirected
unfolding application_data_at get_vnode_app_data get_data_by_key
opened_by_word_found = refl

opened_by_word_unmarked : is_recursive_call 9 opened_by_word.recursion ≡ false
unfolding is_recursive_call get_data_by_key
opened_by_word_unmarked = refl

pagein_hook-unredirected_example :
    let done = pagein_hook kernel_of_tests page opened_by_word in
    (done.0 ≡ 0) × (operations done.1.maps.log ≡ operations [])
pagein_hook-unredirected_example =
    pagein_hook-unredirected kernel_of_tests page word_unredirected opened_by_word
      opened_by_word_found refl opened_by_word_unmarked (λ k. refl)

abbrev pub hook_function : Vop → ℕ
hook_function d = 1000 + vop_index d % 100

abbrev pub functions : ℕ → ℕ
functions a = a % 100

abbrev no_originals : Vop → ℕ
no_originals d = 0

pub vop_index-DistinctOffsets : DistinctOffsets vop_index
vop_index-DistinctOffsets = record { distinct = λ d e h. h }

pub functions_real : (a : ℕ) → functions a ≢ vop_not_hooked
functions_real a = omega arith

pub hook_functions_real : (d : Vop) → hook_function d ≢ vop_not_hooked
hook_functions_real d = omega arith

pub start_unmarked : is_recursive_call 9 start.recursion ≡ false
unfolding is_recursive_call get_data_by_key
start_unmarked = refl

hook_entries-Installed_example :
    let hooked =
      hook_operations vop_index hook_function hook_entries 40 (functions, no_originals) in
    All
      (λ d.
        (hooked.0 (40 + vop_index d) ≡ hook_function d)
        × (hooked.1 d ≡ functions (40 + vop_index d)))
      hook_entries
hook_entries-Installed_example =
    hook_entries-Installed vop_index hook_function 40 vop_index-DistinctOffsets
      (functions, no_originals)
