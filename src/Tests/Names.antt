-- ===== src/Tests/Names.antt =====
-- Runs of the hooks of names, over a kernel whose lookups and creates return the vnode 70.
use mac_osx_vfs_redirector.Base.{
  ℕ, ◌+◌, ◌≡◌, refl, Bool, true, false, List, [], ◌∷◌, codes, All, ◌==◌, ◌&&◌, if◌then◌else◌, arith,
}
use mac_osx_vfs_redirector.DataMap.{null, get_data_by_key}
use mac_osx_vfs_redirector.Event.{
  Vnode, Vnop, called, original, vector_of, caller, super_user, taken, dropped,
}
use mac_osx_vfs_redirector.Hooks.Names.Accounts.{ReturnsVnodes}
use mac_osx_vfs_redirector.Hooks.Names.Create.{create_hook}
use mac_osx_vfs_redirector.Hooks.Names.Lookup.{lookup_hook}
use mac_osx_vfs_redirector.Hooks.Names.Rename.Order.{rename_all-order}
use mac_osx_vfs_redirector.Hooks.Names.Rename.{RenameArgs, rename_all, rename_hook}
use mac_osx_vfs_redirector.Hooks.Names.Safety.{names-references}
use mac_osx_vfs_redirector.Hooks.Session.Unmarked.{HasCookies, run_all-unmarked}
use mac_osx_vfs_redirector.Hooks.Session.{
  HookCall, lookups, opens, reads, writes, renames, closes, inactivates, reclaims, run_all,
  run_all-references,
}
use mac_osx_vfs_redirector.Recursion.{is_recursive_call}
use mac_osx_vfs_redirector.VnodeMap.{get_vnode_io}
use mac_osx_vfs_redirector.Hooks.Names.{ComponentName, Switches}
use mac_osx_vfs_redirector.Kernel.Accounts.{FailsEmpty}
use mac_osx_vfs_redirector.Kernel.Quiet.{operations}
use mac_osx_vfs_redirector.Kernel.{Kernel}
use mac_osx_vfs_redirector.Tests.{
  kernel_of_tests, start, controlled, no_entries-Accounted, no_entries-IsValid, start_unmarked,
}
use mac_osx_vfs_redirector.VnodeMap.References.{Accounted, held, count}
use mac_osx_vfs_redirector.Kernel.{◌>>=◌, pure}
use mac_osx_vfs_redirector.Applications.{
  application_data_at, get_application_data_by_context, get_application_data_by_name,
}
use mac_osx_vfs_redirector.Paths.{equal_ignoring_case}
use mac_osx_vfs_redirector.VnodeMap.{
  get_vnode_app_data, get_vnode_io_ref, put_unless_null, add_vnode_shadow_reverse, add_vnode_io,
  add_vnode_app_data,
}
use mac_osx_vfs_redirector.DataMap.{add_data_by_key}

abbrev kernel_of_names : Kernel ℕ
kernel_of_names = record kernel_of_tests { vnop = λ op f v c k. ((0, 70), k + 1) }

FailsEmpty-kernel_of_names : FailsEmpty kernel_of_names
FailsEmpty-kernel_of_names = record { fails_empty = λ p c k h. absurd (h refl) }

ReturnsVnodes-kernel_of_names : ReturnsVnodes kernel_of_names
ReturnsVnodes-kernel_of_names = record {
  vnop_fails = λ op f v c k h. absurd (h refl);
  lookup_finds = λ f v c k h. omega arith;
  open_fails = λ p k h. absurd (h refl);
}

abbrev as_shipped : Switches
as_shipped = record { redirection_is_null_and_void = false; synchronise_with_original = true }

names-references_example :
    ((dvp : Vnode) (cn : ComponentName)
      → let r = lookup_hook kernel_of_names as_shipped dvp cn start in
        Accounted (r.0.1 ∷ []) r.1.maps)
    × ((dvp : Vnode) (cn : ComponentName)
        → let r = create_hook kernel_of_names as_shipped dvp cn start in
          Accounted (r.0.1 ∷ []) r.1.maps)
    × ((ap : RenameArgs) → Accounted [] (rename_hook kernel_of_names as_shipped ap start).1.maps)
names-references_example =
    names-references kernel_of_names as_shipped start FailsEmpty-kernel_of_names
      ReturnsVnodes-kernel_of_names no_entries-Accounted

rename_all-order_example :
    let r = rename_all kernel_of_tests as_shipped 7 60 8 controlled in
    (e1 : ℕ) × (e2 : ℕ) × (e3 : ℕ) × (marked : Bool) × (let first =
        called Vnop.rename (vector_of 60) 60 super_user marked e1 null in
      let second = called Vnop.rename original 7 super_user marked e2 null in
      let third = called Vnop.rename original 8 caller marked e3 null in
      (operations r.1.maps.log ≡ (
        if e1 == 0
        then (if e2 == 0 && as_shipped.synchronise_with_original
            then third ∷ second ∷ first ∷ operations controlled.maps.log
            else second ∷ first ∷ operations controlled.maps.log)
        else first ∷ operations controlled.maps.log))
      × (r.0 ≡ (
          if e1 == 0
          then (if e2 == 0 && as_shipped.synchronise_with_original then e3 else e2)
          else e1)))
rename_all-order_example = rename_all-order kernel_of_tests as_shipped 7 60 8 controlled

abbrev report_named : ComponentName
report_named = record { name_op = 0; path = codes "/a/report.docx"; name = codes "report.docx" }

abbrev rename_report : RenameArgs
rename_report = record {
  fvp = 50;
  tvp = null;
  from = report_named;
  target = report_named;
  from_cookie = 900;
  target_cookie = 901;
}

-- A lookup of a document by Microsoft Word covers it with a shadow file, the vnode 50, which is then
-- read, written and renamed.
abbrev session : List HookCall
session =
    lookups 5 report_named
    ∷ opens 50
    ∷ reads 50
    ∷ writes 50
    ∷ renames rename_report
    ∷ closes 50
    ∷ inactivates 50
    ∷ reclaims 50
    ∷ []

session-HasCookies : All HasCookies session
session-HasCookies = (
  tt,
  (
    tt,
    (
      tt,
      (tt, (record { from_real = omega arith; target_real = omega arith }, (tt, (tt, (tt, tt))))),
    ),
  ),
)

run_all-references_example :
    let r = run_all kernel_of_names as_shipped session [] start in
    let s = r.1.maps in
    taken 50 s.log
    ≡ dropped 50 s.log + held 50 s.vnode_io + held 50 s.shadow_to_vnode + count 50 r.0
run_all-references_example =
    run_all-references kernel_of_names as_shipped FailsEmpty-kernel_of_names
      ReturnsVnodes-kernel_of_names session start refl 50 (omega arith)

run_all-unmarked_example :
    is_recursive_call 9 (run_all kernel_of_names as_shipped session [] start).1.recursion ≡ false
run_all-unmarked_example =
    run_all-unmarked kernel_of_names as_shipped (omega arith) session [] start session-HasCookies
      no_entries-IsValid start_unmarked

-- The lookup returns the shadow vnode, with a backing vnode.
covered :
    let r = run_all kernel_of_names as_shipped (lookups 5 report_named ∷ []) [] start in
    (r.0 ≡ 50 ∷ []) × (get_vnode_io 50 r.1.maps ≡ 50)
unfolding run_all lookup_hook get_vnode_io get_data_by_key ◌>>=◌ pure application_data_at
    get_application_data_by_context get_application_data_by_name is_recursive_call
    equal_ignoring_case get_vnode_app_data get_vnode_io_ref put_unless_null add_vnode_shadow_reverse
    add_data_by_key add_vnode_io add_vnode_app_data
covered = (refl, refl)
