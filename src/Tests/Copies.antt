-- ===== src/Tests/Copies.antt =====
-- A copy of ten bytes between two ranges that cross a page each, where physical pages lie one page
-- higher than virtual ones.
use mac_osx_vfs_redirector.Base.{
  ℕ, ◌+◌, ◌-◌, ◌^◌, ◌/◌, ◌%◌, ◌*◌, ◌≡◌, ◌≢◌, ◌<◌, ◌≤◌, ◌⊎◌, ap, refl, true, false, ◌&&◌, leb, ltb,
  ◌==◌, Bool-cases, inl, inr, if◌then◌else◌, arith,
}
use mac_osx_vfs_redirector.WiredCopy.Pages.{
  PmapLaws, SeparateRanges, write_wired_src_to_wired_dst-copies,
}
use mac_osx_vfs_redirector.WiredCopy.Stops.{write_wired_src_to_wired_dst-stops}
use mac_osx_vfs_redirector.WiredCopy.{Bytes, Pmap, virt_to_phys, write_wired_src_to_wired_dst}

abbrev pmap_of_tests : Pmap
pmap_of_tests = record {
  pmap_find_phys = λ a. a / 4096 + 1;
  bcopy_phys = λ s d n m p. if leb d p && ltb p (d + n) then m (s + (p - d)) else m p;
}

kept_bytes :
    (s d n p : ℕ) (m : Bytes)
    → ((i : ℕ) → i < n → p ≢ d + i)
    → pmap_of_tests.bcopy_phys s d n m p ≡ m p
kept_bytes s d n p m h = elim (Bool-cases (leb d p && ltb p (d + n))) [
  | inl inside ↦ absurd (h (p - d) (ground (arith, inside)) (ground (arith, inside)))
  | inr outside ↦ rw outside refl
]

copied_bytes :
    (s d n i : ℕ) (m : Bytes) → i < n → pmap_of_tests.bcopy_phys s d n m (d + i) ≡ m (s + i)
copied_bytes s d n i m h =
    let inside : (leb d (d + i) && ltb (d + i) (d + n)) ≡ true = ground (arith, h) in
    rw inside (ap (λ k. m (s + k)) (omega arith))

PmapLaws-pmap_of_tests : PmapLaws pmap_of_tests
PmapLaws-pmap_of_tests = record {
  same_page = λ a b h. ap (λ n. n + 1) h;
  copied = copied_bytes;
  kept = kept_bytes;
}

one_page_higher : (a : ℕ) → virt_to_phys pmap_of_tests a ≡ a + 4096
unfolding virt_to_phys
one_page_higher a =
    let mapped : ((a / 4096 + 1) * 4096 == 0) ≡ false = ground arith in rw mapped (omega arith)

crossing-SeparateRanges : SeparateRanges pmap_of_tests PmapLaws-pmap_of_tests 4090 12284 10
crossing-SeparateRanges = record {
  src_end = omega arith;
  dst_end = omega arith;
  src_mapped = λ i l. omega (arith, one_page_higher (4090 + i));
  dst_mapped = λ i l. omega (arith, one_page_higher (12284 + i));
  distinct =
      λ i j l k e. omega (arith, e, one_page_higher (12284 + i), one_page_higher (12284 + j));
  apart =
      λ i j l k e. omega (arith, e, l, k, one_page_higher (4090 + i), one_page_higher (12284 + j));
}

abbrev addresses : Bytes
addresses p = p % 256

write_wired_src_to_wired_dst-copies_example :
    let r = write_wired_src_to_wired_dst pmap_of_tests 4090 12284 10 addresses in
    let phys = virt_to_phys pmap_of_tests in
    (r.0 ≡ 10 % 2 ^ 32)
    × ((i : ℕ) → i < 10 → r.1 (phys (12284 + i)) ≡ addresses (phys (4090 + i)))
    × ((p : ℕ) → ((i : ℕ) → i < 10 → p ≢ phys (12284 + i)) → r.1 p ≡ addresses p)
write_wired_src_to_wired_dst-copies_example =
    write_wired_src_to_wired_dst-copies pmap_of_tests PmapLaws-pmap_of_tests 4090 12284 10 addresses
      crossing-SeparateRanges

-- the same page tables without the page 3, into which the second range runs
abbrev pmap_with_hole : Pmap
pmap_with_hole = record pmap_of_tests {
  pmap_find_phys = λ a. if a / 4096 == 3 then 0 else a / 4096 + 1;
}

PmapLaws-pmap_with_hole : PmapLaws pmap_with_hole
PmapLaws-pmap_with_hole = record {
  same_page = λ a b h. ap (λ n. if n == 3 then 0 else n + 1) h;
  copied = copied_bytes;
  kept = kept_bytes;
}

write_wired_src_to_wired_dst-stops_example :
    let r = write_wired_src_to_wired_dst pmap_with_hole 4090 12284 10 addresses in
    let phys = virt_to_phys pmap_with_hole in
    (r.0 ≤ 10)
    × ((r.0 ≡ 10) ⊎ ((phys (4090 + r.0) ≡ 0) ⊎ (phys (12284 + r.0) ≡ 0)))
    × ((p : ℕ) → ((i : ℕ) → i < r.0 → p ≢ phys (12284 + i)) → r.1 p ≡ addresses p)
write_wired_src_to_wired_dst-stops_example =
    write_wired_src_to_wired_dst-stops pmap_with_hole PmapLaws-pmap_with_hole 4090 12284 10
      addresses (omega arith) (omega arith) (omega arith)

four_bytes : (write_wired_src_to_wired_dst pmap_with_hole 4090 12284 10 addresses).0 ≡ 4
unfolding write_wired_src_to_wired_dst
four_bytes = refl
