-- ===== src/WiredCopy.antt =====
-- VFSFilter0/VFSFilter0/VmPmap.cpp: the copy between wired kernel addresses that goes through their
-- physical pages. The page tables and the copy of physical bytes are the kernel's and parameters.
pub mod Pages
pub mod Stops
use mac_osx_vfs_redirector.Base.{
  ℕ, zero, suc, ◌+◌, ◌-◌, ◌*◌, ◌/◌, ◌%◌, ◌^◌, ◌≡◌, ltb, ◌==◌, if◌then◌else◌, Bool,
}

-- the bytes of the physical memory
abbrev pub Bytes : Type 0
Bytes = ℕ → ℕ

-- pmap_find_phys on the kernel's map, the number of a page or 0, and bcopy_phys
pub record Pmap : Type 0 where
  pub pmap_find_phys : ℕ → ℕ
  pub bcopy_phys : (source sink count : ℕ) → Bytes → Bytes

-- PAGE_SIZE, for the shift INTEL_PGSHIFT of 12
abbrev pub page_size : ℕ
page_size = 4096

-- `if( a > b ) cnt = b; else cnt = a;`
abbrev pub lesser : ℕ → ℕ → ℕ
lesser a b = if ltb b a then b else a

module _ (pmap : Pmap) where
  -- `QvrVirtToPhys`. A page number has 32 bits, so that the shift loses none, and the bits of the
  -- offset are 0 in a page's address, so that the or is a sum.
  unfoldable pub virt_to_phys : ℕ → ℕ
  virt_to_phys a =
      let pa = pmap.pmap_find_phys a * page_size in if pa == 0 then 0 else pa + a % page_size

  -- the bytes of one round
  unfoldable pub bytes_of_round : (phys_src phys_dst resid : ℕ) → ℕ
  bytes_of_round phys_src phys_dst resid =
      lesser (lesser (page_size - phys_src % page_size) (page_size - phys_dst % page_size)) resid

  -- The loop, on rounds: `resid` when it ends, and the memory. A round copies a byte at least, so as
  -- many rounds as bytes are enough.
  unfoldable pub copy_loop : (rounds src dst resid : ℕ) → Bytes → ℕ × Bytes
  unfolding virt_to_phys bytes_of_round
  copy_loop zero src dst resid m = (resid, m)
  copy_loop (suc n) src dst resid m =
      let phys_dst = virt_to_phys dst in
      let phys_src = virt_to_phys src in
      let count = bytes_of_round phys_src phys_dst resid in
      let rest =
        copy_loop n ((src + count) % 2 ^ 64) ((dst + count) % 2 ^ 64) (resid - count)
          (pmap.bcopy_phys phys_src phys_dst count m) in
      if resid == 0
      then (resid, m)
      else if phys_dst == 0
      then (resid, m)
      else if phys_src == 0
      then (resid, m)
      else rest

  -- `QvrWriteWiredSrcToWiredDst`: the number of bytes written, an unsigned int, and the memory
  unfoldable pub write_wired_src_to_wired_dst : (src dst len : ℕ) → Bytes → ℕ × Bytes
  unfolding copy_loop
  write_wired_src_to_wired_dst src dst len m =
      let (resid, written) = copy_loop len src dst len m in ((len - resid) % 2 ^ 32, written)
