-- ===== src/WiredCopy/Stops.antt =====
-- Where the copy through physical pages ends early (VmPmap.cpp 50-106).
use mac_osx_vfs_redirector.Base.{
  ℕ, zero, suc, ◌+◌, ◌-◌, ◌%◌, ◌^◌, ◌≤◌, ◌<◌, ◌≡◌, ◌≢◌, ◌⊎◌, ◌∙◌, refl, sym, subst, ap, ◌==◌,
  Bool-cases, inl, inr, arith,
}
use mac_osx_vfs_redirector.WiredCopy.Pages.{
  PmapLaws, round_bounds, bcopy-Copied, copy_loop-round, assoc,
}
use mac_osx_vfs_redirector.WiredCopy.{
  Bytes, Pmap, virt_to_phys, bytes_of_round, copy_loop, write_wired_src_to_wired_dst,
}

module _ (pmap : Pmap) (laws : PmapLaws pmap) where
  abbrev phys : ℕ → ℕ
  phys = virt_to_phys pmap

  -- `left` bytes of `n` are not copied, since the byte behind the others has no physical page in one range.
  record Stopped (src dst n : ℕ) (m : Bytes) (left : ℕ) (m' : Bytes) : Type 0 where
    at_most : left ≤ n
    unmapped : (left ≡ 0) ⊎ ((phys (src + (n - left)) ≡ 0) ⊎ (phys (dst + (n - left)) ≡ 0))
    kept : (p : ℕ) → ((i : ℕ) → i < n - left → p ≢ phys (dst + i)) → m' p ≡ m p

  Stopped-here :
      (src dst n : ℕ) (m : Bytes)
      → (n ≡ 0) ⊎ ((phys src ≡ 0) ⊎ (phys dst ≡ 0))
      → Stopped src dst n m n m
  Stopped-here src dst n m h = record {
    at_most = omega arith;
    unmapped =
        subst (λ k. (n ≡ 0) ⊎ ((phys (src + k) ≡ 0) ⊎ (phys (dst + k) ≡ 0))) (omega arith)
          (subst (λ a. (n ≡ 0) ⊎ ((phys a ≡ 0) ⊎ (phys (dst + 0) ≡ 0))) (omega arith)
            (subst (λ a. (n ≡ 0) ⊎ ((phys src ≡ 0) ⊎ (phys a ≡ 0))) (omega arith) h));
    kept = λ p out. refl;
  }

  Stopped-later :
      (src dst n c left : ℕ) (m m1 m2 : Bytes)
      → c ≤ n
      → ((p : ℕ) → ((i : ℕ) → i < c → p ≢ phys (dst + i)) → m1 p ≡ m p)
      → Stopped (src + c) (dst + c) (n - c) m1 left m2
      → Stopped src dst n m left m2
  Stopped-later src dst n c left m m1 m2 h first s =
      let at : (a : ℕ) → a + c + (n - c - left) ≡ a + (n - left) =
        λ a. omega (arith, s.at_most, h) in
      record {
        at_most = omega (arith, s.at_most);
        unmapped =
            subst (λ a. (left ≡ 0) ⊎ ((phys a ≡ 0) ⊎ (phys (dst + (n - left)) ≡ 0))) (at src)
              (subst (λ a. (left ≡ 0) ⊎ ((phys (src + c + (n - c - left)) ≡ 0) ⊎ (phys a ≡ 0)))
                (at dst) s.unmapped);
        kept = λ p out.
            s.kept p
              (λ i l e. out (c + i) (omega (arith, l, h, s.at_most)) (e ∙ ap phys (assoc dst c i)))
            ∙ first p (λ i l. out i (omega (arith, l, h, s.at_most)));
      }

  whole_or_unmapped :
      (src dst n left : ℕ)
      → (left ≡ 0) ⊎ ((phys (src + (n - left)) ≡ 0) ⊎ (phys (dst + (n - left)) ≡ 0))
      → (n - left ≡ n) ⊎ ((phys (src + (n - left)) ≡ 0) ⊎ (phys (dst + (n - left)) ≡ 0))
  whole_or_unmapped src dst n left (inl h) = inl (omega (arith, h))
  whole_or_unmapped src dst n left (inr h) = inr h

  copy_loop-Stopped :
      (rounds src dst n : ℕ) (m : Bytes)
      → n ≤ rounds
      → src + n < 2 ^ 64
      → dst + n < 2 ^ 64
      → let r = copy_loop pmap rounds src dst n m in Stopped src dst n m r.0 r.1
  unfolding copy_loop
  copy_loop-Stopped zero src dst n m h p q = Stopped-here src dst n m (inl (omega (arith, h)))
  copy_loop-Stopped (suc k) src dst n m h p q = elim (Bool-cases (n == 0)) [
    | inl none ↦ rw none (Stopped-here src dst n m (inl (ground (arith, none))))
    | inr some ↦ elim (Bool-cases (phys dst == 0)) [
      | inl out ↦ rw (some, out) (Stopped-here src dst n m (inr (inr (ground (arith, out)))))
      | inr to ↦ elim (Bool-cases (phys src == 0)) [
        | inl out ↦ rw (some, to, out) (Stopped-here src dst n m (inr (inl (ground (arith, out)))))
        | inr from ↦
            let a : phys src ≢ 0 = ground (arith, from) in
            let b : phys dst ≢ 0 = ground (arith, to) in
            let c = bytes_of_round pmap (phys src) (phys dst) n in
            let (pos, c_n, c_src, c_dst) =
              round_bounds pmap laws (phys src) (phys dst) n (ground (arith, some)) in
            let m1 = pmap.bcopy_phys (phys src) (phys dst) c m in
            let r = copy_loop pmap k (src + c) (dst + c) (n - c) m1 in
            let later =
              copy_loop-Stopped k (src + c) (dst + c) (n - c) m1 (omega (arith, h, pos))
                (omega (arith, p, c_n)) (omega (arith, q, c_n)) in
            let first = bcopy-Copied pmap laws src dst c m a b c_src c_dst in
            subst (λ x. Stopped src dst n m x.0 x.1)
              (sym (
                copy_loop-round pmap laws k src dst n m some a b (omega (arith, p, c_n))
                  (omega (arith, q, c_n))))
              (Stopped-later src dst n c r.0 m m1 r.1 c_n first.rest later)
      ]
    ]
  ]

  abbrev StopsAt : (src dst len : ℕ) (m : Bytes) → (count : ℕ) → Bytes → Type 0
  StopsAt src dst len m count after =
      (count ≤ len)
      × ((count ≡ len) ⊎ ((phys (src + count) ≡ 0) ⊎ (phys (dst + count) ≡ 0)))
      × ((p : ℕ) → ((i : ℕ) → i < count → p ≢ phys (dst + i)) → after p ≡ m p)

  -- A short count is the place of a byte that is not mapped: for ranges of less than 2 ^ 32 bytes that
  -- end below 2 ^ 64, mapped or not, QvrWriteWiredSrcToWiredDst ends with a count of at most the length; where it is smaller, the
  -- byte behind that many has no physical page in one of the ranges; and no physical byte is written but
  -- those of the first count bytes of the second range.
  pub write_wired_src_to_wired_dst-stops :
      (src dst len : ℕ) (m : Bytes)
      → len < 2 ^ 32
      → src + len < 2 ^ 64
      → dst + len < 2 ^ 64
      → let r = write_wired_src_to_wired_dst pmap src dst len m in
        (r.0 ≤ len)
        × ((r.0 ≡ len)
            ⊎ ((virt_to_phys pmap (src + r.0) ≡ 0) ⊎ (virt_to_phys pmap (dst + r.0) ≡ 0)))
        × ((p : ℕ) → ((i : ℕ) → i < r.0 → p ≢ virt_to_phys pmap (dst + i)) → r.1 p ≡ m p)
  unfolding write_wired_src_to_wired_dst
  write_wired_src_to_wired_dst-stops src dst len m short p q =
      let s = copy_loop-Stopped len src dst len m (omega arith) p q in
      let left = (copy_loop pmap len src dst len m).0 in
      let count : len - left ≡ (len - left) % 2 ^ 32 = omega (arith, short) in
      let after = (copy_loop pmap len src dst len m).1 in
      subst (λ k. StopsAt src dst len m k after) count
        (omega arith, whole_or_unmapped src dst len _ s.unmapped, s.kept)
