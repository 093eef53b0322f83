-- ===== src/WiredCopy/Pages.antt =====
-- What the copy through physical pages writes (VmPmap.cpp 50-110).
use mac_osx_vfs_redirector.Base.{
  ℕ, zero, suc, ◌+◌, ◌-◌, ◌/◌, ◌%◌, ◌^◌, ◌≤◌, ◌<◌, ◌≡◌, ◌≢◌, ◌⊎◌, ◌∙◌, refl, sym, subst, ap, ltb,
  ◌==◌, false, Bool-cases, inl, inr, arith,
}
use mac_osx_vfs_redirector.WiredCopy.{
  Bytes, Pmap, page_size, virt_to_phys, bytes_of_round, copy_loop, write_wired_src_to_wired_dst,
}

-- Addresses of one page are on one physical page, and bcopy_phys copies bytes.
pub record PmapLaws (pmap : Pmap) : Type 0 where
  pub same_page :
      (a b : ℕ) → a / page_size ≡ b / page_size → pmap.pmap_find_phys a ≡ pmap.pmap_find_phys b
  pub copied : (s d n i : ℕ) (m : Bytes) → i < n → pmap.bcopy_phys s d n m (d + i) ≡ m (s + i)
  pub kept :
      (s d n p : ℕ) (m : Bytes) → ((i : ℕ) → i < n → p ≢ d + i) → pmap.bcopy_phys s d n m p ≡ m p

pub assoc : (a c i : ℕ) → a + c + i ≡ a + (c + i)
assoc a c i = omega arith

order-cases : (i c : ℕ) → (i < c) ⊎ (c ≤ i)
order-cases i c = elim (Bool-cases (ltb i c)) [
  | inl h ↦ inl (ground (arith, h))
  | inr h ↦ inr (ground (arith, h))
]

module _ (pmap : Pmap) (laws : PmapLaws pmap) where
  abbrev phys : ℕ → ℕ
  phys = virt_to_phys pmap

  pub round_bounds :
      (s d resid : ℕ)
      → 0 < resid
      → let c = bytes_of_round pmap s d resid in
        (0 < c) × (c ≤ resid) × (c ≤ page_size - s % page_size) × (c ≤ page_size - d % page_size)
  unfolding bytes_of_round
  round_bounds s d resid h = ground arith

  offset_lem : (a : ℕ) → phys a ≢ 0 → phys a % page_size ≡ a % page_size
  unfolding virt_to_phys
  offset_lem a h = ground (arith, h)

  phys-later :
      (a i : ℕ) → phys a ≢ 0 → i < page_size - phys a % page_size → phys (a + i) ≡ phys a + i
  unfolding virt_to_phys
  phys-later a i h bound =
      let off = offset_lem a h in
      let page : (a + i) / page_size ≡ a / page_size = omega (arith, off, bound) in
      let rest : (a + i) % page_size ≡ a % page_size + i = omega (arith, off, bound) in
      let frame = laws.same_page (a + i) a page in rw (frame, rest) (ground (arith, h))

  -- Two ranges of `n` bytes that are mapped, end below 2 ^ 64, and do not meet in physical memory; the
  -- second range maps no byte twice.
  pub record SeparateRanges (src dst n : ℕ) : Type 0 where
    pub src_end : src + n < 2 ^ 64
    pub dst_end : dst + n < 2 ^ 64
    pub src_mapped : (i : ℕ) → i < n → phys (src + i) ≢ 0
    pub dst_mapped : (i : ℕ) → i < n → phys (dst + i) ≢ 0
    pub distinct : (i j : ℕ) → i < n → j < n → phys (dst + i) ≡ phys (dst + j) → i ≡ j
    pub apart : (i j : ℕ) → i < n → j < n → phys (src + i) ≢ phys (dst + j)

  -- The `n` bytes at `src` in `m` stand at `dst` in `m'`, and no other physical byte differs.
  pub record Copied (src dst n : ℕ) (m m' : Bytes) : Type 0 where
    pub written : (i : ℕ) → i < n → m' (phys (dst + i)) ≡ m (phys (src + i))
    pub rest : (p : ℕ) → ((i : ℕ) → i < n → p ≢ phys (dst + i)) → m' p ≡ m p

  SeparateRanges-later :
      (src dst n c : ℕ)
      → c ≤ n
      → SeparateRanges src dst n
      → SeparateRanges (src + c) (dst + c) (n - c)
  SeparateRanges-later src dst n c h r = record {
    src_end = omega (arith, r.src_end, h);
    dst_end = omega (arith, r.dst_end, h);
    src_mapped = λ i l. rw (assoc src c i) (r.src_mapped (c + i) (omega (arith, l, h)));
    dst_mapped = λ i l. rw (assoc dst c i) (r.dst_mapped (c + i) (omega (arith, l, h)));
    distinct = λ i j l k e. omega (
      arith,
      r.distinct (c + i) (c + j) (omega (arith, l, h)) (omega (arith, k, h))
          (sym (ap phys (assoc dst c i)) ∙ (e ∙ ap phys (assoc dst c j))),
    );
    apart = λ i j l k.
        rw (assoc src c i, assoc dst c j)
          (r.apart (c + i) (c + j) (omega (arith, l, h)) (omega (arith, k, h)));
  }

  pub bcopy-Copied :
      (src dst c : ℕ) (m : Bytes)
      → phys src ≢ 0
      → phys dst ≢ 0
      → c ≤ page_size - phys src % page_size
      → c ≤ page_size - phys dst % page_size
      → Copied src dst c m (pmap.bcopy_phys (phys src) (phys dst) c m)
  bcopy-Copied src dst c m a b p q = record {
    written = λ i l.
        ap (pmap.bcopy_phys (phys src) (phys dst) c m) (phys-later dst i b (omega (arith, l, q)))
        ∙ (laws.copied (phys src) (phys dst) c i m l
            ∙ ap m (sym (phys-later src i a (omega (arith, l, p)))));
    rest = λ x h.
        laws.kept (phys src) (phys dst) c x m
          (λ i l e. h i l (e ∙ sym (phys-later dst i b (omega (arith, l, q)))));
  }

  module _ (src dst n c : ℕ) (h : c ≤ n) (r : SeparateRanges src dst n) (m m1 m2 : Bytes)
      (first : Copied src dst c m m1) (second : Copied (src + c) (dst + c) (n - c) m1 m2) where
    Copied-written : (i : ℕ) → i < n → m2 (phys (dst + i)) ≡ m (phys (src + i))
    Copied-written i l = elim (order-cases i c) [
      | inl before ↦
          second.rest (phys (dst + i)) (λ j k e. omega (
            arith,
            before,
            r.distinct i (c + j) l (omega (arith, k, h)) (e ∙ ap phys (assoc dst c j)),
          ))
          ∙ first.written i before
      | inr behind ↦
          let at : (a : ℕ) → a + c + (i - c) ≡ a + i = λ a. omega (arith, behind) in
          ap (λ a. m2 (phys a)) (sym (at dst))
          ∙ (second.written (i - c) (omega (arith, behind, l))
              ∙ (ap (λ a. m1 (phys a)) (at src)
                  ∙ first.rest (phys (src + i)) (λ k q. r.apart i k l (omega (arith, q, h)))))
    ]

    Copied-rest : (p : ℕ) → ((i : ℕ) → i < n → p ≢ phys (dst + i)) → m2 p ≡ m p
    Copied-rest p out =
        second.rest p (λ i l e. out (c + i) (omega (arith, l, h)) (e ∙ ap phys (assoc dst c i)))
        ∙ first.rest p (λ i l. out i (omega (arith, l, h)))

  no_bytes : (src dst n : ℕ) (m : Bytes) → n ≡ 0 → Copied src dst n m m
  no_bytes src dst n m h = record {
    written = λ i l. absurd (omega (arith, l, h));
    rest = λ p out. refl;
  }

  here : (a : ℕ) → phys (a + 0) ≢ 0 → phys a ≢ 0
  here a h e = h (ap phys (omega arith) ∙ e)

  pub copy_loop-round :
      (k src dst n : ℕ) (m : Bytes)
      → (n == 0) ≡ false
      → phys src ≢ 0
      → phys dst ≢ 0
      → (src + bytes_of_round pmap (phys src) (phys dst) n) % 2 ^ 64
        ≡ src + bytes_of_round pmap (phys src) (phys dst) n
      → (dst + bytes_of_round pmap (phys src) (phys dst) n) % 2 ^ 64
        ≡ dst + bytes_of_round pmap (phys src) (phys dst) n
      → let c = bytes_of_round pmap (phys src) (phys dst) n in
        copy_loop pmap (suc k) src dst n m
        ≡ copy_loop pmap k (src + c) (dst + c) (n - c) (pmap.bcopy_phys (phys src) (phys dst) c m)
  unfolding copy_loop
  copy_loop-round k src dst n m some a b e f =
      let a' : (phys src == 0) ≡ false = ground (arith, a) in
      let b' : (phys dst == 0) ≡ false = ground (arith, b) in rw (some, a', b', e, f) refl

  pub copy_loop-Copied :
      (rounds src dst n : ℕ) (m : Bytes)
      → n ≤ rounds
      → SeparateRanges src dst n
      → ((copy_loop pmap rounds src dst n m).0 ≡ 0)
        × Copied src dst n m (copy_loop pmap rounds src dst n m).1
  unfolding copy_loop
  copy_loop-Copied zero src dst n m h r =
      (omega (arith, h), no_bytes src dst n m (omega (arith, h)))
  copy_loop-Copied (suc k) src dst n m h r = elim (Bool-cases (n == 0)) [
    | inl none ↦ rw none (ground (arith, none), no_bytes src dst n m (ground (arith, none)))
    | inr some ↦
        let positive : 0 < n = ground (arith, some) in
        let c = bytes_of_round pmap (phys src) (phys dst) n in
        let (pos, c_n, c_src, c_dst) = round_bounds (phys src) (phys dst) n positive in
        let a = here src (r.src_mapped 0 positive) in
        let b = here dst (r.dst_mapped 0 positive) in
        let m1 = pmap.bcopy_phys (phys src) (phys dst) c m in
        let ih =
          copy_loop-Copied k (src + c) (dst + c) (n - c) m1 (omega (arith, h, pos))
            (SeparateRanges-later src dst n c c_n r) in
        let m2 = (copy_loop pmap k (src + c) (dst + c) (n - c) m1).1 in
        let first = bcopy-Copied src dst c m a b c_src c_dst in
        subst (λ x. (x.0 ≡ 0) × Copied src dst n m x.1)
          (sym (
            copy_loop-round k src dst n m some a b (omega (arith, r.src_end, c_n))
              (omega (arith, r.dst_end, c_n))))
          (
            ih.0,
            record {
              written = Copied-written src dst n c c_n r m m1 m2 first ih.1;
              rest = Copied-rest src dst n c c_n r m m1 m2 first ih.1;
            },
          )
  ]

  -- The copy through physical pages copies bytes: between two ranges that are mapped, that end below
  -- 2 ^ 64 and that share no physical byte, with no physical byte twice in the second,
  -- QvrWriteWiredSrcToWiredDst returns the length modulo 2 ^ 32, each byte of the second range holds what the
  -- same byte of the first held before, and every other byte of the physical memory is kept.
  pub write_wired_src_to_wired_dst-copies :
      (src dst len : ℕ) (m : Bytes)
      → SeparateRanges src dst len
      → let r = write_wired_src_to_wired_dst pmap src dst len m in
        (r.0 ≡ len % 2 ^ 32)
        × ((i : ℕ) → i < len → r.1 (virt_to_phys pmap (dst + i)) ≡ m (virt_to_phys pmap (src + i)))
        × ((p : ℕ) → ((i : ℕ) → i < len → p ≢ virt_to_phys pmap (dst + i)) → r.1 p ≡ m p)
  unfolding write_wired_src_to_wired_dst
  write_wired_src_to_wired_dst-copies src dst len m separate =
      let done = copy_loop-Copied len src dst len m (omega arith) separate in
      (ap (λ left. (len - left) % 2 ^ 32) done.0 ∙ omega arith, done.1.written, done.1.rest)
