-- ===== src/Client/Requests/Lists.antt =====
-- What the waiting list and gPreOperationDataMap hold of every thread, whoever the client is.
use mac_osx_vfs_redirector.Base.{
  ℕ, ◌≡◌, ◌≢◌, subst, Bool, true, false, ◌==◌, if◌then◌else◌, arith, Bool-cases, inl, inr, ==_refl,
}
use mac_osx_vfs_redirector.DataMap.{null, DataMap, get_data_by_key}
use mac_osx_vfs_redirector.DataMap.Laws.{IsValid, get-remove, remove-IsValid}
use mac_osx_vfs_redirector.Client.Waiting.{WaitingList, is_listed, signal}
use mac_osx_vfs_redirector.Client.Requests.Threads.{
  Stacks, AreSeparate, Point, System, update, inserted_at,
}

-- Between `enter` and the end of the waiting
abbrev pub may_be_listed : Point → Bool
may_be_listed (Point.listed _) = true
may_be_listed (Point.unsent _) = true
may_be_listed (Point.sent _) = true
may_be_listed (Point.asleep _) = true
may_be_listed _ = false

abbrev pub is_asleep : Point → Bool
is_asleep (Point.asleep _) = true
is_asleep _ = false

-- What the two lists say of one thread at a point, by what they hold for its id.
pub record Fits (p : Point) (address waiting_for inserted_data : ℕ) : Type 0 where
  pub sleeper : is_asleep p ≡ true → waiting_for ≢ null
  pub outsider : may_be_listed p ≡ false → waiting_for ≡ null
  pub callback : inserted_data ≡ (if inserted_at p then address else null)

module _ (stacks : Stacks) where
  open stacks use {id_of, in_data}

  abbrev pub FitsAt : System → ℕ → Type 0
  FitsAt s t =
      Fits (s.thread t) (in_data t) (get_data_by_key (id_of t) s.waiting)
        (get_data_by_key (id_of t) s.pre_operation)

  pub record Inv (s : System) : Type 0 where
    pub waiting_valid : IsValid s.waiting
    pub pre_operation_valid : IsValid s.pre_operation
    pub fits : (t : ℕ) → FitsAt s t

-- After `addDataByKey` every other key has what it had.
pub get-same :
    (j k : ℕ) (m : DataMap)
    → get_data_by_key j m ≡ (if k == j then get_data_by_key k m else get_data_by_key j m)
get-same j k m = grind arith

pub get-signal :
    (j k : ℕ) (m : WaitingList)
    → IsValid m
    → get_data_by_key j (signal k m).1 ≡ (if k == j then null else get_data_by_key j m)
unfolding signal
get-signal j k m v = elim (Bool-cases (is_listed k m)) [
  | inl here ↦ rw (here, signal) (get-remove j k m v)
  | inr gone ↦ rw (gone, signal) (grind arith)
]

pub signal-IsValid : (k : ℕ) (m : WaitingList) → IsValid m → IsValid (signal k m).1
unfolding signal
signal-IsValid k m v = ground (arith, remove-IsValid k m)

module _ {stacks : Stacks} (separate : AreSeparate stacks) where
  open stacks use {id_of, in_data}

  pub apart_ids : (t u : ℕ) → (t == u) ≡ false → (id_of t == id_of u) ≡ false
  apart_ids t u h = grind (arith, separate.apart t u)

  pub Fits-move :
      (t : ℕ) (p : Point) (x y : ℕ) (w o w' o' : DataMap) (thread : ℕ → Point)
      → Fits p (in_data t) x y
      → ((j : ℕ) → get_data_by_key j w' ≡ (if id_of t == j then x else get_data_by_key j w))
      → ((j : ℕ) → get_data_by_key j o' ≡ (if id_of t == j then y else get_data_by_key j o))
      → (u : ℕ)
      → Fits (thread u) (in_data u) (get_data_by_key (id_of u) w) (get_data_by_key (id_of u) o)
      → Fits
          (update thread t p u)
          (in_data u)
          (get_data_by_key (id_of u) w')
          (get_data_by_key (id_of u) o')
  Fits-move t p x y w o w' o' thread new at_w at_o u old = elim (Bool-cases (t == u)) [
    | inl same ↦
        subst
          (λ v.
            Fits (if t == v then p else thread v) (in_data v) (get_data_by_key (id_of v) w')
              (get_data_by_key (id_of v) o'))
          {x = t} {y = u} (grind arith)
          (rw (==_refl t, at_w (id_of t), at_o (id_of t), ==_refl (id_of t)) new)
    | inr other ↦ rw (other, at_w (id_of u), at_o (id_of u), apart_ids t u other) old
  ]

  -- A thread that moves, with both lists kept.
  pub Inv-move :
      (t : ℕ) (p : Point) (s : System)
      → Inv stacks s
      → Fits p
          (in_data t)
          (get_data_by_key (id_of t) s.waiting)
          (get_data_by_key (id_of t) s.pre_operation)
      → Inv stacks (record s { thread = update s.thread t p })
  Inv-move t p s inv new = record {
    waiting_valid = inv.waiting_valid;
    pre_operation_valid = inv.pre_operation_valid;
    fits = λ u.
        Fits-move t p _ _ s.waiting s.pre_operation s.waiting s.pre_operation s.thread new
          (λ j. get-same j (id_of t) s.waiting) (λ j. get-same j (id_of t) s.pre_operation) u
          (inv.fits u);
  }

  -- No step but the finding of a reply and a store changes these.
  pub Inv-elsewhere :
      (s s' : System)
      → s'.waiting ≡ s.waiting
      → s'.pre_operation ≡ s.pre_operation
      → s'.thread ≡ s.thread
      → Inv stacks s
      → Inv stacks s'
  Inv-elsewhere s s' a b c inv = record {
    waiting_valid = rw a inv.waiting_valid;
    pre_operation_valid = rw b inv.pre_operation_valid;
    fits = λ t. rw (a, b, c) (inv.fits t);
  }
