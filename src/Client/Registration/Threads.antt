-- ===== src/Client/Registration/Threads.antt =====
-- Where the threads stand in the methods, the state that they share, and the count of a family of
-- threads.
use mac_osx_vfs_redirector.Base.{
  ℕ, zero, suc, ◌+◌, ◌≤◌, ◌<◌, ◌≡◌, refl, Bool, Option, ◌==◌, if◌then◌else◌, arith,
}

-- A thread in `getClient`: after its first test, after the increment, with `currentClient` loaded,
-- after the first exchange, and before the decrement that gives up. `using` is a thread to which the
-- client has been returned, until its `putClient`.
pub data Point : Type 0 where
  away passed counted failed : Point
  loaded kept using : (client : ℕ) → Point

-- The thread in `unregisterUserClient`: after `pendingUnregistration` is set, after the exchange, and
-- after it has read that no invocation is left.
pub data Unregistration : Type 0 where
  idle : Unregistration
  marked swapped drained : (client : ℕ) → Unregistration

pub record Driver : Type 0 where
  pub user_client : ℕ
  pub pending_unregistration : Bool
  pub client_invocations : ℕ
  pub thread : ℕ → Point
  pub unregistration : Unregistration
  -- the client in `registerUserClient`, past the test of `pendingUnregistration`
  pub registering : Option ℕ
  -- the clients whose reference has been given back
  pub is_released : ℕ → Bool

abbrev pub update {ℓ} : {A : Type ℓ} → (ℕ → A) → ℕ → A → ℕ → A
update f i a j = if i == j then a else f j

-- What a thread adds to `clientInvocations`
abbrev pub weight : Point → ℕ
weight away = 0
weight passed = 0
weight _ = 1

-- The sum over the threads below `n`
pub total : ℕ → (ℕ → Point) → ℕ
total zero f = 0
total (suc n) f = total n f + weight (f n)

total-update_above :
    (n i : ℕ) (f : ℕ → Point) (p : Point) → n ≤ i → total n (update f i p) ≡ total n f
unfolding total
total-update_above zero i f p h = refl
total-update_above (suc n) i f p h = ground (arith, total-update_above n i f p)

pub total-update :
    (n i : ℕ) (f : ℕ → Point) (p : Point)
    → i < n
    → total n (update f i p) + weight (f i) ≡ total n f + weight p
unfolding total
total-update zero i f p h = absurd (omega arith)
total-update (suc n) i f p h = ground (arith, total-update n i f p, total-update_above n i f p)

pub total-away : (n : ℕ) → total n (λ _. away) ≡ 0
unfolding total
total-away zero = refl
total-away (suc n) = omega (arith, total-away n)

pub total-ge : (n i : ℕ) (f : ℕ → Point) → i < n → weight (f i) ≤ total n f
unfolding total
total-ge zero i f h = absurd (omega arith)
total-ge (suc n) i f h = ground (arith, total-ge n i f)

pub total-le : (n : ℕ) (f : ℕ → Point) → total n f ≤ n
unfolding total
total-le zero f = omega arith
total-le (suc n) f = ground (arith, total-le n f)
