-- ===== src/NullFree.antt =====
-- nanoraft/RaftServer.cpp: no null pointer to a proxy, and so none that is read through.
pub mod Sending
pub mod Handlers
pub mod Steps
pub mod Program
pub mod Events
pub mod Dispatch
use raft_server.Prelude.{
  ==_self, Bool-cases, List, Option, Result, [], ap, arith, fault, inl, inr, none, null_pointer, ok,
  refl, some, ℕ, ◌==◌, ◌>>=◌, ◌∷◌, ◌≡◌, ◌≢◌,
}
use raft_server.Nanoraft.Proxy.{Proxy}
use raft_server.Map.{Map, find, insert, keys}

-- No key of the map has a null pointer.
abbrev pub NoNull : Map (Option Proxy) → Type 0
NoNull [] = Unit {0}
NoNull ((id, none) ∷ m) = ⊥
NoNull ((id, some p) ∷ m) = NoNull m

-- A result is no fault of a null pointer, and what it gives is as `P` says.
abbrev pub Sound {ℓ} : {A : Type ℓ} → (A → Type 0) → Result A → Type 0
Sound P (ok a) = P a
Sound P (fault e) = e ≢ null_pointer

pub >>=-Sound {ℓ κ} :
    {A : Type ℓ} {B : Type κ} (P : A → Type 0) (Q : B → Type 0) (r : Result A) (f : A → Result B)
    → Sound P r
    → ((a : A) → r ≡ ok a → P a → Sound Q (f a))
    → Sound Q (r >>= f)
>>=-Sound P Q (ok a) f h next = next a refl h
>>=-Sound P Q (fault e) f h next = h

-- a result of which it is known apart what it gives and that it is no such fault
pub Sound-intro {ℓ} :
    {A : Type ℓ} (P : A → Type 0) (r : Result A)
    → ((a : A) → r ≡ ok a → P a)
    → r ≢ fault null_pointer
    → Sound P r
Sound-intro P (ok a) gives free = gives a refl
Sound-intro P (fault e) gives free = λ h. free (ap (λ x. fault x) h)

pub Sound-elim {ℓ} :
    {A : Type ℓ} (P : A → Type 0) (r : Result A) → Sound P r → r ≢ fault null_pointer
Sound-elim P (ok a) h e = cc
Sound-elim P (fault x) h e = h (cc)

pub Sound-weaken {ℓ} :
    {A : Type ℓ} (P Q : A → Type 0) (r : Result A) → ((a : A) → P a → Q a) → Sound P r → Sound Q r
Sound-weaken P Q (ok a) w h = w a h
Sound-weaken P Q (fault e) w h = h

pub insert-NoNull :
    (id : ℕ) (p : Proxy) (m : Map (Option Proxy)) → NoNull m → NoNull (insert id (some p) m)
unfolding insert
insert-NoNull id p [] h = tt
insert-NoNull id p ((j, none) ∷ m) h = absurd h
insert-NoNull id p ((j, some q) ∷ m) h = ground (arith, insert-NoNull id p m h)

pub find-NoNull : (id : ℕ) (m : Map (Option Proxy)) → NoNull m → find id m ≢ some none
unfolding find
find-NoNull id [] h e = cc
find-NoNull id ((j, none) ∷ m) h e = absurd h
find-NoNull id ((j, some q) ∷ m) h e = ground (arith, find-NoNull id m h)

-- All these keys have a proxy.
abbrev pub AllFound : List ℕ → Map (Option Proxy) → Type 0
AllFound [] m = Unit {0}
AllFound (id ∷ ids) m = ((p : Proxy) × (find id m ≡ some (some p))) × AllFound ids m

AllFound-behind :
    (ids : List ℕ) (k : ℕ) (q : Proxy) (m : Map (Option Proxy))
    → AllFound ids m
    → AllFound ids ((k, some q) ∷ m)
unfolding find
AllFound-behind [] k q m h = tt
AllFound-behind (id ∷ ids) k q m ((p, e), h) = (
  elim (Bool-cases (id == k)) [ inl same ↦ (q, rw same refl) | inr other ↦ (p, rw other e) ],
  AllFound-behind ids k q m h,
)

pub keys-AllFound : (m : Map (Option Proxy)) → NoNull m → AllFound (keys m) m
unfolding find
keys-AllFound [] h = tt
keys-AllFound ((k, none) ∷ m) h = absurd h
keys-AllFound ((k, some q) ∷ m) h =
    ((q, rw (==_self k) refl), AllFound-behind (keys m) k q m (keys-AllFound m h))
