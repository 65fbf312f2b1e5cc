-- ===== src/Map.antt =====
-- `std::map` with an unsigned key: the entries in ascending order of their keys.
use raft_server.Prelude.{
  List, Option, [], arith, if◌then◌else◌, ltb, map, none, some, ℕ, ◌==◌, ◌∷◌, ◌≡◌,
}

abbrev pub Map {ℓ} : Type ℓ → Type ℓ
Map V = List (ℕ × V)

module _ {ℓ} {V : Type ℓ} where
  unfoldable pub find : ℕ → Map V → Option V
  find k [] = none
  find k ((j, v) ∷ m) = if k == j then some v else find k m

  -- m[k] = v
  unfoldable pub insert : ℕ → V → Map V → Map V
  insert k v [] = (k, v) ∷ []
  insert k v ((j, w) ∷ m) =
      if k == j then (k, v) ∷ m else if ltb k j then (k, v) ∷ (j, w) ∷ m else (j, w) ∷ insert k v m

  -- A key stands once in a map, so all its entries are its one entry.
  unfoldable pub erase : ℕ → Map V → Map V
  erase k [] = []
  erase k ((j, w) ∷ m) = let rest = erase k m in if k == j then rest else (j, w) ∷ rest

  abbrev pub keys : Map V → List ℕ
  keys = map (λ e. e.0)

  pub find-insert :
      (k j : ℕ) (v : V) (m : Map V) → find j (insert k v m) ≡ (if j == k then some v else find j m)
  unfolding find insert
  find-insert k j v [] = ground arith
  find-insert k j v ((i, w) ∷ m) = ground (arith, find-insert k j v m)

  pub find-erase : (k j : ℕ) (m : Map V) → find j (erase k m) ≡ (if j == k then none else find j m)
  unfolding find erase
  find-erase k j [] = ground arith
  find-erase k j ((i, w) ∷ m) = ground (arith, find-erase k j m)
