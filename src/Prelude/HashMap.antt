-- ===== src/Prelude/HashMap.antt =====
-- std's HashMap and HashSet, used through `get`, `insert` and `remove`. The program never iterates
-- over one, so the order of the entries says nothing. Clients have `map_laws`.
use rust_libp2p_nym.Prelude.Tests.{if◌then◌else◌, Bool-cases}
use mathlib.Core.Path.{◌≡◌, refl}
use mathlib.Core.Logic.{◌↔◌, ◌≢◌, inl, inr}
use mathlib.Core.Bool.{Bool, true, false}
use mathlib.Core.Option.{Option, none, some}
use mathlib.Core.List.{List, [], ◌∷◌}
use native.Mathlib.Omega.{arith}

-- The derived equality of a key.
pub record Eq (K : Type 0) : Type 0 where
  pub eq : K → K → Bool
  pub eq_iff : (a b : K) → (eq a b ≡ true) ↔ (a ≡ b)

pub record HashMap (K V : Type 0) : Type 0 where
  entries : List (K × V)

abbrev pub HashSet : Type 0 → Type 0
HashSet K = HashMap K (Unit {0})

module _ {K : Type 0} ⦃e : Eq K⦄ where
  pub eq_refl : (k : K) → e.eq k k ≡ true
  eq_refl k = (e.eq_iff k k).1 refl

  pub eq_ne : (j k : K) → j ≢ k → e.eq j k ≡ false
  eq_ne j k ne = elim (Bool-cases (e.eq j k)) [
    | inl same ↦ absurd (ne ((e.eq_iff j k).0 same))
    | inr differ ↦ differ
  ]

module _ {K V : Type 0} ⦃e : Eq K⦄ where
  find : K → List (K × V) → Option V
  find k [] = none
  find k ((j, v) ∷ m) = if e.eq j k then some v else find k m

  without : K → List (K × V) → List (K × V)
  without k [] = []
  without k ((j, v) ∷ m) = let rest = without k m in if e.eq j k then rest else (j, v) ∷ rest

  find-without :
      (k j : K) (m : List (K × V)) → find j (without k m) ≡ (if e.eq k j then none else find j m)
  unfolding find without
  find-without k j [] = ground arith
  find-without k j ((i, v) ∷ m) =
      ground (arith, find-without k j m, e.eq_iff k j, e.eq_iff i k, e.eq_iff i j)

  unfoldable pub get : K → HashMap K V → Option V
  unfolding find
  get k m = find k m.entries

  -- `insert` replaces the value of a key that is there.
  unfoldable pub insert : K → V → HashMap K V → HashMap K V
  unfolding without
  insert k v m = record { entries = (k, v) ∷ without k m.entries }

  unfoldable pub remove : K → HashMap K V → HashMap K V
  unfolding without
  remove k m = record { entries = without k m.entries }

  pub get-insert :
      (k j : K) (v : V) (m : HashMap K V)
      → get j (insert k v m) ≡ (if e.eq k j then some v else get j m)
  get-insert k j v m = split
    where
      split : get j (insert k v m) ≡ (if e.eq k j then some v else get j m)
      split = unfold get insert find in simp find-without (ground arith)

  pub get-remove :
      (k j : K) (m : HashMap K V) → get j (remove k m) ≡ (if e.eq k j then none else get j m)
  get-remove k j m = unfold get remove in find-without k j m.entries

  pub get-insert_self : (k : K) (v : V) (m : HashMap K V) → get k (insert k v m) ≡ some v
  get-insert_self k v m = rw (get-insert, eq_refl k)

  pub get-insert_ne : (k j : K) (v : V) (m : HashMap K V) → k ≢ j → get j (insert k v m) ≡ get j m
  get-insert_ne k j v m ne = rw (get-insert, eq_ne k j ne)

  pub get-remove_self : (k : K) (m : HashMap K V) → get k (remove k m) ≡ none
  get-remove_self k m = rw (get-remove, eq_refl k)

  pub get-remove_ne : (k j : K) (m : HashMap K V) → k ≢ j → get j (remove k m) ≡ get j m
  get-remove_ne k j m ne = rw (get-remove, eq_ne k j ne)

unfoldable pub new : {K V : Type 0} → HashMap K V
new = record { entries = [] }

pub get-new : {K V : Type 0} ⦃e : Eq K⦄ (k : K) → get {V = V} k new ≡ none
unfolding get new find
get-new k = refl
