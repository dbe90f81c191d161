-- ===== src/Prelude/Maps.antt =====
-- Go maps as association lists: a read, an assignment and a deletion, for any decidable key.
use mathlib.Core.Logic.{ite, if_pos, if_neg}
use krot_vpn.Prelude.{◌≤◌, ◌≡◌, refl, ◌≢◌, Option, none, some, List, [], ◌∷◌, arith, length}

module _ {K V : Type 0} (dec : Discrete K) where
  unfoldable pub find : K → List (K × V) → Option V
  find k [] = none
  find k ((j, v) ∷ m) = ite (dec j k) (some v) (find k m)

  unfoldable pub delete : K → List (K × V) → List (K × V)
  delete k [] = []
  delete k ((j, v) ∷ m) = ite (dec j k) (delete k m) ((j, v) ∷ delete k m)

  unfoldable pub assign : K → V → List (K × V) → List (K × V)
  assign k v m = (k, v) ∷ delete k m

  pub find-delete_self : (k : K) (m : List (K × V)) → find k (delete k m) ≡ none
  unfolding find delete
  find-delete_self k [] = refl
  find-delete_self k ((j, v) ∷ m) = ground (arith, find-delete_self k m)

  pub find-delete_ne : (k q : K) (m : List (K × V)) → q ≢ k → find q (delete k m) ≡ find q m
  unfolding find delete
  find-delete_ne k q [] h = refl
  find-delete_ne k q ((j, v) ∷ m) h = ground (arith, find-delete_ne k q m)

  pub find-assign_self : (k : K) (v : V) (m : List (K × V)) → find k (assign k v m) ≡ some v
  unfolding find assign
  find-assign_self k v m = if_pos (dec k k) refl _ _

  pub find-assign_ne :
      (k q : K) (v : V) (m : List (K × V)) → q ≢ k → find q (assign k v m) ≡ find q m
  unfolding find assign
  find-assign_ne k q v m h = ground (arith, find-delete_ne k q m)

  pub length-delete-le : (k : K) (m : List (K × V)) → length (delete k m) ≤ length m
  unfolding delete
  length-delete-le k [] = omega arith
  length-delete-le k ((j, v) ∷ m) = ground (arith, length-delete-le k m)

  pub delete_absent : (k : K) (m : List (K × V)) → find k m ≡ none → delete k m ≡ m
  unfolding find delete
  delete_absent k [] h = refl
  delete_absent k ((j, v) ∷ m) h = ground (arith, delete_absent k m)

  -- Each key stands once.
  abbrev pub Uniq : List (K × V) → Type 0
  Uniq [] = Unit
  Uniq ((k, v) ∷ m) = (find k m ≡ none) × Uniq m

  find-delete-none : (k q : K) (m : List (K × V)) → find q m ≡ none → find q (delete k m) ≡ none
  unfolding find delete
  find-delete-none k q [] h = refl
  find-delete-none k q ((j, v) ∷ m) h = ground (arith, find-delete-none k q m)

  pub delete-Uniq : (k : K) (m : List (K × V)) → Uniq m → Uniq (delete k m)
  unfolding delete
  delete-Uniq k [] u = tt
  delete-Uniq k ((j, v) ∷ m) u = elim (dec j k) [
    | yes same ↦ rw (if_pos _ same) (delete-Uniq k m u.1)
    | no other ↦ rw (if_neg _ other) (find-delete-none k j m u.0, delete-Uniq k m u.1)
  ]
