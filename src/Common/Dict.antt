-- ===== src/Common/Dict.antt =====
-- A JavaScript Map as an association list: a key that is set again keeps its place.
use mathlib.Core.Path.{◌≡◌, refl}
use mathlib.Core.Option.{Option, none, some}
use mathlib.Core.List.{List, [], ◌∷◌}
use mathlib.Core.Logic.{◌≢◌}
use native.Mathlib.Omega.{arith}
use myadmin.Common.Tests.{if◌then◌else◌, Eq, ◌==◌}

module _ {ℓ κ} {K : Type ℓ} {V : Type κ} ⦃q : Eq K⦄ where
  unfoldable pub lookup : K → List (K × V) → Option V
  lookup key [] = none
  lookup key ((at, value) ∷ rest) = if at == key then some value else lookup key rest

  unfoldable pub insert : K → V → List (K × V) → List (K × V)
  insert key new [] = (key, new) ∷ []
  insert key new ((at, value) ∷ rest) =
      if at == key then (at, new) ∷ rest else (at, value) ∷ insert key new rest

  unfoldable pub delete : K → List (K × V) → List (K × V)
  delete key [] = []
  delete key ((at, value) ∷ rest) =
      let kept = delete key rest in if at == key then kept else (at, value) ∷ kept

  -- What a look-up sees of a deletion and of an insertion.
  pub lookup-delete :
      (gone key : K) (m : List (K × V))
      → lookup key (delete gone m) ≡ (if gone == key then none else lookup key m)
  unfolding lookup delete
  lookup-delete gone key [] = ground arith
  lookup-delete gone key ((at, value) ∷ rest) =
      let below = lookup-delete gone key rest in
      ground (arith, below, q.same_iff gone key, q.same_iff at gone, q.same_iff at key)

  pub lookup-insert :
      (new key : K) (value : V) (m : List (K × V))
      → lookup key (insert new value m) ≡ (if new == key then some value else lookup key m)
  unfolding lookup insert
  lookup-insert new key value ((at, old) ∷ rest) =
      let below = lookup-insert new key value rest in
      ground (arith, below, q.same_iff new key, q.same_iff at new, q.same_iff at key)
  lookup-insert new key value [] = refl

  pub lookup-insert_self : (k : K) (v : V) (m : List (K × V)) → lookup k (insert k v m) ≡ some v
  lookup-insert_self k v m = ground (arith, lookup-insert k k v m, q.same_iff k k)

  pub lookup-insert_ne :
      (k j : K) (v : V) (m : List (K × V)) → k ≢ j → lookup j (insert k v m) ≡ lookup j m
  lookup-insert_ne k j v m h = ground (arith, lookup-insert k j v m, q.same_iff k j)
