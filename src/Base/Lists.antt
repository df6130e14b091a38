-- ===== src/Base/Lists.antt =====
-- Association lists for Go's maps, and predicates on lists.
use Prim.Native.String.{String}
use mathlib.Core.Path.{◌≡◌, refl}
use mathlib.Core.Logic.{◌⊎◌}
use mathlib.Core.List.{List, [], ◌∷◌}
use mathlib.Core.Option.{Option, none, some}
use native.Mathlib.Omega.{arith}
use text.Mathlib.TextEquality.{eq_iff}
use x_network.Base.Tests.{◌=s=◌, if◌then◌else◌}

module _ {ℓ} {A : Type ℓ} where
  abbrev pub All {κ} : (A → Type κ) → List A → Type κ
  All P [] = Unit
  All P (x ∷ xs) = P x × All P xs

  abbrev pub Any : (A → Type 0) → List A → Type 0
  Any P [] = ⊥
  Any P (x ∷ xs) = P x ⊎ Any P xs

module _ {ℓ} {V : Type ℓ} where
  -- A map keyed by texts: its entries in some order, an absent key being `none`.
  unfoldable pub lookup : String → List (String × V) → Option V
  lookup wanted [] = none
  lookup wanted ((key, v) ∷ rest) = if key =s= wanted then some v else lookup wanted rest

  -- The entry of a key that is there is replaced in its place.
  unfoldable pub insert : (put : String) → V → (entries : List (String × V)) → List (String × V)
  insert put v [] = (put, v) ∷ []
  insert put v ((key, old) ∷ rest) =
      if key =s= put then (put, v) ∷ rest else (key, old) ∷ insert put v rest

  -- All entries under the key go, so that no second one shows.
  unfoldable pub delete : (gone : String) → (entries : List (String × V)) → List (String × V)
  delete gone [] = []
  delete gone ((key, v) ∷ rest) =
      if key =s= gone then delete gone rest else (key, v) ∷ delete gone rest

  pub lookup-insert :
      (put asked : String) (v : V) (entries : List (String × V))
      → lookup asked (insert put v entries)
        ≡ (if put =s= asked then some v else lookup asked entries)
  unfolding insert lookup
  lookup-insert put asked v ((key, old) ∷ rest) =
      let later = lookup-insert put asked v rest in
      ground (arith, later, eq_iff key asked, eq_iff key put, eq_iff put asked)
  lookup-insert put asked v [] = refl

  pub lookup-delete :
      (gone asked : String) (entries : List (String × V))
      → lookup asked (delete gone entries) ≡ (if gone =s= asked then none else lookup asked entries)
  unfolding delete lookup
  lookup-delete gone asked ((key, old) ∷ rest) =
      let later = lookup-delete gone asked rest in
      ground (arith, later, eq_iff key asked, eq_iff key gone, eq_iff gone asked)
  lookup-delete gone asked [] = ground arith
