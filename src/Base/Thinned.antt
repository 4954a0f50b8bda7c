-- ===== src/Base/Thinned.antt =====
-- One list is what is left of another: some items are dropped, the others are kept in their order, each
-- related to what it became.
use mathlib.Core.Path.{◌≡◌, refl, ◌∙◌}
use mathlib.Core.List.{List, [], ◌∷◌, ◌++◌}

pub data Thinned {ℓ κ μ} {A : Type ℓ} {B : Type κ} (P : A → B → Type μ)
    : List A → List B → Type (ℓ ⊔ κ ⊔ μ) where
  end : Thinned P [] []
  drops : {xs : List A} {ys : List B} (y : B) → Thinned P xs ys → Thinned P xs (y ∷ ys)
  keeps :
      {xs : List A} {ys : List B} (x : A) (y : B)
      → P x y
      → Thinned P xs ys
      → Thinned P (x ∷ xs) (y ∷ ys)

module _ {ℓ κ μ} {A : Type ℓ} {B : Type κ} (P : A → B → Type μ) where
  pub Thinned-drop :
      {xs : List A} {ys : List B} (y : B) → Thinned P xs ys → Thinned P xs (ys ++ y ∷ [])
  Thinned-drop y end = drops y end
  Thinned-drop y (drops z t) = drops z (Thinned-drop y t)
  Thinned-drop y (keeps x z h t) = keeps x z h (Thinned-drop y t)

  pub Thinned-keep :
      {xs : List A} {ys : List B} (x : A) (y : B)
      → P x y
      → Thinned P xs ys
      → Thinned P (xs ++ x ∷ []) (ys ++ y ∷ [])
  Thinned-keep x y p end = keeps x y p end
  Thinned-keep x y p (drops z t) = drops z (Thinned-keep x y p t)
  Thinned-keep x y p (keeps a z h t) = keeps a z h (Thinned-keep x y p t)

-- The end of a list.
abbrev pub IsSuffix {ℓ} : {A : Type ℓ} → List A → List A → Type ℓ
IsSuffix {A} f s = (p : List A) × (s ≡ p ++ f)

module _ {ℓ} {A : Type ℓ} where
  pub Thinned-refl : (xs : List A) → Thinned ◌≡◌ xs xs
  Thinned-refl [] = end
  Thinned-refl (x ∷ xs) = keeps x x refl (Thinned-refl xs)

  pub Thinned-nil : (xs : List A) → Thinned ◌≡◌ [] xs
  Thinned-nil [] = end
  Thinned-nil (x ∷ xs) = drops x (Thinned-nil xs)

  pub Thinned-trans :
      {xs ys zs : List A} → Thinned ◌≡◌ xs ys → Thinned ◌≡◌ ys zs → Thinned ◌≡◌ xs zs
  Thinned-trans s end = s
  Thinned-trans {xs} s (drops z t) = drops z (Thinned-trans {xs = xs} s t)
  Thinned-trans {xs} (drops y s) (keeps y' z e t) = drops z (Thinned-trans {xs = xs} s t)
  Thinned-trans (keeps {xs = xs} x y d s) (keeps y' z e t) =
      keeps x z (d ∙ e) (Thinned-trans {xs = xs} s t)

  pub Thinned-append :
      {xs ys us vs : List A}
      → Thinned ◌≡◌ xs ys
      → Thinned ◌≡◌ us vs
      → Thinned ◌≡◌ (xs ++ us) (ys ++ vs)
  Thinned-append end t = t
  Thinned-append (drops y s) t = drops y (Thinned-append s t)
  Thinned-append (keeps x y e s) t = keeps x y e (Thinned-append s t)
