-- ===== src/Base/Sublists.antt =====
-- Lists with elements left out, in order.
use mathlib.Core.Path.{sym, subst}
use mathlib.Core.List.{List, [], ◌∷◌, ◌++◌, append_assoc}
use Prim.Native.Nat.{ℕ, zero, suc}
use larmindon_core.Base.Lists.{drop}

pub data Sublist {ℓ} {A : Type ℓ} : List A → List A → Type ℓ where
  done : Sublist [] []
  skip : {x : A} {xs ys : List A} → Sublist xs ys → Sublist xs (x ∷ ys)
  keep : {x : A} {xs ys : List A} → Sublist xs ys → Sublist (x ∷ xs) (x ∷ ys)

module _ {ℓ} {A : Type ℓ} where
  pub Sublist-refl : (xs : List A) → Sublist xs xs
  Sublist-refl [] = done
  Sublist-refl (x ∷ xs) = keep (Sublist-refl xs)

  pub Sublist-nil : (xs : List A) → Sublist [] xs
  Sublist-nil [] = done
  Sublist-nil (x ∷ xs) = skip (Sublist-nil xs)

  pub Sublist-left : (xs ys : List A) → Sublist xs (xs ++ ys)
  Sublist-left [] ys = Sublist-nil ys
  Sublist-left (x ∷ xs) ys = keep (Sublist-left xs ys)

  pub Sublist-drop : (n : ℕ) (xs : List A) → Sublist (drop n xs) xs
  Sublist-drop zero xs = Sublist-refl xs
  Sublist-drop (suc n) [] = done
  Sublist-drop (suc n) (x ∷ xs) = skip (Sublist-drop n xs)

  pub Sublist-append :
      {xs ys us vs : List A} → Sublist xs ys → Sublist us vs → Sublist (xs ++ us) (ys ++ vs)
  Sublist-append done q = q
  Sublist-append (skip p) q = skip (Sublist-append p q)
  Sublist-append (keep p) q = keep (Sublist-append p q)

  pub Sublist-trans :
      {ys zs : List A} → Sublist ys zs → {xs : List A} → Sublist xs ys → Sublist xs zs
  Sublist-trans done p = p
  Sublist-trans (skip q) p = skip (Sublist-trans q p)
  Sublist-trans (keep q) (skip p) = skip (Sublist-trans q p)
  Sublist-trans (keep q) (keep p) = keep (Sublist-trans q p)

  -- Two deliveries after one another, where the first leaves `mid` to the second.
  pub Sublist-then :
      (out outs mid rest ys r : List A)
      → Sublist (out ++ mid) ys
      → Sublist (outs ++ rest) (mid ++ r)
      → Sublist ((out ++ outs) ++ rest) (ys ++ r)
  Sublist-then out outs mid rest ys r p q =
      subst (λ l. Sublist l (ys ++ r)) (sym (append_assoc out outs rest))
        (Sublist-trans
          (subst (λ l. Sublist l (ys ++ r)) (append_assoc out mid r)
            (Sublist-append p (Sublist-refl r)))
          (Sublist-append (Sublist-refl out) q))
