-- ===== src/Common/Every.antt =====
-- A property of every entry of a dict, and of every value that a call may return.
use mathlib.Core.Path.{◌≡◌, sym, subst}
use mathlib.Core.Logic.{inl, inr}
use mathlib.Core.Option.{some}
use mathlib.Core.List.{List, [], ◌∷◌}
use native.Mathlib.Omega.{arith}
use terok_clearance.Common.Tests.{Hashable, ◌==◌, Bool-cases, eq_of_beq}
use terok_clearance.Common.Lists.{All}
use terok_clearance.Common.Mapping.{Dict, get, put, remove, remove_all}
use terok_clearance.Common.Results.{Result, ok, raise, ◌>>=◌}

module _ {ℓ} {K V : Type ℓ} ⦃e : Hashable K⦄ (P : K → V → Type ℓ) where
  abbrev pub Entries : Dict K V → Type ℓ
  Entries d = All (λ e. P e.0 e.1) d

  pub Entries-put : (k : K) (v : V) (d : Dict K V) → P k v → Entries d → Entries (put k v d)
  unfolding put
  Entries-put k v [] p h = (p, tt)
  Entries-put k v ((j, w) ∷ d) p h = elim (Bool-cases (j == k)) [
    | inl same ↦ rw same (subst (λ x. P x v) (sym (eq_of_beq j k same)) p, h.1)
    | inr other ↦ rw other (h.0, Entries-put k v d p h.1)
  ]

  pub Entries-remove : (k : K) (d : Dict K V) → Entries d → Entries (remove k d)
  unfolding remove
  Entries-remove k [] h = tt
  Entries-remove k ((j, w) ∷ d) h = elim (Bool-cases (j == k)) [
    | inl same ↦ rw same (Entries-remove k d h.1)
    | inr other ↦ rw other (h.0, Entries-remove k d h.1)
  ]

  pub Entries-remove_all : (ks : List K) (d : Dict K V) → Entries d → Entries (remove_all ks d)
  unfolding remove_all
  Entries-remove_all [] d h = h
  Entries-remove_all (k ∷ ks) d h = Entries-remove_all ks (remove k d) (Entries-remove k d h)

  pub Entries-get : (k : K) (v : V) (d : Dict K V) → Entries d → get k d ≡ some v → P k v
  unfolding get
  Entries-get k v [] h found = absurd (ground arith)
  Entries-get k v ((j, w) ∷ d) h found = elim (Bool-cases (j == k)) [
    | inl same ↦
        let kept : w ≡ v = ground arith in
        subst (λ x. P x v) (eq_of_beq j k same) (subst (P j) kept h.0)
    | inr other ↦ Entries-get k v d h.1 (rw other at found)
  ]

module _ {ℓ κ} {A : Type ℓ} {P Q : A → Type κ} where
  pub All-imp : ((a : A) → P a → Q a) → (xs : List A) → All P xs → All Q xs
  All-imp f [] h = tt
  All-imp f (x ∷ xs) h = (f x h.0, All-imp f xs h.1)

-- What a call returns has the property.
abbrev pub Returned {ℓ} : {E A : Type ℓ} → (A → Type ℓ) → Result E A → Type ℓ
Returned P (ok a) = P a
Returned P (raise e) = Unit

pub Returned-ok {ℓ} :
    {E A : Type ℓ} (P : A → Type ℓ) (r : Result E A) {a : A} → Returned P r → r ≡ ok a → P a
Returned-ok P (ok b) h e = let same : b ≡ _ = ground arith in subst P same h
Returned-ok P (raise x) h e = absurd (ground arith)

module _ {ℓ} {E A B : Type ℓ} (P : B → Type ℓ) where
  pub Returned-bind :
      (m : Result E A) (f : A → Result E B) → ((a : A) → Returned P (f a)) → Returned P (m >>= f)
  Returned-bind (ok a) f h = h a
  Returned-bind (raise e) f h = tt
