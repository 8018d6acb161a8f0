-- ===== src/Common/Purge.antt =====
-- Dicts have each key once, and the loop `stale = [k for k, v in d.items() if p(v)]`, then
-- `for k in stale: d.pop(k, None)`.
use Prim.Native.Nat.{◌+◌}
use mathlib.Core.Path.{◌≡◌, refl, sym}
use mathlib.Core.Logic.{inl, inr}
use mathlib.Core.Bool.{Bool, false}
use mathlib.Core.Option.{Option, none, some}
use mathlib.Core.List.{List, [], ◌∷◌}
use native.Mathlib.Omega.{arith}
use terok_clearance.Common.Tests.{
  Hashable, ◌==◌, if◌then◌else◌, eq_of_beq, Bool-cases, beq_false, beq_self, ne_of_beq,
}
use terok_clearance.Common.Lists.{length}
use terok_clearance.Common.Mapping.{Dict, get, put, remove, remove_all, get-put, get-remove}
use terok_clearance.Common.Sets.{contains}

abbrev pub none_if {ℓ} : {V : Type ℓ} → (V → Bool) → Option V → Option V
none_if p none = none
none_if p (some v) = if p v then none else some v

module _ {ℓ} {K V : Type ℓ} ⦃e : Hashable K⦄ where
  abbrev pub IsDict : Dict K V → Type ℓ
  IsDict [] = Unit
  IsDict ((k, v) ∷ d) = (get k d ≡ none) × IsDict d

  unfoldable pub keys_where : (V → Bool) → Dict K V → List K
  keys_where p [] = []
  keys_where p ((k, v) ∷ d) = let rest = keys_where p d in if p v then k ∷ rest else rest

  pub put-IsDict : (k : K) (v : V) (d : Dict K V) → IsDict d → IsDict (put k v d)
  unfolding put get
  put-IsDict k v [] h = (refl, tt)
  put-IsDict k v ((j, w) ∷ d) h = elim (Bool-cases (j == k)) [
    | inl same ↦ rw same h
    | inr other ↦ rw other (
      ground (arith, get-put k j v d, h.0, e.equal_iff j k, e.equal_iff k j),
      put-IsDict k v d h.1,
    )
  ]

  pub remove-IsDict : (k : K) (d : Dict K V) → IsDict d → IsDict (remove k d)
  unfolding remove get
  remove-IsDict k [] h = tt
  remove-IsDict k ((j, w) ∷ d) h = elim (Bool-cases (j == k)) [
    | inl same ↦ rw same (remove-IsDict k d h.1)
    | inr other ↦ rw other (ground (arith, get-remove k j d, h.0), remove-IsDict k d h.1)
  ]

  pub remove_all-IsDict : (ks : List K) (d : Dict K V) → IsDict d → IsDict (remove_all ks d)
  unfolding remove_all
  remove_all-IsDict [] d h = h
  remove_all-IsDict (k ∷ ks) d h = remove_all-IsDict ks (remove k d) (remove-IsDict k d h)

  pub get-remove_all :
      (ks : List K) (j : K) (d : Dict K V)
      → get j (remove_all ks d) ≡ (if contains j ks then none else get j d)
  unfolding remove_all contains
  get-remove_all [] j d = refl
  get-remove_all (k ∷ ks) j d = ground (arith, get-remove_all ks j (remove k d), get-remove k j d)

  -- A key that the dict lacks is not selected.
  keys_where_absent :
      (p : V → Bool) (j : K) (d : Dict K V) → get j d ≡ none → contains j (keys_where p d) ≡ false
  unfolding keys_where contains get
  keys_where_absent p j [] h = refl
  keys_where_absent p j ((k, v) ∷ d) h = ground (arith, keys_where_absent p j d, e.equal_iff k j)

  -- A key is selected exactly when its value passes the test.
  pub contains-keys_where :
      (p : V → Bool) (j : K) (d : Dict K V)
      → IsDict d
      → contains j (keys_where p d) ≡ elim (get j d) [ none ↦ false | some v ↦ p v ]
  unfolding keys_where contains get
  contains-keys_where p j [] h = refl
  contains-keys_where p j ((k, v) ∷ d) h = elim (Bool-cases (k == j)) [
    | inl same ↦ ground (arith, keys_where_absent p j d, eq_of_beq k j same, h.0)
    | inr other ↦ ground (arith, contains-keys_where p j d h.1)
  ]

  -- The loop takes out exactly the keys whose value passes the test.
  pub get-purge :
      (p : V → Bool) (j : K) (d : Dict K V)
      → IsDict d
      → get j (remove_all (keys_where p d) d) ≡ none_if p (get j d)
  get-purge p j d h =
      ground (arith, get-remove_all (keys_where p d) j d, contains-keys_where p j d h)

  remove_absent : (k : K) (d : Dict K V) → get k d ≡ none → remove k d ≡ d
  unfolding remove get
  remove_absent k [] h = refl
  remove_absent k ((j, w) ∷ d) h = elim (Bool-cases (j == k)) [
    | inl same ↦ absurd (ground arith)
    | inr other ↦ rw (other, remove_absent k d (rw other at h))
  ]

  remove_all-cons :
      (ks : List K) (k : K) (v : V) (d : Dict K V)
      → contains k ks ≡ false
      → remove_all ks ((k, v) ∷ d) ≡ (k, v) ∷ remove_all ks d
  unfolding remove_all remove contains
  remove_all-cons [] k v d h = refl
  remove_all-cons (j ∷ ks) k v d h = elim (Bool-cases (j == k)) [
    | inl same ↦ absurd (ground arith)
    | inr other ↦
        rw (beq_false k j (λ e. ne_of_beq j k other (sym e)))
          (remove_all-cons ks k v (remove j d) (rw other at h))
  ]

  remove_all_self :
      (ks : List K) (k : K) (v : V) (d : Dict K V)
      → get k d ≡ none
      → remove_all (k ∷ ks) ((k, v) ∷ d) ≡ remove_all ks d
  unfolding remove_all remove
  remove_all_self ks k v d h = rw (beq_self k, remove_absent k d h)

  -- The loop takes out as many entries as it selects keys.
  pub length-purge :
      (p : V → Bool) (d : Dict K V)
      → IsDict d
      → length (keys_where p d) + length (remove_all (keys_where p d) d) ≡ length d
  unfolding keys_where
  length-purge p [] h = unfold remove_all in refl
  length-purge p ((k, v) ∷ d) h = elim (Bool-cases (p v)) [
    | inl stale ↦
        rw (stale, remove_all_self (keys_where p d) k v d h.0) (omega (arith, length-purge p d h.1))
    | inr fresh ↦
        rw (fresh, remove_all-cons (keys_where p d) k v d (keys_where_absent p k d h.0))
          (omega (arith, length-purge p d h.1))
  ]
