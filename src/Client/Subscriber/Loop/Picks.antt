-- ===== src/Client/Subscriber/Loop/Picks.antt =====
-- client/subscriber.py: one task of those on the event loop.
use terok_clearance.Common.{
  ℕ, zero, suc, Option, none, some, List, [], ◌∷◌, ◌≡◌, refl, subst, arith, All,
}
use terok_clearance.Client.Subscriber.Loop.{pick}

pub pick-All :
    {A : Type 0} (P : A → Type 0) (i : ℕ) (xs : List A) (x : A) (others : List A)
    → pick i xs ≡ some (x, others)
    → All P xs
    → P x × All P others
unfolding pick
pick-All {A} P i [] x others e h = absurd (ground arith)
pick-All {A} P zero (y ∷ ys) x others e h =
    let same : y ≡ x = ground arith in
    let rest : ys ≡ others = ground arith in (subst P same h.0, subst (All P) rest h.1)
pick-All {A} P (suc i) (y ∷ ys) x others e h =
    go (pick i ys) refl e (λ z zs found. pick-All P i ys z zs found h.1)
  where
    go :
        (o : Option (A × List A))
        → pick i ys ≡ o
        → ◌≡◌ {A = Option (A × List A)}
            (elim o [ none ↦ none | some (z, zs) ↦ some (z, y ∷ zs) ])
            (some (x, others))
        → ((z : A) (zs : List A) → pick i ys ≡ some (z, zs) → P z × All P zs)
        → P x × All P others
    go none missing eq ih = absurd (ground arith)
    go (some (z, zs)) found eq ih =
        let (pz, pzs) = ih z zs found in
        let same : z ≡ x = ground arith in
        let rest : y ∷ zs ≡ others = ground arith in
        (subst P same pz, subst (All P) rest (h.0, pzs))
