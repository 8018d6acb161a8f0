-- ===== src/Verdict/Shield/Outcome.antt =====
-- verdict/server.py: what the helper reports of a run of shield.
use terok_clearance.Common.{
  ℕ, zero, suc, ◌≤◌, Char, String, keep_or_drop, Bool, true, false, Option, none, some, List, [],
  ◌∷◌, ◌≡◌, refl, arith, strip, lstrip, rstrip, is_space, if◌then◌else◌, truthy, take, length,
  text_length, inl, inr, Bool-cases,
}
use terok_clearance.Common.Int.{ℤ, pos, negsuc}
use terok_clearance.Common.Utf8.{decode, length-decode}
use terok_clearance.Verdict.Shield.{
  stderr_cap_bytes, Fate, not_spawned, timed_out, exited, report, run_shield,
}

report_applied :
    (fate : Fate) → (report fate).0 ≡ true → (output : List ℕ) × (fate ≡ exited (pos 0) output)
unfolding report
report_applied (not_spawned e) h = absurd (ground arith)
report_applied timed_out h = absurd (ground arith)
report_applied (exited (pos zero) output) h = (output, refl)
report_applied (exited (pos (suc n)) output) h = absurd (ground arith)
report_applied (exited (negsuc n) output) h = absurd (ground arith)

-- A run is reported as applied only if a shield binary was found and the command line of the verdict, the
-- action before the container and the target, exited with code 0.
pub shield_applied :
    (spawn : String → List String → Fate) (binary : Option String) (c d a : String)
    → (run_shield spawn binary c d a).0 ≡ true
    → (b : String) × (output : List ℕ) × (binary ≡ some b)
      × (spawn b (a ∷ c ∷ d ∷ []) ≡ exited (pos 0) output)
unfolding run_shield
shield_applied spawn none c d a h = absurd (ground arith)
shield_applied spawn (some b) c d a h = go (truthy b) h
  where
    go :
        (found : Bool)
        → (if found
            then report (spawn b (a ∷ c ∷ d ∷ []))
            else (false, "terok-shield not found on PATH")).0
          ≡ true
        → (b' : String) × (output : List ℕ) × (some b ≡ some b')
          × (spawn b' (a ∷ c ∷ d ∷ []) ≡ exited (pos 0) output)
    go true k =
        let (output, e) = report_applied (spawn b (a ∷ c ∷ d ∷ [])) k in (b, output, refl, e)
    go false k = absurd (ground arith)

length-lstrip : (s : String) → text_length (lstrip s) ≤ text_length s
unfolding lstrip
length-lstrip String.[] = omega arith
length-lstrip (String.◌∷◌ c s) = ground (arith, length-lstrip s)

length-take : (n : ℕ) (xs : List ℕ) → length (take n xs) ≤ n
length-take zero xs = omega arith
length-take (suc n) [] = omega arith
length-take (suc n) (x ∷ xs) = omega (arith, length-take n xs)

length-keep_or_drop : (c : Char) (t : String) → text_length (keep_or_drop c t) ≤ suc (text_length t)
length-keep_or_drop c String.[] = elim (Bool-cases (is_space c)) [
  | inl space ↦ rw space (omega arith)
  | inr kept ↦ rw kept (omega arith)
]
length-keep_or_drop c (String.◌∷◌ d t) = omega arith

length-rstrip : (s : String) → text_length (rstrip s) ≤ text_length s
unfolding rstrip
length-rstrip String.[] = omega arith
length-rstrip (String.◌∷◌ c s) = omega (arith, length-keep_or_drop c (rstrip s), length-rstrip s)

length-strip : (s : String) → text_length (strip s) ≤ text_length s
unfolding strip
length-strip s = omega (arith, length-lstrip (rstrip s), length-rstrip s)

-- Of a shield that ran to its end, however much it wrote and whatever bytes, the helper forwards a text
-- of at most 512 characters.
pub snippet_capped :
    (spawn : String → List String → Fate) (b c d a : String) {code : ℤ} {output : List ℕ}
    → truthy b ≡ true
    → spawn b (a ∷ c ∷ d ∷ []) ≡ exited code output
    → text_length (run_shield spawn (some b) c d a).1 ≤ stderr_cap_bytes
unfolding run_shield report
snippet_capped spawn b c d a {code} {output} found ran =
    rw (found, ran)
      (omega (
        arith,
        length-strip (decode (take 512 output)),
        length-decode (take 512 output),
        length-take 512 output,
      ))
