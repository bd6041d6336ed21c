-- ===== src/Proto/Wildmat/Loop.antt =====
-- The loop of `matches_one` of crates/nntp-proto/src/command.rs goes back to the last star only, and
-- finds what trying every way to fill every star finds.
use rust_nntp.Prelude.Text.{Bytes}
use rust_nntp.Prelude.{
  ℕ, zero, suc, ◌≤◌, Bool, true, false, ◌||◌, Option, none, some, [], ◌∷◌, ◌≡◌, ◌≢◌, refl, ap, sym,
  ◌∙◌, arith, ◌==◌, Bool-cases, inl, inr, length,
}
use mathlib.Core.Option.{some-injective, none-ne-some}
use mathlib.Core.Path.{subst}
use rust_nntp.Proto.Wildmat.{mismatch, head_of, only_stars, match_round, match_loop, matches_one}
use rust_nntp.Proto.Wildmat.Glob.{some_suffix, glob, glob-only_stars}
use rust_nntp.Proto.Wildmat.State.{
  expected, Compared, behind, end-expected, star-expected, expected-ext, Compared-next,
  Compared-start, retry-expected,
}

mismatch-expected :
    (on_star on_one retry : Bytes → Option Bool) (p : Bytes) (c : ℕ) (n : Bytes)
    (star : Option Bytes) (resume : Bytes)
    → glob p (c ∷ n) ≡ false
    → ((q : Bytes) → star ≡ some q → retry q ≡ some (some_suffix (glob q) (behind resume)))
    → match_round on_star on_one retry mismatch star ≡ some (expected p (c ∷ n) star resume)
unfolding match_round expected
mismatch-expected on_star on_one retry p c n none resume e r = ap some (sym e)
mismatch-expected on_star on_one retry p c n (some q) resume e r = rw e (r q refl)

glob-next :
    (d : ℕ) (p : Bytes) (c : ℕ) (n : Bytes)
    → (d == b'*') ≡ false
    → (d == b'?' || d == c) ≡ true
    → glob (d ∷ p) (c ∷ n) ≡ glob p n
unfolding glob
glob-next d p c n e m = rw (e, m) refl

glob-mismatch :
    (d : ℕ) (p : Bytes) (c : ℕ) (n : Bytes)
    → (d == b'*') ≡ false
    → (d == b'?' || d == c) ≡ false
    → glob (d ∷ p) (c ∷ n) ≡ false
unfolding glob
glob-mismatch d p c n e m = rw (e, m) refl

next-state :
    (p : Bytes) (c : ℕ) (n : Bytes) (star : Option Bytes) (resume : Bytes) (d : ℕ) (p' : Bytes)
    → p ≡ d ∷ p'
    → d ≢ b'*'
    → Compared p (c ∷ n) star resume
    → Compared p' n star resume
next-state p c n star resume d p' e ne h =
    Compared-next d p' c n star resume ne (subst (λ x. Compared x (c ∷ n) star resume) e h)

no_more : (q : Bytes) → only_stars q ≡ some_suffix (glob q) []
unfolding some_suffix
no_more q = sym (glob-only_stars q)

still : {a : ℕ} (q q' : Bytes) → some q ≡ some q' → length q ≤ a → length q' ≤ a
still q q' e k = omega (arith, k, ap length (some-injective q q' e))

-- A round finds what it should if what follows it does.
round-expected :
    (on_star on_one retry : Bytes → Option Bool) (p : Bytes) (c : ℕ) (n : Bytes)
    (star : Option Bytes) (resume : Bytes)
    → Compared p (c ∷ n) star resume
    → ((p' : Bytes) → p ≡ b'*' ∷ p' → on_star p' ≡ some (expected p' (c ∷ n) (some p') (c ∷ n)))
    → ((d : ℕ) (p' : Bytes) → p ≡ d ∷ p' → d ≢ b'*' → on_one p' ≡ some (expected p' n star resume))
    → ((q : Bytes) → star ≡ some q → retry q ≡ some (some_suffix (glob q) (behind resume)))
    → match_round on_star on_one retry (head_of p c) star ≡ some (expected p (c ∷ n) star resume)
unfolding match_round head_of glob
round-expected on_star on_one retry [] c n star resume h s o r =
    mismatch-expected on_star on_one retry [] c n star resume refl r
round-expected on_star on_one retry (d ∷ p) c n star resume h s o r =
    elim (Bool-cases (d == b'*')) [
      | inl e ↦
          let here : d ≡ b'*' = ground arith in
          rw e (
            s p (ap (λ x. x ∷ p) here)
            ∙ ap some (
                star-expected p (c ∷ n) star resume
                  (subst (λ x. Compared (x ∷ p) (c ∷ n) star resume) here h))
            ∙ ap (λ x. some (expected (x ∷ p) (c ∷ n) star resume)) (sym here))
      | inr e ↦
          let other : d ≢ b'*' = ground arith in
          let next = o d p refl other in
          elim (Bool-cases (d == b'?')) [
            | inl any ↦
                rw (e, any)
                  (next
                    ∙ ap some (
                        expected-ext p (d ∷ p) n (c ∷ n) star resume
                          (sym (glob-next d p c n e (rw any refl)))))
            | inr literal ↦ elim (Bool-cases (d == c)) [
              | inl same ↦
                  rw (e, literal, same)
                    (next
                      ∙ ap some (
                          expected-ext p (d ∷ p) n (c ∷ n) star resume
                            (sym (glob-next d p c n e (rw (literal, same) refl)))))
              | inr differs ↦
                  rw (e, literal, differs)
                    (mismatch-expected on_star on_one retry (d ∷ p) c n star resume
                      (glob-mismatch d p c n e (rw (literal, differs) refl)) r)
            ]
          ]
    ]

-- The loop finds what it should from every state that it can be in, with fuel for the stars left.
loop-expected :
    (a : ℕ) (p n : Bytes) (star : Option Bytes) (resume : Bytes)
    → Compared p n star resume
    → length p ≤ a
    → ((q : Bytes) → star ≡ some q → length q ≤ a)
    → match_loop a p n star resume ≡ some (expected p n star resume)
unfolding match_loop
loop-expected a p [] star resume h k ks = ap some (end-expected p star resume h)
loop-expected zero p (c ∷ n) star [] h k ks =
    round-expected _ _ _ p c n star [] h (λ p' e. absurd (omega (arith, k, ap length e)))
      (λ d p' e ne.
        loop-expected zero p' n star [] (next-state p c n star [] d p' e ne h)
          (omega (arith, k, ap length e)) ks)
      (λ q e. ap some (no_more q))
loop-expected zero p (c ∷ n) star (d ∷ r) h k ks =
    round-expected _ _ _ p c n star (d ∷ r) h (λ p' e. absurd (omega (arith, k, ap length e)))
      (λ d' p' e ne.
        loop-expected zero p' n star (d ∷ r) (next-state p c n star (d ∷ r) d' p' e ne h)
          (omega (arith, k, ap length e)) ks)
      (λ q e.
        loop-expected zero q r (some q) r (Compared-start q r) (ks q e)
          (λ q' e'. still q q' e' (ks q e))
        ∙ retry-expected q r)
loop-expected (suc a) p (c ∷ n) star [] h k ks =
    round-expected _ _ _ p c n star [] h
      (λ p' e.
        loop-expected a p' (c ∷ n) (some p') (c ∷ n) (Compared-start p' (c ∷ n))
          (omega (arith, k, ap length e)) (λ q' e'. still p' q' e' (omega (arith, k, ap length e))))
      (λ d p' e ne.
        loop-expected (suc a) p' n star [] (next-state p c n star [] d p' e ne h)
          (omega (arith, k, ap length e)) ks)
      (λ q e. ap some (no_more q))
loop-expected (suc a) p (c ∷ n) star (d ∷ r) h k ks =
    round-expected _ _ _ p c n star (d ∷ r) h
      (λ p' e.
        loop-expected a p' (c ∷ n) (some p') (c ∷ n) (Compared-start p' (c ∷ n))
          (omega (arith, k, ap length e)) (λ q' e'. still p' q' e' (omega (arith, k, ap length e))))
      (λ d' p' e ne.
        loop-expected (suc a) p' n star (d ∷ r) (next-state p c n star (d ∷ r) d' p' e ne h)
          (omega (arith, k, ap length e)) ks)
      (λ q e.
        loop-expected (suc a) q r (some q) r (Compared-start q r) (ks q e)
          (λ q' e'. still q q' e' (ks q e))
        ∙ retry-expected q r)

-- `matches_one` always has a result, and it is what the pattern matches when every way to fill its
-- stars is tried.
pub matches_one-glob : (pattern name : Bytes) → matches_one pattern name ≡ some (glob pattern name)
unfolding matches_one expected Compared
matches_one-glob pattern name =
    loop-expected (length pattern) pattern name none name tt (omega arith)
      (λ q e. absurd (none-ne-some q e))
