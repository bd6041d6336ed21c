-- ===== src/Proto/Wildmat/State.antt =====
-- The states of the loop of `matches_one` of crates/nntp-proto/src/command.rs, and what it is to
-- find from each.
use rust_nntp.Prelude.Text.{Bytes}
use rust_nntp.Prelude.{
  ℕ, zero, suc, ◌+◌, Bool, true, false, ◌||◌, Option, none, some, [], ◌∷◌, ◌++◌, ◌≡◌, ◌≢◌, refl, ap,
  sym, ◌∙◌, arith, length, length-append, drop, append_assoc, All-append,
}
use rust_nntp.Proto.Wildmat.{only_stars}
use rust_nntp.Proto.Wildmat.Glob.{
  some_suffix, glob, glob-star, glob-only_stars, IsPlainText, drop_cons, suffix-star, suffix-short,
}

-- The name behind the character at which to resume
abbrev pub behind : Bytes → Bytes
behind [] = []
behind (c ∷ n) = n

-- What the loop finds from a state on: a match here, or one for which the last star takes more.
unfoldable pub expected : Bytes → Bytes → Option Bytes → Bytes → Bool
expected p n none resume = glob p n
expected p n (some q) resume = glob p n || some_suffix (glob q) (behind resume)

-- The pattern behind the last star is text that has been compared with what stands between the
-- place to resume and the position in the name.
unfoldable pub Compared : Bytes → Bytes → Option Bytes → Bytes → Type 0
Compared p n none resume = Unit
Compared p n (some q) resume =
    (u : Bytes) × IsPlainText u
    × (q ≡ u ++ p)
    × (n ≡ drop (length u) resume)
    × (length u + length n ≡ length resume)

or-same : (b : Bool) → b ≡ b || b
or-same false = refl
or-same true = refl

or-false : (b : Bool) → b ≡ b || false
or-false false = refl
or-false true = refl

pub suffix-behind :
    (f : Bytes → Bool) (n : Bytes) → f n || some_suffix f (behind n) ≡ some_suffix f n
unfolding some_suffix
suffix-behind f [] = sym (or-same (f []))
suffix-behind f (c ∷ n) = refl

absorb :
    (u p resume : Bytes)
    → IsPlainText u
    → some_suffix (glob (u ++ b'*' ∷ p)) (behind resume) ≡ true
    → some_suffix (glob p) (drop (length u) resume) ≡ true
absorb u p [] h e = suffix-star u p [] h e
absorb u p (c ∷ r) h e = drop_cons (glob p) (length u) c r (suffix-star u p r h e)

absorbed : (a b : Bool) → (b ≡ true → a ≡ true) → a ≡ a || b
absorbed a true h = ground (arith, h refl)
absorbed a false h = or-false a

pub end-expected :
    (p : Bytes) (star : Option Bytes) (resume : Bytes)
    → Compared p [] star resume
    → only_stars p ≡ expected p [] star resume
unfolding expected Compared some_suffix only_stars
end-expected p none resume h = sym (glob-only_stars p)
end-expected p (some q) [] ([], plain, e, _, len) =
    rw (e, glob-only_stars p) (or-same (only_stars p))
end-expected p (some q) [] (d ∷ u, plain, e, _, len) = absurd (omega (arith, len))
end-expected p (some q) (c ∷ r) (u, plain, e, _, len) =
    let none_left : some_suffix (glob q) r ≡ false =
      ap (λ t. some_suffix (glob t) r) e ∙ suffix-short u p r plain (omega (arith, len)) in
    rw (none_left, glob-only_stars p) (or-false (only_stars p))

pub star-expected :
    (p n : Bytes) (star : Option Bytes) (resume : Bytes)
    → Compared (b'*' ∷ p) n star resume
    → expected p n (some p) n ≡ expected (b'*' ∷ p) n star resume
unfolding expected Compared
star-expected p n none resume h = suffix-behind (glob p) n ∙ sym (glob-star p n)
star-expected p n (some q) resume (u, plain, e, at_n, len) =
    suffix-behind (glob p) n
    ∙ sym (glob-star p n)
    ∙ absorbed (glob (b'*' ∷ p) n) (some_suffix (glob q) (behind resume)) (λ more.
      glob-star p n
      ∙ ap (some_suffix (glob p)) at_n
      ∙ absorb u p resume plain (ap (λ t. some_suffix (glob t) (behind resume)) (sym e) ∙ more))

pub expected-ext :
    (p p' n n' : Bytes) (star : Option Bytes) (resume : Bytes)
    → glob p n ≡ glob p' n'
    → expected p n star resume ≡ expected p' n' star resume
unfolding expected
expected-ext p p' n n' none resume e = e
expected-ext p p' n n' (some q) resume e = ap (λ b. b || some_suffix (glob q) (behind resume)) e

drop-suc : (k c : ℕ) (n r : Bytes) → c ∷ n ≡ drop k r → n ≡ drop (suc k) r
drop-suc zero c n [] e = cc
drop-suc zero c n (d ∷ r) e = ground (arith, e)
drop-suc (suc k) c n [] e = cc
drop-suc (suc k) c n (d ∷ r) e = drop-suc k c n r e

pub Compared-next :
    (d : ℕ) (p : Bytes) (c : ℕ) (n : Bytes) (star : Option Bytes) (resume : Bytes)
    → d ≢ b'*'
    → Compared (d ∷ p) (c ∷ n) star resume
    → Compared p n star resume
unfolding Compared
Compared-next d p c n none resume ne h = tt
Compared-next d p c n (some q) resume ne (u, plain, e, at_n, len) =
    let longer : suc (length u) ≡ length (u ++ d ∷ []) = omega (arith, length-append u (d ∷ [])) in
    (
      u ++ d ∷ [],
      All-append (λ x. x ≢ b'*') u (d ∷ []) plain (ne, tt),
      e ∙ sym (append_assoc u (d ∷ []) p),
      drop-suc (length u) c n resume at_n ∙ ap (λ k. drop k resume) longer,
      omega (arith, len, longer),
    )

pub Compared-start : (q n : Bytes) → Compared q n (some q) n
unfolding Compared
Compared-start q n = ([], tt, refl, refl, omega arith)

pub retry-expected : (q r : Bytes) → some (expected q r (some q) r) ≡ some (some_suffix (glob q) r)
unfolding expected
retry-expected q r = ap some (suffix-behind (glob q) r)
