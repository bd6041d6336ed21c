-- ===== src/Client/Connection/Search.antt =====
-- The search of `read_line` in crates/nntp-client/src/connection.rs for the LF, over two parts of the
-- octets and over a line that ends in CRLF.
use rust_nntp.Prelude.Text.{Bytes}
use rust_nntp.Prelude.Text.Laws.{Lacks}
use rust_nntp.Prelude.{
  ℕ, false, Option, none, some, [], ◌∷◌, ◌++◌, ◌≡◌, inl, inr, ◌≢◌, refl, sym, ap, ◌∙◌, arith, ◌==◌,
  Bool-cases, All-append, append_assoc,
}
use rust_nntp.Proto.Block.{prepend, find_newline}

abbrev pub extend : Bytes → Bytes → Option (Bytes × Bytes) → Option (Bytes × Bytes)
extend s t none = prepend s (find_newline t)
extend s t (some (a, b)) = some (a, b ++ t)

pub prepend-nil : (o : Option (Bytes × Bytes)) → prepend [] o ≡ o
prepend-nil none = refl
prepend-nil (some (a, b)) = refl

pub prepend-prepend :
    (a b : Bytes) (o : Option (Bytes × Bytes)) → prepend a (prepend b o) ≡ prepend (a ++ b) o
prepend-prepend a b none = refl
prepend-prepend a b (some (h, t)) = rw append_assoc

extend-cons :
    (c : ℕ) (s t : Bytes) (o : Option (Bytes × Bytes))
    → prepend (c ∷ []) (extend s t o) ≡ extend (c ∷ s) t (prepend (c ∷ []) o)
extend-cons c s t none =
    elim (find_newline t) as (λ o. prepend (c ∷ []) (prepend s o) ≡ prepend (c ∷ s) o) [
      | none ↦ refl
      | some (a, b) ↦ refl
    ]
extend-cons c s t (some (a, b)) = refl

find_newline-cons :
    (c : ℕ) (s : Bytes)
    → (c == b'\n') ≡ false
    → find_newline (c ∷ s) ≡ prepend (c ∷ []) (find_newline s)
unfolding find_newline
find_newline-cons c s e = rw e

-- A search over two parts.
pub find_newline-append : (s t : Bytes) → find_newline (s ++ t) ≡ extend s t (find_newline s)
find_newline-append [] t = unfold find_newline in sym (prepend-nil (find_newline t))
find_newline-append (c ∷ s) t = elim (Bool-cases (c == b'\n')) [
  | inl e ↦ unfold find_newline in rw e
  | inr e ↦
      find_newline-cons c (s ++ t) e
      ∙ ap (prepend (c ∷ [])) (find_newline-append s t)
      ∙ extend-cons c s t (find_newline s)
      ∙ ap (extend (c ∷ s) t) (sym (find_newline-cons c s e))
]

find_newline-Lacks :
    (p rest : Bytes) → Lacks b'\n' p → find_newline (p ++ b'\n' ∷ rest) ≡ some (p, rest)
unfolding find_newline
find_newline-Lacks [] rest h = refl
find_newline-Lacks (c ∷ p) rest (hc, h) = rw (find_newline-Lacks p rest h) (ground arith)

pub find_sent :
    (p rest : Bytes)
    → Lacks b'\n' p
    → find_newline (p ++ (b'\r' ∷ b'\n' ∷ rest)) ≡ some (p ++ b'\r' ∷ [], rest)
find_sent p rest h =
    ap find_newline (sym (append_assoc p (b'\r' ∷ []) (b'\n' ∷ rest)))
    ∙ find_newline-Lacks (p ++ b'\r' ∷ []) rest
        (All-append (λ c. c ≢ b'\n') p (b'\r' ∷ []) h (omega arith))
