-- ===== src/Bundle/Sorted.antt =====
-- The order of texts, and the sort by it.
use mathlib.Core.List.Perm
use mathlib.Core.Logic.{∥∥₁_elim}
use mathlib.Core.List.{Perm, Permᴰ}
use circuit_agent_cloud.Prelude.{
  ℕ, ◌≡◌, refl, sym, ap, ◌∙◌, subst, ◌↔◌, inl, inr, true, false, List, [], ◌∷◌, arith, Bool-cases,
}
use circuit_agent_cloud.Bundle.{before, insert_text, sort_texts}

before_total : (xs ys : List ℕ) → before xs ys ≡ false → before ys xs ≡ true
unfolding before
before_total [] ys h = absurd (ground (arith, h))
before_total (x ∷ xs) [] h = refl
before_total (x ∷ xs) (y ∷ ys) h = ground (arith, h, before_total xs ys)

before_antisym : (xs ys : List ℕ) → before xs ys ≡ true → before ys xs ≡ true → xs ≡ ys
unfolding before
before_antisym [] [] p q = refl
before_antisym [] (y ∷ ys) p q = absurd (ground (arith, q))
before_antisym (x ∷ xs) [] p q = absurd (ground (arith, p))
before_antisym (x ∷ xs) (y ∷ ys) p q =
    let same : x ≡ y = ground (arith, p, q) in
    let rest : xs ≡ ys = before_antisym xs ys (ground (arith, p, q)) (ground (arith, p, q)) in
    ap (λ (zs : List ℕ). x ∷ zs) rest ∙ ap (λ z. z ∷ ys) same

before_trans : (xs ys zs : List ℕ) → before xs ys ≡ true → before ys zs ≡ true → before xs zs ≡ true
unfolding before
before_trans [] ys zs p q = refl
before_trans (x ∷ xs) [] zs p q = absurd (ground (arith, p))
before_trans (x ∷ xs) (y ∷ ys) [] p q = absurd (ground (arith, q))
before_trans (x ∷ xs) (y ∷ ys) (z ∷ zs) p q = ground (arith, p, q, before_trans xs ys zs)

insert_swap :
    (x y : List ℕ) (zs : List (List ℕ))
    → insert_text x (insert_text y zs) ≡ insert_text y (insert_text x zs)
unfolding insert_text
insert_swap x y [] = ground (arith, before_total x y, before_total y x, before_antisym x y)
insert_swap x y (z ∷ zs) = ground (
  arith,
  before_total x y,
  before_total y x,
  before_antisym x y,
  before_trans x y z,
  before_trans y x z,
  insert_swap x y zs,
)

insert-Perm : (x : List ℕ) (ys : List (List ℕ)) → Perm (insert_text x ys) (x ∷ ys)
unfolding insert_text
insert-Perm x [] = Perm.refl (x ∷ [])
insert-Perm x (y ∷ ys) = elim (Bool-cases (before x y)) [
  | inl first ↦ rw (first, insert_text) (Perm.refl (x ∷ y ∷ ys))
  | inr later ↦
      rw (later, insert_text) (Perm.trans (Perm.cons y (insert-Perm x ys)) (Perm.swap x y ys))
]

pub sort_texts-Perm : (xs : List (List ℕ)) → Perm (sort_texts xs) xs
unfolding sort_texts
sort_texts-Perm [] = Perm.nil
sort_texts-Perm (x ∷ xs) =
    Perm.trans (insert-Perm x (sort_texts xs)) (Perm.cons x (sort_texts-Perm xs))

sort_texts-Permᴰ : (xs ys : List (List ℕ)) → Permᴰ xs ys → sort_texts xs ≡ sort_texts ys
unfolding sort_texts
sort_texts-Permᴰ [] [] Permᴰ.nil = refl
sort_texts-Permᴰ xs ys (Permᴰ.cons {a} {b} {l₁} {l₂} e d) =
    ap (λ (x : List ℕ). insert_text x (sort_texts l₁)) e
    ∙ ap (insert_text b) (sort_texts-Permᴰ l₁ l₂ d)
sort_texts-Permᴰ xs ys (Permᴰ.swap {a} {b} {a'} {b'} {l} e f) =
    insert_swap a b (sort_texts l)
    ∙ ap (λ (x : List ℕ). insert_text x (insert_text a (sort_texts l))) f
    ∙ ap (λ (x : List ℕ). insert_text a' (insert_text x (sort_texts l))) e
sort_texts-Permᴰ xs ys (Permᴰ.trans {l₂ = zs} d d') =
    sort_texts-Permᴰ xs zs d ∙ sort_texts-Permᴰ zs ys d'

texts_are_set : IsSet (List (List ℕ))
texts_are_set = hlevel

-- The sort forgets the order, and nothing else.
pub sort_texts-eq : (xs ys : List (List ℕ)) → (sort_texts xs ≡ sort_texts ys) ↔ Perm xs ys
sort_texts-eq xs ys = (
  λ e.
      Perm.trans (Perm.symm (sort_texts-Perm xs))
        (subst (λ (zs : List (List ℕ)). Perm zs ys) (sym e) (sort_texts-Perm ys)),
  λ p. ∥∥₁_elim p (texts_are_set (sort_texts xs) (sort_texts ys)) (sort_texts-Permᴰ xs ys),
)
