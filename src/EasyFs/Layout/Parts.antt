-- ===== src/EasyFs/Layout/Parts.antt =====
-- Parts of a list, for the blocks that `clear_size` gives back.
use r_core_tutorial_v3_arm.Base.{
  ℕ, zero, suc, ◌+◌, ◌≤◌, ◌<◌, ◌≡◌, refl, sym, ap, ◌∙◌, Option, none, some, List, [], ◌∷◌, ◌++◌,
  arith, length, get_elem?, take, done, unwrap, done-injective,
}
use r_core_tutorial_v3_arm.EasyFs.Layout.{push_entries}
use r_core_tutorial_v3_arm.EasyFs.Layout.Clear.{get_elem?-in}
use r_core_tutorial_v3_arm.EasyFs.Layout.Increase.Append.{get_elem?-bound}

-- `v` stands in the list from place `p` on.
abbrev pub IsPart : List ℕ → ℕ → List ℕ → Type 0
IsPart all p v = (i q x : ℕ) → q ≡ p + i → get_elem? v i ≡ some x → get_elem? all q ≡ some x

pub nothing-IsPart : (all : List ℕ) (p : ℕ) → IsPart all p []
nothing-IsPart all p i q x e f = absurd (grind (arith, f))

pub cons-IsPart :
    (all : List ℕ) (p x : ℕ) (v : List ℕ)
    → get_elem? all p ≡ some x
    → IsPart all (suc p) v
    → IsPart all p (x ∷ v)
cons-IsPart all p x v e h zero q y f g = ap (get_elem? all) same ∙ e ∙ g
  where
    same : q ≡ p
    same = omega (arith, f)
cons-IsPart all p x v e h (suc i) q y f g = h i q y (omega (arith, f)) g

pub append-IsPart :
    (all : List ℕ) (p : ℕ) (v w : List ℕ)
    → IsPart all p v
    → IsPart all (p + length v) w
    → IsPart all p (v ++ w)
append-IsPart all p [] w h k = λ i q x e f. k i q x (omega (arith, e)) f
append-IsPart all p (y ∷ v) w h k = cons-IsPart all p y (v ++ w) (h 0 p y (omega arith) refl) (
    append-IsPart all (suc p) v w (λ i q x e f. h (suc i) q x (omega (arith, e)) f)
      (λ i q x e f. k i q x (omega (arith, e)) f))

pub IsPart-whole : (all v : List ℕ) → IsPart all 0 v → length v ≡ length all → v ≡ all
IsPart-whole [] [] h l = refl
IsPart-whole [] (x ∷ v) h l = absurd (omega (arith, l))
IsPart-whole (y ∷ all) [] h l = absurd (omega (arith, l))
IsPart-whole (y ∷ all) (x ∷ v) h l =
    ap (λ z. z ∷ v) (value x y (h 0 0 x (omega arith) refl))
    ∙ ap (◌∷◌ y) (
        IsPart-whole all v (λ i q z e f. h (suc i) (suc q) z (omega (arith, e)) f)
          (omega (arith, l)))
  where
    value : (x y : ℕ) → some y ≡ some x → x ≡ y
    value x y e = sym (ap (λ (o : Option ℕ). elim o [ none ↦ y | some z ↦ z ]) e)

pub unwrap-some : (o : Option ℕ) (x : ℕ) → unwrap o ≡ done x → o ≡ some x
unwrap-some none x e = absurd (grind (arith, e))
unwrap-some (some y) x e = ap some (done-injective e)

-- Words that are as many as the list has from `p` on, where they agree.
pub agree-IsPart :
    (words all : List ℕ) (p n : ℕ)
    → p + n ≤ length all
    → length words ≤ n
    → ((i x : ℕ) → i < n → get_elem? all (p + i) ≡ some x → get_elem? words i ≡ some x)
    → IsPart all p words
agree-IsPart words all p n fits l h i q x e f =
    let bound = get_elem?-bound words i x f in
    let (y, g) = get_elem?-in all (p + i) (omega (arith, bound, l, fits)) in
    ap (get_elem? all) e ∙ g ∙ sym (h i y (omega (arith, bound, l)) g) ∙ f

pub push_entries-IsPart :
    (n c : ℕ) (words all : List ℕ) (p : ℕ)
    → p + n ≤ length all
    → ((i x : ℕ) → i < n → get_elem? all (p + i) ≡ some x → get_elem? words (c + i) ≡ some x)
    → (v : List ℕ) × (push_entries n c words ≡ done v) × IsPart all p v × (length v ≡ n)
push_entries-IsPart zero c words all p fits h = ([], refl, nothing-IsPart all p, refl)
push_entries-IsPart (suc n) c words all p fits h =
    let (x, e) = get_elem?-in all p (omega (arith, fits)) in
    let at : get_elem? words c ≡ some x =
      ap (get_elem? words) (omega arith)
      ∙ h 0 x (omega arith) (ap (get_elem? all) (omega arith) ∙ e) in
    let (v, f, k, l) =
      push_entries-IsPart n (suc c) words all (suc p) (omega (arith, fits)) (λ i y b g.
        ap (get_elem? words) (omega arith)
        ∙ h (suc i) y (omega (arith, b)) (ap (get_elem? all) (omega arith) ∙ g)) in
    (x ∷ v, rw (at, f) refl, cons-IsPart all p x v e k, ap suc l)

pub get_elem?-take : (n i : ℕ) (xs : List ℕ) → i < n → get_elem? (take n xs) i ≡ get_elem? xs i
get_elem?-take zero i xs h = absurd (omega (arith, h))
get_elem?-take (suc n) i [] h = refl
get_elem?-take (suc n) zero (x ∷ xs) h = refl
get_elem?-take (suc n) (suc i) (x ∷ xs) h = get_elem?-take n i xs (omega (arith, h))
