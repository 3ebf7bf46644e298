-- ===== src/Timer/Earliest.antt =====
-- What `peek` takes out of the timers.
use r_core_tutorial_v3_arm.Base.{
  ℕ, suc, ◌+◌, ◌^◌, ◌≤◌, ◌≡◌, refl, ap, inl, inr, Bool, true, false, not, ◌&&◌, some, List, [], ◌∷◌,
  arith, ltb, ◌==◌, if◌then◌else◌, Bool-cases, length, done,
}
use r_core_tutorial_v3_arm.Timer.{TimerCondVar, key, greater, peek}

abbrev pub one : Bool → ℕ
one b = if b then 1 else 0

abbrev pub count : (TimerCondVar → Bool) → List TimerCondVar → ℕ
count f [] = 0
count f (t ∷ ts) = one (f t) + count f ts

pub count_mono :
    (f g : TimerCondVar → Bool) (ts : List TimerCondVar)
    → ((t : TimerCondVar) → f t ≡ true → g t ≡ true)
    → count f ts ≤ count g ts
count_mono f g [] h = omega arith
count_mono f g (t ∷ ts) h = elim (Bool-cases (f t)) [
  | inl y ↦ ground (arith, y, h t y, count_mono f g ts h)
  | inr n ↦ ground (arith, n, count_mono f g ts h)
]

pub count-split :
    (f p : TimerCondVar → Bool) (ts : List TimerCondVar)
    → count f ts ≡ count (λ t. f t && p t) ts + count (λ t. f t && not (p t)) ts
count-split f p [] = omega arith
count-split f p (t ∷ ts) = ground (arith, count-split f p ts)

-- The order overflows at this expiry.
abbrev pub overflows : TimerCondVar → Bool
overflows t = t.expire_ms == 2 ^ 63

-- A timer before all others in the order, and the others.
pub record IsPeeked (ts : List TimerCondVar) (t : TimerCondVar) (rest : List TimerCondVar)
    : Type 0 where
  pub parts : (f : TimerCondVar → Bool) → count f ts ≡ one (f t) + count f rest
  pub first : count (λ u. ltb (key u) (key t)) ts ≡ 0
  pub shorter : length ts ≡ suc (length rest)

pub peek-IsPeeked :
    (t : TimerCondVar) (ts : List TimerCondVar)
    → count overflows (t ∷ ts) ≡ 0
    → (u : TimerCondVar) × (rest : List TimerCondVar) × (peek (t ∷ ts) ≡ done (some (u, rest)))
      × IsPeeked (t ∷ ts) u rest
unfolding peek greater
peek-IsPeeked t [] h =
    (t, [], refl, record { parts = λ f. refl; first = ground arith; shorter = refl })
peek-IsPeeked t (v ∷ vs) h =
    let (u, rest, e, q) = peek-IsPeeked v vs (omega (arith, h)) in
    elim (Bool-cases (ltb (key u) (key t))) [
      | inl y ↦ (
        u,
        t ∷ rest,
        rw (e, compared u rest q) (rw y),
        record {
          parts = λ f. omega (arith, q.parts f);
          first = ground (arith, y, q.first);
          shorter = ap suc q.shorter;
        },
      )
      | inr n ↦ (
        t,
        v ∷ vs,
        rw (e, compared u rest q) (rw n),
        record {
          parts = λ f. refl;
          first =
              later
                (count_mono (λ w. ltb (key w) (key t)) (λ w. ltb (key w) (key u)) (v ∷ vs)
                  (λ w b. sooner w u b n))
                q.first;
          shorter = refl;
        },
      )
    ]
  where
    compared :
        (u : TimerCondVar) (rest : List TimerCondVar)
        → IsPeeked (v ∷ vs) u rest
        → greater u t ≡ done (ltb (key u) (key t))
    compared u rest q = ground (arith, h, q.parts overflows)

    sooner :
        (w u : TimerCondVar)
        → ltb (key w) (key t) ≡ true
        → ltb (key u) (key t) ≡ false
        → ltb (key w) (key u) ≡ true
    sooner w u b n = ground (arith, b, n)

    later : {a b : ℕ} → a ≤ b → b ≡ 0 → one (ltb (key t) (key t)) + a ≡ 0
    later h z = ground (arith, h, z)
