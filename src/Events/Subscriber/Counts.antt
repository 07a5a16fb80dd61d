-- ===== src/Events/Subscriber/Counts.antt =====
-- What a dictionary of counts keeps when it is written and pruned (subscriber.py).
use architect.Common.{
  drop, ℕ, zero, suc, ◌-◌, ◌/◌, ◌≤◌, ◌≡◌, sym, subst, [], ◌∷◌, All, length, arith, Bool-cases, inl,
  inr, ltb,
}
use architect.Common.Dict.{Dict, insert, erase, lookup}
use architect.Common.Text.{Text, text_beq, text_eq, text_beq_iff}
use architect.Events.Subscriber.{prune, max_retry_tracking, or_zero}

pub All-weaken :
    (P Q : Text × ℕ → Type 0) (d : Dict Text ℕ) → ((e : Text × ℕ) → P e → Q e) → All P d → All Q d
All-weaken P Q [] f h = tt
All-weaken P Q (e ∷ d) f h = (f e h.0, All-weaken P Q d f h.1)

pub All-drop : (P : Text × ℕ → Type 0) (n : ℕ) (d : Dict Text ℕ) → All P d → All P (drop n d)
All-drop P zero d h = h
All-drop P (suc n) [] h = tt
All-drop P (suc n) (e ∷ d) h = All-drop P n d h.1

pub All-insert :
    (P : Text × ℕ → Type 0) (k : Text) (n : ℕ) (d : Dict Text ℕ)
    → P (k, n)
    → All P d
    → All P (insert k n d)
All-insert P k n [] p h = (p, tt)
All-insert P k n ((j, m) ∷ d) p h = elim (Bool-cases (text_beq k j)) [
  | inl e ↦ rw e (subst (λ i. P (i, n)) ((text_beq_iff k j).0 e) p, h.1)
  | inr e ↦ rw e (h.0, All-insert P k n d p h.1)
]

pub All-erase : (P : Text × ℕ → Type 0) (k : Text) (d : Dict Text ℕ) → All P d → All P (erase k d)
All-erase P k [] h = tt
All-erase P k ((j, m) ∷ d) h = elim (Bool-cases (text_beq k j)) [
  | inl e ↦ rw e h.1
  | inr e ↦ rw e (h.0, All-erase P k d h.1)
]

pub lookup-All :
    (f : Text → ℕ) (k : Text) (d : Dict Text ℕ)
    → All (λ (j, n). n ≤ f j) d
    → or_zero (lookup k d) ≤ f k
lookup-All f k [] h = omega arith
lookup-All f k ((j, m) ∷ d) h = elim (Bool-cases (text_beq k j)) [
  | inl e ↦ rw e (subst (λ i. m ≤ f i) (sym ((text_beq_iff k j).0 e)) h.0)
  | inr e ↦ rw e (lookup-All f k d h.1)
]

pub length-insert : (k : Text) (n : ℕ) (d : Dict Text ℕ) → length (insert k n d) ≤ suc (length d)
length-insert k n [] = omega arith
length-insert k n ((j, m) ∷ d) = ground (arith, length-insert k n d)

pub length-erase : (k : Text) (d : Dict Text ℕ) → length (erase k d) ≤ length d
length-erase k [] = omega arith
length-erase k ((j, m) ∷ d) = ground (arith, length-erase k d)

pub length-drop : (n : ℕ) (d : Dict Text ℕ) → length (drop n d) ≡ length d - n
length-drop zero d = omega arith
length-drop (suc n) [] = omega arith
length-drop (suc n) (e ∷ d) = omega (arith, length-drop n d)

pub All-prune : (P : Text × ℕ → Type 0) (d : Dict Text ℕ) → All P d → All P (prune d)
unfolding prune
All-prune P d h = elim (Bool-cases (ltb max_retry_tracking (length d))) [
  | inl e ↦ rw e (All-drop P (length d / 2) d h)
  | inr e ↦ rw e h
]

pub length-prune :
    (d : Dict Text ℕ) → length d ≤ suc max_retry_tracking → length (prune d) ≤ max_retry_tracking
unfolding prune
length-prune d h = elim (Bool-cases (ltb max_retry_tracking (length d))) [
  | inl e ↦ rw e (omega (arith, length-drop (length d / 2) d, h))
  | inr e ↦ rw e (ground (arith, e))
]
