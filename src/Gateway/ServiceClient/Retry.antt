-- ===== src/Gateway/ServiceClient/Retry.antt =====
-- The attempts of `ServiceClient._request` (service_client.py).
use architect.Common.{
  ℕ, zero, suc, ◌≤◌, ◌<◌, ◌≡◌, refl, ◌∙◌, subst, Bool, true, false, not, inl, inr, List, [], ◌∷◌,
  ◌++◌, ◌==◌, Option, none, some, arith, ltb, Bool-cases,
}
use architect.Common.Text.{Text}
use architect.Ledger.Json.{Object}
use architect.Common.Result.{Result, ok, err}
use architect.Gateway.ServiceClient.{
  Reply, json, connect_error, status_error, other_error, Error, connect_failed, status_failed,
  other_failed, Command, requested, slept, M, backoff, on_reply, raise_last, World, base_url,
  timeout_for_service, attempt_all, request,
}

-- Replies after which the client tries again.
abbrev pub is_transient : Reply → Bool
is_transient (json body) = false
is_transient (connect_error e) = true
is_transient (status_error code) = not (ltb code 500)
is_transient (other_error e) = false

-- What a caller makes of a reply that is the last.
abbrev pub conclusion : Reply → Result Error Text
conclusion (json body) = ok body
conclusion (connect_error e) = err (connect_failed e)
conclusion (status_error code) = err (status_failed code)
conclusion (other_error e) = err (other_failed e)

-- The same request at every attempt up to `n`, with a wait between two.
unfoldable pub trace : Command → ℕ → List Command
trace c zero = c ∷ []
trace c (suc n) = c ∷ slept (backoff n) ∷ trace c n

conclusive :
    (attempt : ℕ) (r : Reply) (continue : Option Error → M) (s : List Command)
    → is_transient r ≡ false
    → on_reply attempt r continue s ≡ (conclusion r, s)
unfolding on_reply
conclusive attempt (json body) continue s final = refl
conclusive attempt (connect_error e) continue s final = ground (arith, final)
conclusive attempt (status_error code) continue s final = elim (Bool-cases (ltb code 500)) [
  | inl small ↦ rw small refl
  | inr large ↦ ground (arith, large, final)
]
conclusive attempt (other_error e) continue s final = refl

transient :
    (attempt : ℕ) (r : Reply) (continue : Option Error → M) (s : List Command)
    → is_transient r ≡ true
    → attempt < 2
    → (e : Error) × (on_reply attempt r continue s
        ≡ continue (some e) (slept (backoff attempt) ∷ s))
unfolding on_reply
transient attempt (json body) continue s again early = ground (arith, again)
transient attempt (connect_error e) continue s again early =
    let below : ltb attempt 2 ≡ true = ground arith in (connect_failed e, rw below refl)
transient attempt (status_error code) continue s again early =
    let large : ltb code 500 ≡ false = ground (arith, again) in
    let not_last : (attempt == 2) ≡ false = ground arith in
    (status_failed code, rw large (rw not_last refl))
transient attempt (other_error e) continue s again early = ground (arith, again)

-- The third attempt is the last.
third :
    (r : Reply) (continue : Option Error → M) (s : List Command)
    → ((last_exc : Option Error) (t : List Command) → continue last_exc t ≡ raise_last last_exc t)
    → on_reply 2 r continue s ≡ (conclusion r, s)
unfolding on_reply
third (json body) continue s ends = refl
third (connect_error e) continue s ends = ends (some (connect_failed e)) s
third (status_error code) continue s ends = elim (Bool-cases (ltb code 500)) [
  | inl small ↦ rw small refl
  | inr large ↦ rw large refl
]
third (other_error e) continue s ends = refl

-- The attempt `n` concludes: all before it met a reply that is transient.
pub record IsFirst (respond : ℕ → Reply) (n : ℕ) : Type 0 where
  pub at_most_three : n ≤ 2
  pub is_conclusive : n < 2 → is_transient (respond n) ≡ false
  pub all_transient : (i : ℕ) → i < n → is_transient (respond i) ≡ true

module _ (w : World) where
  attempt_all-conclusion :
      (c : Command) (last_exc : Option Error) (s : List Command)
      → attempt_all w c (2 ∷ []) last_exc s ≡ (conclusion (w.respond 2), c ∷ s)
  unfolding attempt_all
  attempt_all-conclusion c last_exc s =
      third (w.respond 2) (attempt_all w c []) (c ∷ s) (λ e t. refl)

  second-IsFirst :
      (c : Command) (last_exc : Option Error)
      → is_transient (w.respond 0) ≡ true
      → (n : ℕ) × IsFirst w.respond n
        × (attempt_all w c (1 ∷ 2 ∷ []) last_exc (slept (backoff 0) ∷ c ∷ [])
            ≡ (conclusion (w.respond n), trace c n))
  unfolding attempt_all trace
  second-IsFirst c last_exc again =
      let so_far = c ∷ slept (backoff 0) ∷ c ∷ [] in
      elim (Bool-cases (is_transient (w.respond 1))) [
        | inl again_1 ↦
            let (e, step) =
              transient 1 (w.respond 1) (attempt_all w c (2 ∷ [])) so_far again_1 (omega arith) in
            (
              2,
              record {
                at_most_three = omega arith;
                is_conclusive = λ below. absurd (omega (arith, below));
                all_transient = λ i below. before_two i below again_1;
              },
              step ∙ attempt_all-conclusion c (some e) (slept (backoff 1) ∷ so_far),
            )
        | inr final ↦ (
          1,
          record {
            at_most_three = omega arith;
            is_conclusive = λ below. final;
            all_transient =
                λ i below. subst (λ j. is_transient (w.respond j) ≡ true) (the_first i below) again;
          },
          conclusive 1 (w.respond 1) (attempt_all w c (2 ∷ [])) so_far final,
        )
      ]
    where
      the_first : (i : ℕ) → i < 1 → 0 ≡ i
      the_first i below = omega (arith, below)

      before_two :
          (i : ℕ) → i < 2 → is_transient (w.respond 1) ≡ true → is_transient (w.respond i) ≡ true
      before_two zero below again_1 = again
      before_two (suc zero) below again_1 = again_1
      before_two (suc (suc i)) below again_1 = absurd (omega (arith, below))

  attempt_all-IsFirst :
      (c : Command)
      → (n : ℕ) × IsFirst w.respond n
        × (attempt_all w c (0 ∷ 1 ∷ 2 ∷ []) none [] ≡ (conclusion (w.respond n), trace c n))
  unfolding attempt_all trace
  attempt_all-IsFirst c = elim (Bool-cases (is_transient (w.respond 0))) [
    | inl again ↦
        let (e, step) =
          transient 0 (w.respond 0) (attempt_all w c (1 ∷ 2 ∷ [])) (c ∷ []) again (omega arith) in
        let (n, first, later) = second-IsFirst c (some e) again in (n, first, step ∙ later)
    | inr final ↦ (
      0,
      record {
        at_most_three = omega arith;
        is_conclusive = λ below. final;
        all_transient = λ i below. absurd (omega (arith, below));
      },
      conclusive 0 (w.respond 0) (attempt_all w c (1 ∷ 2 ∷ [])) (c ∷ []) final,
    )
  ]

  -- A client that is started, asked for a service that it knows, sends the same request, with its method, address, timeout and keyword arguments, at most three
  -- times, and returns the body or raises the exception of the first reply that is neither an error
  -- of connection nor a status of 500 or more, or of the third; it waits half a second after the
  -- first attempt and a second after the second, and not after the last.
  pub request-IsFirst :
      (service method path url : Text) (kwargs : Object)
      → base_url w service ≡ ok url
      → (n : ℕ) × IsFirst w.respond n
        × (request w true service method path kwargs [] ≡ (
          conclusion (w.respond n),
          trace (requested method (url ++ path) (timeout_for_service service) kwargs) n,
        ))
  unfolding request
  request-IsFirst service method path url kwargs known =
      rw known
        (attempt_all-IsFirst (requested method (url ++ path) (timeout_for_service service) kwargs))
