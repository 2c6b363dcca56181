-- ===== src/Api/Limiter.antt =====
-- scheduler/internal/api/rate_limiter.go and the routes of job_handler.go. The token bucket,
-- rate.Limiter, is a parameter: what it answers at a time, and its state after that. A request
-- takes its limiter and asks it in one step.
use Prim.Native.String.{String}
use text.Mathlib.Text.{◌==◌ as str_eq}
use text.Mathlib.TextEquality.{eq_iff}
use text.Mathlib.TextPositions.{eq_refl}
use mathlib.Core.Path.{ap₂}
use go_flash_job.Base.{
  ℕ, ◌≡◌, refl, sym, ap, ◌∙◌, inl, inr, Bool, true, false, Option, none, some, List, [], ◌∷◌,
  if◌then◌else◌, Bool-cases, Option-cases, ℤ,
}

module _ (Limiter : Type 0) (new_limiter : ℕ → ℕ → Limiter)
    (allow : ℤ → Limiter → Bool × Limiter) where
  pub record RateLimiter : Type 0 where
    pub limiters : String → Option Limiter
    pub rps : ℕ
    pub burst : ℕ

  abbrev pub new_rate_limiter : ℕ → ℕ → RateLimiter
  new_rate_limiter rps burst = record { limiters = λ ip. none; rps = rps; burst = burst }

  abbrev pub put_limiter : String → Limiter → RateLimiter → RateLimiter
  put_limiter ip l rl = record rl { limiters = λ j. if str_eq ip j then some l else rl.limiters j }

  -- getLimiter
  unfoldable pub get_limiter : String → RateLimiter → Limiter × RateLimiter
  get_limiter ip rl = elim (rl.limiters ip) [
    | some l ↦ (l, rl)
    | none ↦ let l = new_limiter rl.rps rl.burst in (l, put_limiter ip l rl)
  ]

  -- Middleware: whether the request goes on to its handler; otherwise it gets a 429.
  unfoldable pub middleware : ℤ → String → RateLimiter → Bool × RateLimiter
  unfolding get_limiter
  middleware now ip rl =
      let (l, rl') = get_limiter ip rl in let (ok, l') = allow now l in (ok, put_limiter ip l' rl')

  -- A round of cleanupLoop
  abbrev pub cleanup : RateLimiter → RateLimiter
  cleanup rl = record rl { limiters = λ ip. none }

  pub data Arrival : Type 0 where
    request : ℤ → String → Arrival
    cleans : Arrival

  -- The answers to the requests, each with its address.
  unfoldable pub answers : List Arrival → RateLimiter → List (String × Bool)
  unfolding middleware
  answers [] rl = []
  answers (request now ip ∷ r) rl = let (ok, rl') = middleware now ip rl in (ip, ok) ∷ answers r rl'
  answers (cleans ∷ r) rl = answers r (cleanup rl)

  -- What concerns one address.
  unfoldable pub only_requests : String → List Arrival → List Arrival
  only_requests ip [] = []
  only_requests ip (request now j ∷ r) =
      if str_eq j ip then request now j ∷ only_requests ip r else only_requests ip r
  only_requests ip (cleans ∷ r) = cleans ∷ only_requests ip r

  unfoldable pub only_answers : String → List (String × Bool) → List (String × Bool)
  only_answers ip [] = []
  only_answers ip ((j, ok) ∷ r) =
      if str_eq j ip then (j, ok) ∷ only_answers ip r else only_answers ip r

  -- Two limiters that treat one address alike.
  abbrev IsSame : String → RateLimiter → RateLimiter → Type 0
  IsSame ip a b = (a.limiters ip ≡ b.limiters ip) × (a.rps ≡ b.rps) × (a.burst ≡ b.burst)

  get_limiter-same :
      (ip : String) (a b : RateLimiter)
      → IsSame ip a b
      → (get_limiter ip a).0 ≡ (get_limiter ip b).0
  unfolding get_limiter
  get_limiter-same ip a b (has, rps, burst) = elim (Option-cases (a.limiters ip)) [
    | inl e ↦ rw (get_limiter, e, sym has ∙ e, rps, burst) refl
    | inr (l, e) ↦ rw (get_limiter, e, sym has ∙ e) refl
  ]

  get_limiter-kept :
      (j : String) (a : RateLimiter)
      → ((get_limiter j a).1.rps ≡ a.rps)
        × ((get_limiter j a).1.burst ≡ a.burst)
        × ((ip : String) → str_eq j ip ≡ false → (get_limiter j a).1.limiters ip ≡ a.limiters ip)
  unfolding get_limiter
  get_limiter-kept j a = elim (Option-cases (a.limiters j)) [
    | inl e ↦ rw (get_limiter, e) (refl, refl, λ ip other. rw other refl)
    | inr (l, e) ↦ rw (get_limiter, e) (refl, refl, λ ip other. refl)
  ]

  middleware-IsSame :
      (now : ℤ) (ip : String) (a b : RateLimiter)
      → IsSame ip a b
      → ((middleware now ip a).0 ≡ (middleware now ip b).0)
        × IsSame ip (middleware now ip a).1 (middleware now ip b).1
  unfolding middleware
  middleware-IsSame now ip a b same =
      let e = get_limiter-same ip a b same in
      let (rps_a, burst_a, kept_a) = get_limiter-kept ip a in
      let (rps_b, burst_b, kept_b) = get_limiter-kept ip b in
      (
        ap (λ l. (allow now l).0) e,
        (
          rw (eq_refl ip) (ap (λ l. some (allow now l).1) e),
          rps_a ∙ same.1 ∙ sym rps_b,
          burst_a ∙ same.2 ∙ sym burst_b,
        ),
      )

  middleware-own :
      (now : ℤ) (j ip : String) (a b : RateLimiter)
      → j ≡ ip
      → IsSame ip a b
      → ((middleware now j a).0 ≡ (middleware now j b).0)
        × IsSame ip (middleware now j a).1 (middleware now j b).1
  middleware-own now j ip a b e same = rw e (middleware-IsSame now ip a b same)

  middleware-other :
      (now : ℤ) (j ip : String) (a b : RateLimiter)
      → str_eq j ip ≡ false
      → IsSame ip a b
      → IsSame ip (middleware now j a).1 b
  unfolding middleware
  middleware-other now j ip a b other same =
      let (rps, burst, kept) = get_limiter-kept j a in
      (rw other (kept ip other ∙ same.0), rps ∙ same.1, burst ∙ same.2)

  answers_apart :
      (ip : String) (es : List Arrival) (a b : RateLimiter)
      → IsSame ip a b
      → only_answers ip (answers es a) ≡ answers (only_requests ip es) b
  unfolding answers only_requests only_answers
  answers_apart ip [] a b same = refl
  answers_apart ip (cleans ∷ r) a b same =
      answers_apart ip r (cleanup a) (cleanup b) (refl, same.1, same.2)
  answers_apart ip (request now j ∷ r) a b same = elim (Bool-cases (str_eq j ip)) [
    | inl own ↦
        let (answer, after) = middleware-own now j ip a b ((eq_iff j ip).0 own) same in
        rw (only_requests, own)
          (ap₂ (λ k rest. (j, k) ∷ rest) answer
            (answers_apart ip r (middleware now j a).1 (middleware now j b).1 after))
    | inr other ↦
        rw (only_requests, other)
          (answers_apart ip r (middleware now j a).1 b (middleware-other now j ip a b other same))
  ]

  -- The limiter counts each address by itself: the answers that an address gets, in any sequence of
  -- requests and of clean-ups, are those that it gets when the requests of all the others are
  -- left out.
  pub answers-apart :
      (ip : String) (es : List Arrival) (rl : RateLimiter)
      → only_answers ip (answers es rl) ≡ answers (only_requests ip es) rl
  answers-apart ip es rl = answers_apart ip es rl rl (refl, refl, refl)

  -- The routes of RegisterRoutes.
  pub data Route : Type 0 where
    submit_route batch_route dead_route status_route : Route

  -- The limiters of the two routes that have one.
  pub record Limits : Type 0 where
    pub submit_limiter : RateLimiter
    pub batch_limiter : RateLimiter

  abbrev pub register_routes : Limits
  register_routes = record {
    submit_limiter = new_rate_limiter 100 200;
    batch_limiter = new_rate_limiter 2000 5000;
  }

  -- Whether a request of a route comes to its handler.
  unfoldable pub admit : Route → ℤ → String → Limits → Bool × Limits
  unfolding middleware
  admit submit_route now ip l =
      let (ok, rl) = middleware now ip l.submit_limiter in (ok, record l { submit_limiter = rl })
  admit batch_route now ip l =
      let (ok, rl) = middleware now ip l.batch_limiter in (ok, record l { batch_limiter = rl })
  admit _ now ip l = (true, l)
