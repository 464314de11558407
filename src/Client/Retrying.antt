-- ===== src/Client/Retrying.antt =====
-- Which attempt the answer of a retried call comes from.
use rlstatsapi.Prelude.{
  ℕ, zero, suc, ◌≤◌, ◌<◌, ◌≡◌, ◌≢◌, ◌⊎◌, refl, ap, inl, inr, false, ◌==◌, arith, ◌-◌,
}
use rlstatsapi.Float.{FloatText}
use rlstatsapi.Error.{RlStatsError}
use rlstatsapi.Config.Run.{FileSystem, Answer, panics, fails, returns, Run}
use rlstatsapi.Config.Prepare.{ClientOptions}
use rlstatsapi.Client.Connection.{Network, try_again, retry, connect, connect_with_retry}

module _ {S A : Type 0} (sleep : S → S) (m : Run S A) where
  -- The world before an attempt, numbered from 0, when all before it have failed.
  abbrev pub before : ℕ → S → S
  before zero s = s
  before (suc i) s = before i (sleep (m s).0)

  abbrev pub HasFailed : ℕ → S → Type 0
  HasFailed i s = (e : RlStatsError) × ((m (before i s)).1 ≡ fails e)

  -- The result is that of some attempt, all attempts before it have failed, and it is the last one
  -- that is left or has not failed.
  pub record ComesFrom (left : ℕ) (s : S) (result : S × Answer A) : Type 0 where
    pub attempt : ℕ
    pub in_time : attempt ≤ left
    pub same : result ≡ m (before attempt s)
    pub failed_before : (i : ℕ) → i < attempt → HasFailed i s
    pub final : (attempt ≡ left) ⊎ ((e : RlStatsError) → result.1 ≢ fails e)

  answer-cases :
      (a : Answer A) → ((e : RlStatsError) × (a ≡ fails e)) ⊎ ((e : RlStatsError) → a ≢ fails e)
  answer-cases panics = inr (λ e h. cc)
  answer-cases (fails e) = inl (e, refl)
  answer-cases (returns a) = inr (λ e h. cc)

  stops :
      (a : Answer A) (left : ℕ) (now later : S × Answer A)
      → ((e : RlStatsError) → a ≢ fails e)
      → try_again a left now later ≡ now
  stops panics left now later h = refl
  stops (fails e) left now later h = absurd (h e refl)
  stops (returns a) left now later h = refl

  gives_up :
      (a : Answer A) (now later : S × Answer A) (e : RlStatsError)
      → a ≡ fails e
      → try_again a 0 now later ≡ now
  gives_up a now later e h = rw h

  goes_on :
      (a : Answer A) (left : ℕ) (now later : S × Answer A) (e : RlStatsError)
      → a ≡ fails e
      → try_again a (suc left) now later ≡ later
  goes_on a left now later e h = rw h

  one_more :
      (left : ℕ) (s : S) (e : RlStatsError)
      → (m s).1 ≡ fails e
      → ComesFrom left (sleep (m s).0) (retry sleep m (suc left) (sleep (m s).0))
      → ComesFrom (suc left) s (retry sleep m (suc left) (sleep (m s).0))
  one_more left s e failed c = record {
    attempt = suc c.attempt;
    in_time = omega (arith, c.in_time);
    same = c.same;
    failed_before = earlier;
    final = elim c.final [ inl last ↦ inl (ap suc last) | inr well ↦ inr well ];
  }
    where
      earlier : (i : ℕ) → i < suc c.attempt → HasFailed i s
      earlier zero h = (e, failed)
      earlier (suc i) h = c.failed_before i (omega arith)

  now_well :
      (left : ℕ) (s : S) (later : S × Answer A)
      → ((e : RlStatsError) → (m s).1 ≢ fails e)
      → ComesFrom left s (try_again (m s).1 left (m s) later)
  now_well left s later well = rw (stops (m s).1 left (m s) later well) (record {
    attempt = 0;
    in_time = omega arith;
    same = refl;
    failed_before = λ i h. absurd (omega arith);
    final = inr well;
  })

  pub retry-ComesFrom : (left : ℕ) (s : S) → ComesFrom left s (retry sleep m (suc left) s)
  unfolding retry
  retry-ComesFrom zero s = elim (answer-cases (m s).1) [
    | inr well ↦ now_well zero s _ well
    | inl (e, failed) ↦ rw (gives_up (m s).1 (m s) (sleep (m s).0, panics) e failed) (record {
      attempt = 0;
      in_time = omega arith;
      same = refl;
      failed_before = λ i h. absurd (omega arith);
      final = inl refl;
    })
  ]
  retry-ComesFrom (suc left) s = elim (answer-cases (m s).1) [
    | inr well ↦ now_well (suc left) s _ well
    | inl (e, failed) ↦
        rw (goes_on (m s).1 left (m s) (retry sleep m (suc left) (sleep (m s).0)) e failed)
          (one_more left s e failed (retry-ComesFrom left (sleep (m s).0)))
  ]

module _ {S : Type 0} ⦃net : Network S⦄ ⦃fs : FileSystem S⦄ ⦃floats : FloatText⦄ where
  -- Connecting with retries always comes to the answer of one of its attempts, of which there are
  -- as many as asked for and at least one: all attempts before it have failed, and it is the last
  -- one or has not failed.
  pub connect_with_retry-ComesFrom :
      (options : ClientOptions) (max_attempts : ℕ) (s : S)
      → ComesFrom net.sleep
          (connect options)
          (max_attempts - 1)
          s
          (connect_with_retry options max_attempts s)
  unfolding connect_with_retry
  connect_with_retry-ComesFrom options zero s = retry-ComesFrom net.sleep (connect options) 0 s
  connect_with_retry-ComesFrom options (suc n) s =
      let e : (suc n == 0) ≡ false = ground arith in
      let e2 : suc n - 1 ≡ n = omega arith in
      rw (e, e2) (retry-ComesFrom net.sleep (connect options) n s)
