-- ===== src/Rest/Retry.antt =====
-- check_and_retry of rec/rest/nodetypes/broker.py, which wraps every method of BrokerProxy. The world
-- is a parameter, with whether the proxy has a broker in it, the call of the method, where none is
-- None, and the sleep between two attempts.
use ma_sinafadavi_claude.Prelude.{
  ◌∙◌, ◌≡◌, ◌+◌, if◌then◌else◌, ℕ, zero, suc, ap, Bool, true, false, Option, none, some, arith,
  refl,
}

module _ {W R : Type 0} (has_broker : W → Bool) (func : W → Option R × W) (sleep : W → W) where
  -- an attempt that found a broker: its result, or the next attempts
  unfoldable pub unless_none : Option R × W → (W → Option R × W) → Option R × W
  unless_none (some r, w) rest = (some r, w)
  unless_none (none, w) rest = rest (sleep w)

  -- the loop of check_and_retry, for the attempts that are left
  unfoldable pub check_and_retry : ℕ → W → Option R × W
  unfolding unless_none
  check_and_retry zero w = (none, w)
  check_and_retry (suc times) w =
      if has_broker w
      then unless_none (func w) (check_and_retry times)
      else check_and_retry times (sleep w)

  -- the world after a number of sleeps
  unfoldable pub slept : ℕ → W → W
  slept zero w = w
  slept (suc k) w = slept k (sleep w)

  abbrev pub NoBroker : ℕ → W → Type 0
  NoBroker zero w = Unit
  NoBroker (suc k) w = (has_broker w ≡ false) × NoBroker k (sleep w)

  called :
      (times : ℕ) (w : W) (r : R)
      → has_broker w ≡ true
      → (func w).0 ≡ some r
      → check_and_retry (suc times) w ≡ (some r, (func w).1)
  unfolding check_and_retry unless_none
  called times w r h e = rw h (answered (func w) e)
    where
      answered :
          (p : Option R × W) → p.0 ≡ some r → unless_none p (check_and_retry times) ≡ (some r, p.1)
      answered (some q, v) e = ap (λ o. (o, v)) e
      answered (none, v) e = absurd (ground arith)

  skipped :
      (times : ℕ) (w : W)
      → has_broker w ≡ false
      → check_and_retry (suc times) w ≡ check_and_retry times (sleep w)
  unfolding check_and_retry
  skipped times w h = rw h refl

  -- If the proxy has no broker for some attempts, fewer than it makes, and then has one, then the
  -- method is called exactly once, at that time, provided that it returns something else than None:
  -- also a result that reports a failure, like False, -1 or an empty list, is returned at once.
  pub check_and_retry-once :
      (k more : ℕ) (w : W) (r : R)
      → NoBroker k w
      → has_broker (slept k w) ≡ true
      → (func (slept k w)).0 ≡ some r
      → check_and_retry (k + suc more) w ≡ (some r, (func (slept k w)).1)
  unfolding slept
  check_and_retry-once zero more w r n h e =
      let f : 0 + suc more ≡ suc more = omega arith in
      ap (λ times. check_and_retry times w) f ∙ called more w r h e
  check_and_retry-once (suc k) more w r n h e =
      let f : suc k + suc more ≡ suc (k + suc more) = omega arith in
      ap (λ times. check_and_retry times w) f
      ∙ (skipped (k + suc more) w n.0 ∙ check_and_retry-once k more (sleep w) r n.1 h e)
