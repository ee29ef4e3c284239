-- ===== src/Rest/ExecutorNode/Registered.antt =====
-- When an executor gives up looking for a broker.
use ma_sinafadavi_claude.Prelude.{
  ◌≡◌, ◌+◌, ℕ, zero, suc, Bool, Option, none, some, Str, ◌∙◌, ◌==◌, ◌<◌, if◌then◌else◌, refl, ap,
  arith,
}
use ma_sinafadavi_claude.Rest.ExecutorNode.{becomes_broker, register_with_broker, on_search}

nothing_found : {R : Type 0} (o : Option Str) (r : R) (f : Str → R) → o ≡ none → on_search o r f ≡ r
unfolding on_search
nothing_found o r f h = rw h refl

last_wait : {R : Type 0} (waited : ℕ) (r s : R) → waited ≡ 10 → (if waited == 10 then r else s) ≡ r
last_wait waited r s h = rw h refl

one_wait : {R : Type 0} (waited : ℕ) (r s : R) → waited < 10 → (if waited == 10 then r else s) ≡ s
one_wait waited r s h = ground (arith, h)

module _ {W : Type 0} (select : W → Option Str × W) (register : Str → W → Bool × W)
    (pause_long pause_short : W → W) where
  -- the world after rounds in which no broker is found
  unfoldable pub searched : ℕ → W → W
  searched zero w = (select w).1
  searched (suc k) w = searched k (pause_long (select w).1)

  abbrev pub NoneFound : ℕ → W → Type 0
  NoneFound zero w = (select w).0 ≡ none
  NoneFound (suc k) w = ((select w).0 ≡ none) × NoneFound k (pause_long (select w).1)

  give_up :
      (k waited more : ℕ) (w : W)
      → waited + k ≡ 10
      → NoneFound k w
      → register_with_broker select register pause_long pause_short (suc (k + more)) waited w
        ≡ some (becomes_broker, searched k w)
  unfolding register_with_broker searched
  give_up zero waited more w h n =
      nothing_found (select w).0 _ _ n ∙ last_wait waited _ _ (omega (arith, h))
  give_up (suc k) waited more w h n =
      let e : suc k + more ≡ suc (k + more) = omega arith in
      nothing_found (select w).0 _ _ n.0
      ∙ (one_wait waited _ _ (omega (arith, h))
          ∙ (ap
                (λ fuel.
                  register_with_broker select register pause_long pause_short fuel (waited + 1)
                    (pause_long (select w).1))
                e
              ∙ give_up k (waited + 1) more (pause_long (select w).1) (omega (arith, h)) n.1))

  -- An executor that finds no broker in eleven searches becomes a broker itself after the eleventh,
  -- with ten sleeps between them, whatever happens to the brokers meanwhile.
  pub register_with_broker-none :
      (more : ℕ) (w : W)
      → NoneFound 10 w
      → register_with_broker select register pause_long pause_short (11 + more) 0 w
        ≡ some (becomes_broker, searched 10 w)
  register_with_broker-none more w n =
      let e : 11 + more ≡ suc (10 + more) = omega arith in
      ap (λ fuel. register_with_broker select register pause_long pause_short fuel 0 w) e
      ∙ give_up 10 0 more w (omega arith) n
