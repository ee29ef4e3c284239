-- ===== src/Rest/ExecutorBroker/Executors.antt =====
-- Which executors the broker keeps, and which it chooses.
use ma_sinafadavi_claude.Prelude.{
  ◌%◌, length, ℕ, zero, suc, ◌-◌, ◌*◌, true, false, none, some, List, [], ◌∷◌, Str, member, keep,
  lookup, remove, values, lookup-remove, ltb, str_eq_iff, str_eq_self, if◌then◌else◌, ◌≡◌, refl,
  arith, Bool-cases, inl, inr,
}
use ma_sinafadavi_claude.Rest.Model.{Capabilities, is_capable}
use ma_sinafadavi_claude.Rest.ExecutorBroker.{
  Executor, ExecutorBroker, capable_executor, stale_ids, remove_all, capable, element,
}

-- Every executor stands under its own id, and no id twice.
abbrev pub AreKeyed : List (Str × Executor) → Type 0
AreKeyed [] = Unit
AreKeyed ((k, e) ∷ es) = (k ≡ e.id) × (lookup k es ≡ none) × AreKeyed es

lookup-remove_all :
    (ks : List Str) (k : Str) (es : List (Str × Executor))
    → lookup k (remove_all ks es) ≡ (if member k ks then none else lookup k es)
unfolding remove_all member
lookup-remove_all [] k es = refl
lookup-remove_all (j ∷ ks) k es =
    ground (arith, lookup-remove_all ks k (remove j es), lookup-remove j k es)

AreKeyed-remove : (k : Str) (es : List (Str × Executor)) → AreKeyed es → AreKeyed (remove k es)
unfolding remove
AreKeyed-remove k [] h = tt
AreKeyed-remove k ((j, e) ∷ es) h =
    ground (arith, h.0, h.1, lookup-remove k j es, AreKeyed-remove k es h.2)

AreKeyed-remove_all :
    (ks : List Str) (es : List (Str × Executor)) → AreKeyed es → AreKeyed (remove_all ks es)
unfolding remove_all
AreKeyed-remove_all [] es h = h
AreKeyed-remove_all (k ∷ ks) es h = AreKeyed-remove_all ks (remove k es) (AreKeyed-remove k es h)

-- An executor that is stale is on the list of those to go.
stale_listed :
    (second now : ℕ) (k : Str) (e : Executor) (es : List (Str × Executor))
    → AreKeyed es
    → lookup k es ≡ some e
    → ltb (130 * second) (now - e.last_update) ≡ true
    → member k (stale_ids second now es) ≡ true
unfolding stale_ids member lookup
stale_listed second now k e [] h l s = absurd (ground arith)
stale_listed second now k e ((j, d) ∷ es) h l s =
    ground (arith, h.0, str_eq_iff j k, str_eq_iff d.id k, stale_listed second now k e es h.2)

-- every executor of the list has the property
abbrev AllOf : (Executor → Type 0) → List Executor → Type 0
AllOf Q [] = Unit
AllOf Q (e ∷ es) = Q e × AllOf Q es

element_has :
    (Q : Executor → Type 0) (n : ℕ) (es : List Executor) (e : Executor)
    → AllOf Q es
    → element n es ≡ some e
    → Q e
unfolding element
element_has Q n [] e h p = absurd (cc)
element_has Q zero (d ∷ es) e h p = ground (arith, h.0)
element_has Q (suc n) (d ∷ es) e h p = element_has Q n es e h.1 p

-- what the broker promises of an executor that it chooses
abbrev pub IsSuited : ℕ → ℕ → Capabilities → List (Str × Executor) → Executor → Type 0
IsSuited second now caps es e =
    (lookup e.id es ≡ some e)
    × (ltb (130 * second) (now - e.last_update) ≡ false)
    × (is_capable e.cur_caps caps ≡ true)

module _ (second now : ℕ) (caps : Capabilities) (all : List (Str × Executor)) where
  -- every entry of the list is an entry of `all` that is not stale
  abbrev AreFresh : List (Str × Executor) → Type 0
  AreFresh [] = Unit
  AreFresh ((k, e) ∷ es) =
      (k ≡ e.id)
      × (lookup k all ≡ some e)
      × (ltb (130 * second) (now - e.last_update) ≡ false)
      × AreFresh es

  capable-IsSuited :
      (es : List (Str × Executor))
      → AreFresh es
      → AllOf (IsSuited second now caps all) (capable caps (values es))
  unfolding capable values keep
  capable-IsSuited [] h = tt
  capable-IsSuited ((k, e) ∷ es) h = elim (Bool-cases (is_capable e.cur_caps caps)) [
    | inl fits ↦ rw fits ((rw h.0 at h.1, h.2, fits), capable-IsSuited es h.3)
    | inr unfit ↦ rw unfit (capable-IsSuited es h.3)
  ]

  lookup_behind :
      (j k : Str) (e d : Executor) (es : List (Str × Executor))
      → lookup k es ≡ none
      → lookup j es ≡ some d
      → lookup j ((k, e) ∷ es) ≡ some d
  unfolding lookup
  lookup_behind j k e d es h l = ground (arith, str_eq_iff k j)

  are_fresh :
      (es : List (Str × Executor))
      → AreKeyed es
      → ((k : Str) (e : Executor)
          → lookup k es ≡ some e
          → (lookup k all ≡ some e) × (ltb (130 * second) (now - e.last_update) ≡ false))
      → AreFresh es
  are_fresh [] h l = tt
  are_fresh ((k, e) ∷ es) h l =
      let (here, fresh) = l k e (unfold lookup in rw (str_eq_self k)) in
      (h.0, here, fresh, are_fresh es h.2 (λ j d p. l j d (lookup_behind j k e d es h.1 p)))

  kept_are_fresh :
      AreKeyed all
      → (k : Str) (e : Executor) → lookup k (remove_all (stale_ids second now all) all) ≡ some e
      → (lookup k all ≡ some e) × (ltb (130 * second) (now - e.last_update) ≡ false)
  kept_are_fresh h k e l = elim (Bool-cases (ltb (130 * second) (now - e.last_update))) [
    | inl stale ↦ absurd (
        ground (
          arith,
          lookup-remove_all (stale_ids second now all) k all,
          stale_listed second now k e all h,
        ))
    | inr fresh ↦ (ground (arith, lookup-remove_all (stale_ids second now all) k all), fresh)
  ]

-- Where every executor stands under its own id, the executor that is chosen for a job is one that
-- the broker has, that was heard of in the last 130 seconds and that is capable of the job,
-- wherever random.choice points; and the executors that are left still stand so.
pub capable_executor-IsSuited :
    (second now choice : ℕ) (caps : Capabilities) (b b' : ExecutorBroker) (e : Executor)
    → AreKeyed b.executors
    → capable_executor second now choice caps b ≡ (some e, b')
    → IsSuited second now caps b.executors e × AreKeyed b'.executors
unfolding capable_executor
capable_executor-IsSuited second now choice caps b b' e h p =
    let es = b.executors in
    let left = remove_all (stale_ids second now es) es in
    let keyed : AreKeyed left = AreKeyed-remove_all (stale_ids second now es) es h in
    let suited =
      capable-IsSuited second now caps es left
        (are_fresh second now caps es left keyed (kept_are_fresh second now caps es h)) in
    (
      element_has (IsSuited second now caps es) (choice % length (capable caps (values left)))
          (capable caps (values left)) e suited (λ i. (p i).0),
      (let q : left ≡ b'.executors = λ i. (p i).1.executors in rw q at keyed),
    )
