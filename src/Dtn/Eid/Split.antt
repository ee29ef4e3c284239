-- ===== src/Dtn/Eid/Split.antt =====
-- Splitting a text that was put together with a separator.
use ma_sinafadavi_claude.Prelude.{ℕ, true, some, [], ◌∷◌, ◌++◌, Str, ◌≡◌, ◌≢◌, refl, arith}
use ma_sinafadavi_claude.Dtn.Eid.{split_once, split, matches_node, node_char, slash, dot}
use ma_sinafadavi_claude.Dtn.Eid.Decimal.{AreDigits}

-- the separator does not occur
abbrev pub Lacks : ℕ → Str → Type 0
Lacks sep [] = Unit
Lacks sep (c ∷ cs) = (c ≢ sep) × Lacks sep cs

pub split_once-Lacks :
    (sep : ℕ) (a b : Str) → Lacks sep a → split_once sep (a ++ (sep ∷ b)) ≡ some (a, b)
unfolding split_once
split_once-Lacks sep [] b h = ground arith
split_once-Lacks sep (c ∷ a) b h = ground (arith, h.0, split_once-Lacks sep a b h.1)

pub split-Lacks : (sep : ℕ) (b : Str) → Lacks sep b → split sep b ≡ b ∷ []
unfolding split
split-Lacks sep [] h = refl
split-Lacks sep (c ∷ b) h = ground (arith, h.0, split-Lacks sep b h.1)

pub split_two :
    (sep : ℕ) (a b : Str) → Lacks sep a → Lacks sep b → split sep (a ++ (sep ∷ b)) ≡ a ∷ b ∷ []
unfolding split
split_two sep [] b h k = ground (arith, split-Lacks sep b k)
split_two sep (c ∷ a) b h k = ground (arith, h.0, split_two sep a b h.1 k)

matches_node-head : (c : ℕ) (cs : Str) → matches_node (c ∷ cs) ≡ true → c ≢ slash
unfolding matches_node node_char
matches_node-head c cs h e = ground arith

matches_node-tail : (c : ℕ) (cs : Str) → matches_node (c ∷ cs) ≡ true → matches_node cs ≡ true
unfolding matches_node
matches_node-tail c [] h = refl
matches_node-tail c (d ∷ cs) h = ground arith

-- A node name has no slash.
pub matches_node-Lacks : (s : Str) → matches_node s ≡ true → Lacks slash s
matches_node-Lacks [] h = tt
matches_node-Lacks (c ∷ cs) h =
    (matches_node-head c cs h, matches_node-Lacks cs (matches_node-tail c cs h))

pub AreDigits-Lacks : (s : Str) → AreDigits s → Lacks dot s
AreDigits-Lacks [] h = tt
AreDigits-Lacks (c ∷ cs) h = (omega arith, AreDigits-Lacks cs h.2)
