-- ===== src/Dtn/Client/Replies.antt =====
-- Which reply a client takes.
use ma_sinafadavi_claude.Prelude.{
  List, ◌∙◌, ◌≡◌, ◌+◌, ℕ, zero, suc, refl, ap, Option, none, some, arith, Exec, Result, ◌++◌, ◌∷◌,
  [],
}
use ma_sinafadavi_claude.Dtn.Message.{BundleData, BundleType, Message, bundle_type_value}
use ma_sinafadavi_claude.Dtn.Node.{Node}
use ma_sinafadavi_claude.Dtn.Node.Rounds.{get_new_bundles}
use ma_sinafadavi_claude.Dtn.Client.{wait_reply, unless_first, first_of, ok}

-- the bundle is a reply of the type
abbrev pub IsReply : BundleType → BundleData → Type 0
IsReply t b = b.type ≡ bundle_type_value t

-- no bundle is a reply of the type
abbrev pub NoneReplies : BundleType → List BundleData → Type 0
NoneReplies t [] = Unit
NoneReplies t (b ∷ bs) = ¬ (IsReply t b) × NoneReplies t bs

first_of-none : (t : BundleType) (bs : List BundleData) → NoneReplies t bs → first_of t bs ≡ none
unfolding first_of
first_of-none t [] h = refl
first_of-none t (b ∷ bs) (other, h) = ground (arith, other, first_of-none t bs h)

first_of-append :
    (t : BundleType) (before rest : List BundleData) (b : BundleData)
    → NoneReplies t before
    → IsReply t b
    → first_of t (before ++ b ∷ rest) ≡ some b
unfolding first_of
first_of-append t [] rest b h e = ground (arith, e)
first_of-append t (c ∷ before) rest b (other, h) e =
    ground (arith, other, first_of-append t before rest b h e)

module _ {W : Type 0} (send : Message → Exec W Message) (sleep : W → W) (t : BundleType)
    (n : Node) where
  -- the world after a number of rounds
  unfoldable pub waited : ℕ → W → W
  waited zero w = w
  waited (suc k) w = waited k (get_new_bundles send n (sleep w)).1

  -- rounds whose bundles are fetched and are of other types
  abbrev pub NoReply : ℕ → W → Type 0
  NoReply zero w = Unit
  NoReply (suc k) w =
      ((bundles : List BundleData) × (((get_new_bundles send n (sleep w)).0 ≡ ok bundles)
          × NoneReplies t bundles))
      × NoReply k (get_new_bundles send n (sleep w)).1

  unless_first-none :
      (bundles : List BundleData) (r : Result (List BundleData) × W)
      (rest : W → Option (Result BundleData × W))
      → r.0 ≡ ok bundles
      → first_of t bundles ≡ none
      → unless_first send sleep t r rest ≡ rest r.1
  unfolding unless_first
  unless_first-none bundles (r, w) rest e f = rw (e, f) refl

  unless_first-some :
      (bundles : List BundleData) (b : BundleData) (r : Result (List BundleData) × W)
      (rest : W → Option (Result BundleData × W))
      → r.0 ≡ ok bundles
      → first_of t bundles ≡ some b
      → unless_first send sleep t r rest ≡ some (ok b, r.1)
  unfolding unless_first
  unless_first-some bundles b (r, w) rest e f = rw (e, f) refl

  first_replies :
      (k more : ℕ) (bundles : List BundleData) (b : BundleData) (w : W)
      → NoReply k w
      → (get_new_bundles send n (sleep (waited k w))).0 ≡ ok bundles
      → first_of t bundles ≡ some b
      → wait_reply send sleep (suc (k + more)) t n w
        ≡ some (ok b, (get_new_bundles send n (sleep (waited k w))).1)
  unfolding wait_reply waited
  first_replies zero more bundles b w h e f =
      unless_first-some bundles b (get_new_bundles send n (sleep w)) _ e f
  first_replies (suc k) more bundles b w (((others, (o, p)), rest)) e f =
      unless_first-none others (get_new_bundles send n (sleep w)) _ o (first_of-none t others p)
      ∙ (ap (λ fuel. wait_reply send sleep fuel t n (get_new_bundles send n (sleep w)).1)
            (plus k more)
          ∙ first_replies k more bundles b (get_new_bundles send n (sleep w)).1 rest e f)
    where
      plus : (k more : ℕ) → suc k + more ≡ suc (k + more)
      plus k more = omega arith

  -- If in the first k rounds only bundles of other types come, and the batch of the next round is
  -- some bundles of other types, then a bundle of the type, then any others, the wait for a reply of
  -- the type gives that bundle, whoever sent it and whatever it names. The world is then as the
  -- fetch of that batch left it. Fuel for one more than the rounds before is enough.
  pub wait_reply-first :
      (k more : ℕ) (before rest : List BundleData) (b : BundleData) (w : W)
      → NoReply k w
      → (get_new_bundles send n (sleep (waited k w))).0 ≡ ok (before ++ b ∷ rest)
      → NoneReplies t before
      → IsReply t b
      → wait_reply send sleep (suc (k + more)) t n w
        ≡ some (ok b, (get_new_bundles send n (sleep (waited k w))).1)
  wait_reply-first k more before rest b w h e others reply =
      first_replies k more (before ++ b ∷ rest) b w h e
        (first_of-append t before rest b others reply)
