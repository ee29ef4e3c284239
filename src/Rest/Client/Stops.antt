-- ===== src/Rest/Client/Stops.antt =====
-- When the client stops.
use ma_sinafadavi_claude.Rest.Job.{StrDict}
use ma_sinafadavi_claude.Rest.Client.{Client, all_submitted, receive_result, take_result}
use ma_sinafadavi_claude.Prelude.{
  List, ◌≡◌, ◌∷◌, refl, Bool, true, false, [], arith, is_empty, Str, Option, none, some, lookup,
}

-- the client has stopped if nothing is pending, and otherwise waits for what is
pub record Waits {W : Type 0} (c : Client W) : Type 0 where
  pub stops : c.stopped ≡ is_empty c.pending_results
  pub queued : is_empty c.pending_results ≡ false → c.all_queued ≡ true

Waits-all_submitted : {W : Type 0} (c : Client W) → c.stopped ≡ false → Waits (all_submitted c)
Waits-all_submitted c h = by_pending c.pending_results
  where
    by_pending : (d : StrDict) → Waits (all_submitted (record c { pending_results = d }))
    by_pending [] =
        unfold all_submitted in record { stops = refl; queued = λ e. absurd (ground arith) }
    by_pending (x ∷ d) = unfold all_submitted in record { stops = h; queued = λ e. refl }

pending_name : (id name : Str) (d : StrDict) → lookup id d ≡ some name → is_empty d ≡ false
unfolding lookup
pending_name id name [] h = absurd (ground arith)
pending_name id name (x ∷ d) h = refl

taken :
    {W : Type 0} (stored : Bool) (id : Str) (o : Option Str) (c : Client W)
    → lookup id c.pending_results ≡ o
    → Waits c
    → Waits (take_result stored id o c).1
unfolding take_result
taken stored id none c e w = w
taken false id (some name) c e w = w
taken true id (some name) c e w =
    let n = pending_name id name c.pending_results e in
    record { stops = ground (arith, w.stops, n, w.queued n); queued = λ _. w.queued n }

received :
    {W : Type 0} (stored : Bool) (id : Str) (c : Client W)
    → Waits c
    → Waits (receive_result stored id c).1
unfolding receive_result
received stored id c w = taken stored id (lookup id c.pending_results) c refl w

-- results that come in one after the other
unfoldable pub receive_each : {W : Type 0} → List (Bool × Str) → Client W → Client W
receive_each [] c = c
receive_each ((stored, id) ∷ events) c = receive_each events (receive_result stored id c).1

all_received :
    {W : Type 0} (events : List (Bool × Str)) (c : Client W)
    → Waits c
    → Waits (receive_each events c)
unfolding receive_each
all_received [] c w = w
all_received ((stored, id) ∷ events) c w =
    all_received events (receive_result stored id c).1 (received stored id c w)

-- After all jobs are submitted, whatever results come in, expected or not, stored or not: the client
-- has stopped exactly when no result is pending. It has not been stopped before.
pub receive_each-stops :
    {W : Type 0} (events : List (Bool × Str)) (c : Client W)
    → c.stopped ≡ false
    → (receive_each events (all_submitted c)).stopped
      ≡ is_empty (receive_each events (all_submitted c)).pending_results
receive_each-stops events c h =
    (all_received events (all_submitted c) (Waits-all_submitted c h)).stops
