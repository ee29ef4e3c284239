-- ===== src/Dtn/Node/Frame.antt =====
-- Node._send_message and what is built on it: a message goes to dtnd over a socket, behind its
-- length in eight big-endian bytes, and a reply comes back in the same form. The socket is a
-- parameter: three actions on a state of the outside world.
use ma_sinafadavi_claude.Prelude.{
  ℕ, zero, suc, ◌+◌, ◌*◌, ◌/◌, ◌%◌, ◌^◌, ◌<◌, Bool, true, false, [], ◌∷◌, ◌++◌, Str, Bytes, length,
  ltb, if◌then◌else◌, Result, ok, err, Exec, after, overflow_error, assertion_error, ◌≡◌, refl,
  arith, lt→ltb,
}
use ma_sinafadavi_claude.Dtn.Message.{Message, reply, fetch_reply}
use ma_sinafadavi_claude.Dtn.Message.Wire.{Value, serialize}
use ma_sinafadavi_claude.Dtn.Message.Reader.{deserialize}
use native.Mathlib.Nat.{pow-suc}

-- the low `w` bytes of a number, the highest first
unfoldable pub big_endian : ℕ → ℕ → Bytes
big_endian zero n = []
big_endian (suc w) n = big_endian w (n / 256) ++ (n % 256) ∷ []

-- n.to_bytes(length=w, byteorder="big", signed=False)
unfoldable pub to_bytes : ℕ → ℕ → Result Bytes
to_bytes w n = if ltb n (256 ^ w) then ok (big_endian w n) else err overflow_error

-- int.from_bytes(data, byteorder="big", signed=False), after `n`
unfoldable pub from_bytes_after : ℕ → Bytes → ℕ
from_bytes_after n [] = n
from_bytes_after n (b ∷ bs) = from_bytes_after (n * 256 + b) bs

unfoldable pub from_bytes : Bytes → ℕ
unfolding from_bytes_after
from_bytes bs = from_bytes_after 0 bs

-- isinstance(message, Reply), of which FetchReply is a subclass
unfoldable pub is_reply : Message → Bool
is_reply (reply s e) = true
is_reply (fetch_reply s e bs) = true
is_reply _ = false

module _ {W : Type 0} (connect : Exec W (Unit {0})) (sendall : Bytes → Exec W (Unit {0}))
    (recv : ℕ → Exec W Bytes) (to_ascii : Str → Str) (packb : Value → Bytes)
    (unpackb : Bytes → Result Value) where
  -- The second half: receive and deserialize the reply.
  unfoldable pub receive_message : Exec W Message
  unfolding is_reply
  receive_message w = after (recv 8 w) λ size w₁. after (recv (from_bytes size) w₁) λ answer w₂.
      after (deserialize to_ascii unpackb answer, w₂)
        λ m w₃. if is_reply m then (ok m, w₃) else (err assertion_error, w₃)

  unfoldable pub send_message : Message → Exec W Message
  unfolding receive_message
  send_message m w = after (connect w) λ _ w₁.
      after (serialize packb m, w₁)
        λ bytes w₂.
          after (to_bytes 8 (length bytes), w₂)
            λ size w₃. after (sendall size w₃) λ _ w₄. after (sendall bytes w₄) λ _. receive_message

from_bytes_after-append :
    (n : ℕ) (bs : Bytes) (b : ℕ)
    → from_bytes_after n (bs ++ b ∷ []) ≡ from_bytes_after n bs * 256 + b
unfolding from_bytes_after
from_bytes_after-append n [] b = refl
from_bytes_after-append n (c ∷ bs) b = from_bytes_after-append (n * 256 + c) bs b

div_small : (w n : ℕ) → n < 256 ^ suc w → n / 256 < 256 ^ w
div_small w n h = omega (arith, pow-suc 256 w)

from_bytes-big_endian : (w n : ℕ) → n < 256 ^ w → from_bytes_after 0 (big_endian w n) ≡ n
unfolding big_endian
from_bytes-big_endian zero n h = unfold from_bytes_after in omega arith
from_bytes-big_endian (suc w) n h =
    rw (from_bytes_after-append 0 (big_endian w (n / 256)) (n % 256))
      (omega (arith, from_bytes-big_endian w (n / 256) (div_small w n h)))

module _ {W : Type 0} (connect : Exec W (Unit {0})) (sendall : Bytes → Exec W (Unit {0}))
    (recv : ℕ → Exec W Bytes) (to_ascii : Str → Str) (packb : Value → Bytes)
    (unpackb : Bytes → Result Value) where
  -- Where the socket connects, takes what is sent and hands over a frame, the length of an answer
  -- in eight bytes and the answer, and both lengths fit, the node returns the message that the
  -- answer stands for, if it is a reply, and raises AssertionError if it is another message.
  pub send_message_framed :
      (m r : Message) (bytes answer : Bytes) (w₀ w₁ w₂ w₃ w₄ w₅ : W)
      → serialize packb m ≡ ok bytes
      → length bytes < 256 ^ 8
      → length answer < 256 ^ 8
      → deserialize to_ascii unpackb answer ≡ ok r
      → connect w₀ ≡ (ok tt, w₁)
      → sendall (big_endian 8 (length bytes)) w₁ ≡ (ok tt, w₂)
      → sendall bytes w₂ ≡ (ok tt, w₃)
      → recv 8 w₃ ≡ (ok (big_endian 8 (length answer)), w₄)
      → recv (length answer) w₄ ≡ (ok answer, w₅)
      → send_message connect sendall recv to_ascii packb unpackb m w₀
        ≡ ((if is_reply r then ok r else err assertion_error), w₅)
  unfolding send_message to_bytes from_bytes
  send_message_framed m r bytes answer w₀ w₁ w₂ w₃ w₄ w₅ made fits fits' read c s t u v =
      rw
        (
          c,
          made,
          lt→ltb (length bytes) (256 ^ 8) fits,
          s,
          t,
          u,
          from_bytes-big_endian 8 (length answer) fits',
          v,
          read,
        )
        (ground arith)
