-- ===== src/Orders/Keys.antt =====
-- The keys of resting orders, programs/clober/src/book_state.rs: price first, then time.
use native.Mathlib.Decide.{dec_lt}
use native.Mathlib.Nat.{mod-eq_of_lt}
use flash_book.Common.{
  ℕ, ◌+◌, ◌-◌, ◌*◌, ◌≤◌, ◌<◌, ◌≡◌, ◌↔◌, ◌⊎◌, inl, inr, Bool, true, false, arith, u64, if◌then◌else◌,
}
use flash_book.Orders.{encode_order_id, max_price_ticks_encodable, max_seq_encodable}

-- A bid is better at a higher price, an ask at a lower one.
abbrev pub IsBetter : Bool → ℕ → ℕ → Type 0
IsBetter side_is_bid p q = if side_is_bid then q < p else p < q

-- The first order goes before the second.
abbrev pub HasPriority : Bool → ℕ → ℕ → ℕ → ℕ → Type 0
HasPriority side_is_bid p s q t = IsBetter side_is_bid p q ⊎ (p ≡ q) × (s < t)

key_of :
    (price seq : ℕ) (side_is_bid : Bool)
    → price ≤ max_price_ticks_encodable
    → seq ≤ max_seq_encodable
    → encode_order_id price seq side_is_bid
      ≡ (if side_is_bid then max_price_ticks_encodable - price else price) * 16777216 + seq
unfolding encode_order_id
key_of price seq true h k = omega (arith, mod-eq_of_lt {n = seq} {m = 16777216} (omega arith))
key_of price seq false h k = omega (arith, mod-eq_of_lt {n = seq} {m = 16777216} (omega arith))

-- Numbers of two digits are in the order of their first digits, then of their second.
digits-lt :
    (x s y t : ℕ)
    → s ≤ 16777215
    → t ≤ 16777215
    → x * 16777216 + s < y * 16777216 + t ↔ (x < y) ⊎ (x ≡ y) × (s < t)
digits-lt x s y t hs ht = (
  λ h. elim (dec_lt x y) [ yes l ↦ inl l | no n ↦ inr (omega arith, omega arith) ],
  λ d. elim d [ inl l ↦ omega arith | inr (e, l) ↦ omega arith ],
)

-- For prices and sequence numbers that can be encoded: a key is smaller exactly where its order
-- has the better price for its side, or the same price and the smaller sequence number; the key
-- fits in a u64.
pub encode_order_id-HasPriority :
    (p s q t : ℕ) (side_is_bid : Bool)
    → p ≤ max_price_ticks_encodable
    → q ≤ max_price_ticks_encodable
    → s ≤ max_seq_encodable
    → t ≤ max_seq_encodable
    → (encode_order_id p s side_is_bid < encode_order_id q t side_is_bid
        ↔ HasPriority side_is_bid p s q t)
      × (encode_order_id p s side_is_bid < u64)
encode_order_id-HasPriority p s q t true hp hq hs ht =
    let lex = digits-lt (max_price_ticks_encodable - p) s (max_price_ticks_encodable - q) t hs ht in
    rw (key_of p s true hp hs, key_of q t true hq ht)
      (
        (
          λ h. elim (lex.0 h) [ inl l ↦ inl (omega arith) | inr (e, l) ↦ inr (omega arith, l) ],
          λ h. lex.1 (elim h [ inl l ↦ inl (omega arith) | inr (e, l) ↦ inr (omega arith, l) ]),
        ),
        omega arith,
      )
encode_order_id-HasPriority p s q t false hp hq hs ht =
    rw (key_of p s false hp hs, key_of q t false hq ht) (digits-lt p s q t hs ht, omega arith)
