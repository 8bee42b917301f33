-- ===== src/Gateway/Framing.antt =====
-- The loops by which OrderServer::RecvCallback, GatewayClient::RecvCallback and
-- MarketDataConsumer::RecvCallback cut the bytes of a socket's inbound buffer into messages of one
-- size, `for (; i + sizeof(M) <= next_rcv_valid_index_; i += sizeof(M))`, and keep the rest.
use vots.Base.{
  ℕ, zero, suc, ◌≤◌, ◌<◌, ◌≡◌, refl, ap, ◌∙◌, List, [], ◌∷◌, ◌++◌, if◌then◌else◌, leb, arith,
  Bool-cases, length, length-append, take, drop, length-drop, leb→le, le→leb, inl, inr, dec_lt,
}

pub record Cut : Type 0 where
  pub messages : List (List ℕ)
  pub rest : List ℕ

-- Fuel for the bytes in the buffer is enough, as a message is not empty.
unfoldable pub cut_fuel : ℕ → ℕ → List ℕ → Cut
cut_fuel zero size buffer = record { messages = []; rest = buffer }
cut_fuel (suc fuel) size buffer =
    let later = cut_fuel fuel size (drop size buffer) in
    if leb size (length buffer)
    then record { messages = take size buffer ∷ later.messages; rest = later.rest }
    else record { messages = []; rest = buffer }

unfoldable pub cut : ℕ → List ℕ → Cut
unfolding cut_fuel
cut size buffer = cut_fuel (length buffer) size buffer

-- All fuel that covers the bytes gives one result.
cut_fuel-any :
    (f g size : ℕ) (buffer : List ℕ)
    → 0 < size
    → length buffer ≤ f
    → length buffer ≤ g
    → cut_fuel f size buffer ≡ cut_fuel g size buffer
unfolding cut_fuel
cut_fuel-any zero zero size buffer pos h k = refl
cut_fuel-any zero (suc g) size buffer pos h k = ground arith
cut_fuel-any (suc f) zero size buffer pos h k = ground arith
cut_fuel-any (suc f) (suc g) size buffer pos h k = elim (Bool-cases (leb size (length buffer))) [
  | inl more ↦
      let fits = leb→le _ _ more in
      let later =
        cut_fuel-any f g size (drop size buffer) pos (omega (arith, length-drop size buffer))
          (omega (arith, length-drop size buffer)) in
      rw (more, later)
  | inr short ↦ rw short
]

pub cut_more :
    (size : ℕ) (buffer : List ℕ)
    → 0 < size
    → size ≤ length buffer
    → cut size buffer ≡ record {
      messages = take size buffer ∷ (cut size (drop size buffer)).messages;
      rest = (cut size (drop size buffer)).rest;
    }
unfolding cut
cut_more size buffer pos h =
    cut_fuel-any (length buffer) (suc (length buffer)) size buffer pos (omega arith) (omega arith)
    ∙ rw (le→leb _ _ h) (
        ap (λ (c : Cut). record { messages = take size buffer ∷ c.messages; rest = c.rest })
          (cut_fuel-any (length buffer) (length (drop size buffer)) size (drop size buffer) pos
            (omega (arith, length-drop size buffer)) (omega arith)))

pub cut_short :
    (size : ℕ) (buffer : List ℕ)
    → length buffer < size
    → cut size buffer ≡ record { messages = []; rest = buffer }
unfolding cut
cut_short size [] h = refl
cut_short size (x ∷ buffer) h = ground arith

-- The whole messages and the rest are the buffer's bytes, and the rest is shorter than a message.
cut_fuel-rest :
    (fuel size : ℕ) (buffer : List ℕ)
    → 0 < size
    → length buffer ≤ fuel
    → length (cut_fuel fuel size buffer).rest < size
unfolding cut_fuel
cut_fuel-rest zero size buffer pos h = omega arith
cut_fuel-rest (suc fuel) size buffer pos h =
    ground (arith, cut_fuel-rest fuel size (drop size buffer), length-drop size buffer)

take-append : (n : ℕ) (xs ys : List ℕ) → n ≤ length xs → take n (xs ++ ys) ≡ take n xs
take-append zero xs ys h = refl
take-append (suc n) [] ys h = absurd (omega arith)
take-append (suc n) (x ∷ xs) ys h = ap (λ l. x ∷ l) (take-append n xs ys (omega arith))

drop-append : (n : ℕ) (xs ys : List ℕ) → n ≤ length xs → drop n (xs ++ ys) ≡ drop n xs ++ ys
drop-append zero xs ys h = refl
drop-append (suc n) [] ys h = absurd (omega arith)
drop-append (suc n) (x ∷ xs) ys h = drop-append n xs ys (omega arith)

-- How the bytes of one more read continue a cut.
abbrev pub continued : ℕ → Cut → List ℕ → Cut
continued size c more = record {
  messages = c.messages ++ (cut size (c.rest ++ more)).messages;
  rest = (cut size (c.rest ++ more)).rest;
}

cut_append-below :
    (fuel size : ℕ) (buffer more : List ℕ)
    → 0 < size
    → length buffer ≤ fuel
    → cut size (buffer ++ more) ≡ continued size (cut size buffer) more
cut_append-below zero size buffer more pos h = rw (cut_short size buffer (omega arith))
cut_append-below (suc fuel) size buffer more pos h = elim (dec_lt (length buffer) size) [
  | yes short ↦ rw (cut_short size buffer short)
  | no fits ↦
      let within : size ≤ length buffer = omega arith in
      let below : length (drop size buffer) ≤ fuel = omega (arith, length-drop size buffer) in
      let all = cut_more size (buffer ++ more) pos (omega (arith, length-append buffer more)) in
      rw (all, cut_more size buffer pos within, take-append size buffer more within)
        (rw (
          drop-append size buffer more within,
          cut_append-below fuel size (drop size buffer) more pos below,
        ))
]

-- However the bytes of a stream are split into reads, the receiver cuts out the same messages and is
-- left with the same rest: cutting a buffer, and then its rest with the bytes of the next read, is
-- cutting all the bytes at once.
pub cut-append :
    (size : ℕ) (buffer more : List ℕ)
    → 0 < size
    → cut size (buffer ++ more) ≡ continued size (cut size buffer) more
cut-append size buffer more pos =
    cut_append-below (length buffer) size buffer more pos (omega arith)
