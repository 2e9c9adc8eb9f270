-- ===== src/Framing/Buffer.antt =====
-- The loop that three receive callbacks share: parse whole frames at an offset, hand each to the
-- handler, and move the partial frame at the end to the front of the buffer. Their handlers do not
-- change the buffer of the socket that is read.
use llcpp_exchange.Prelude.{ℕ, suc, zero, true, false, List, [], ◌∷◌, ◌++◌, leb, length}

module _ {ℓ} {A : Type ℓ} where
  abbrev pub take : ℕ → List A → List A
  take zero xs = []
  take (suc n) [] = []
  take (suc n) (x ∷ xs) = x ∷ take n xs

  abbrev pub drop : ℕ → List A → List A
  drop zero xs = xs
  drop (suc n) [] = []
  drop (suc n) (x ∷ xs) = drop n xs

-- What is behind the frame of `size` bytes: `decode` reads the packed struct, `handle` is the body.
module _ {ℓ κ} {M : Type ℓ} {S : Type κ} (size : ℕ) (decode : List ℕ → M) (handle : M → S → S) where
  -- The bytes from the offset on, and the state; a round of fuel per frame.
  unfoldable pub drain : ℕ → List ℕ → S → S × List ℕ
  drain zero buffer s = (s, buffer)
  drain (suc fuel) buffer s = elim (leb size (length buffer)) [
    | true ↦ drain fuel (drop size buffer) (handle (decode (take size buffer)) s)
    | false ↦ (s, buffer)
  ]

  -- `sendAndRecv` appends the bytes that it reads to the buffer and calls back.
  unfoldable pub on_bytes : List ℕ → S × List ℕ → S × List ℕ
  on_bytes bytes (s, kept) = drain (length (kept ++ bytes)) (kept ++ bytes) s

  -- One read after the other.
  unfoldable pub recv_packets : List (List ℕ) → S × List ℕ → S × List ℕ
  recv_packets [] c = c
  recv_packets (p ∷ ps) c = recv_packets ps (on_bytes p c)

-- The handler on a sequence of messages.
abbrev pub handle_all {ℓ κ} : {M : Type ℓ} {S : Type κ} → (M → S → S) → List M → S → S
handle_all f [] s = s
handle_all f (m ∷ ms) s = handle_all f ms (f m s)

abbrev pub concat {ℓ} : {A : Type ℓ} → List (List A) → List A
concat [] = []
concat (xs ∷ xss) = xs ++ concat xss
