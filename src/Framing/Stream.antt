-- ===== src/Framing/Stream.antt =====
-- The byte stream: how the reads cut it does not matter.
use llcpp_exchange.Prelude.{
  ℕ, suc, zero, ◌-◌, ◌≤◌, ◌<◌, ◌≡◌, refl, sym, ap, ◌∙◌, List, [], ◌∷◌, ◌++◌, map, arith, length,
  length-append,
}
use native.Mathlib.Decide.{dec_le}
use llcpp_exchange.Framing.Buffer.{take, drop, drain, on_bytes, recv_packets, handle_all, concat}
use mathlib.Core.List.{append_assoc, append-nil}

module _ {ℓ} {A : Type ℓ} where
  length-drop : (n : ℕ) (xs : List A) → length (drop n xs) ≡ length xs - n
  length-drop zero xs = omega arith
  length-drop (suc n) [] = omega arith
  length-drop (suc n) (x ∷ xs) = omega (arith, length-drop n xs)

  take-append : (n : ℕ) (xs ys : List A) → n ≤ length xs → take n (xs ++ ys) ≡ take n xs
  take-append zero xs ys h = refl
  take-append (suc n) [] ys h = absurd (omega arith)
  take-append (suc n) (x ∷ xs) ys h = ap (λ l. x ∷ l) (take-append n xs ys (omega arith))

  drop-append : (n : ℕ) (xs ys : List A) → n ≤ length xs → drop n (xs ++ ys) ≡ drop n xs ++ ys
  drop-append zero xs ys h = refl
  drop-append (suc n) [] ys h = absurd (omega arith)
  drop-append (suc n) (x ∷ xs) ys h = drop-append n xs ys (omega arith)

  take_whole : (n : ℕ) (xs : List A) → length xs ≡ n → take n xs ≡ xs
  take_whole zero [] h = refl
  take_whole zero (x ∷ xs) h = absurd (omega arith)
  take_whole (suc n) [] h = absurd (omega arith)
  take_whole (suc n) (x ∷ xs) h = ap (λ l. x ∷ l) (take_whole n xs (omega arith))

  drop_whole : (n : ℕ) (xs : List A) → length xs ≡ n → drop n xs ≡ []
  drop_whole zero [] h = refl
  drop_whole zero (x ∷ xs) h = absurd (omega arith)
  drop_whole (suc n) [] h = absurd (omega arith)
  drop_whole (suc n) (x ∷ xs) h = drop_whole n xs (omega arith)

module _ {ℓ κ} {M : Type ℓ} {S : Type κ} {size : ℕ} (decode : List ℕ → M) (handle : M → S → S)
    (positive : 0 < size) where
  abbrev run : ℕ → List ℕ → S → S × List ℕ
  run = drain size decode handle

  drain_more :
      (f : ℕ) (b : List ℕ) (s : S)
      → size ≤ length b
      → run (suc f) b s ≡ run f (drop size b) (handle (decode (take size b)) s)
  unfolding drain
  drain_more f b s h = ground arith

  drain_rest : (f : ℕ) (b : List ℕ) (s : S) → length b < size → run f b s ≡ (s, b)
  unfolding drain
  drain_rest zero b s h = refl
  drain_rest (suc f) b s h = ground arith

  -- Any two amounts of fuel that cover the buffer agree.
  drain_fuel : (f g : ℕ) (b : List ℕ) (s : S) → length b ≤ f → length b ≤ g → run f b s ≡ run g b s
  drain_fuel zero g b s hf hg =
      drain_rest zero b s (omega arith) ∙ sym (drain_rest g b s (omega arith))
  drain_fuel (suc f) zero b s hf hg =
      drain_rest (suc f) b s (omega arith) ∙ sym (drain_rest zero b s (omega arith))
  drain_fuel (suc f) (suc g) b s hf hg = elim (dec_le size (length b)) [
    | Dec.yes e ↦
        drain_more f b s e
        ∙ (drain_fuel f g (drop size b) (handle (decode (take size b)) s)
              (omega (arith, length-drop size b)) (omega (arith, length-drop size b))
            ∙ sym (drain_more g b s e))
    | Dec.no e ↦ drain_rest (suc f) b s (omega arith) ∙ sym (drain_rest (suc g) b s (omega arith))
  ]

  drain_stops : (f : ℕ) (b : List ℕ) (s : S) → length b ≤ f → length (run f b s).1 < size
  drain_stops zero b s h = rw (drain_rest zero b s (omega arith)) (omega arith)
  drain_stops (suc f) b s h = elim (dec_le size (length b)) [
    | Dec.yes e ↦ rw (drain_more f b s e) (
        drain_stops f (drop size b) (handle (decode (take size b)) s)
          (omega (arith, length-drop size b)))
    | Dec.no e ↦ rw (drain_rest (suc f) b s (omega arith)) (omega arith)
  ]

  drain-append :
      (f g : ℕ) (a b : List ℕ) (s : S)
      → length a ≤ f
      → length (a ++ b) ≤ g
      → run g (a ++ b) s ≡ (let r = run f a s in run (length (r.1 ++ b)) (r.1 ++ b) r.0)
  drain-append zero g a b s hf hg =
      rw (drain_rest zero a s (omega arith))
        (drain_fuel g (length (a ++ b)) (a ++ b) s hg (omega arith))
  drain-append (suc f) zero a b s hf hg =
      rw (drain_rest (suc f) a s (omega (arith, length-append a b)))
        (drain_fuel zero (length (a ++ b)) (a ++ b) s hg (omega arith))
  drain-append (suc f) (suc g) a b s hf hg = elim (dec_le size (length a)) [
    | Dec.yes e ↦
        rw
          (
            drain_more f a s e,
            drain_more g (a ++ b) s (omega (arith, length-append a b)),
            take-append size a b e,
            drop-append size a b e,
          )
          (drain-append f g (drop size a) b (handle (decode (take size a)) s)
            (omega (arith, length-drop size a))
            (omega (arith, length-append (drop size a) b, length-append a b, length-drop size a)))
    | Dec.no e ↦
        rw (drain_rest (suc f) a s (omega arith))
          (drain_fuel (suc g) (length (a ++ b)) (a ++ b) s hg (omega arith))
  ]

  recv_packets-concat :
      (ps : List (List ℕ)) (s : S) (kept : List ℕ)
      → length kept < size
      → recv_packets size decode handle ps (s, kept)
        ≡ run (length (kept ++ concat ps)) (kept ++ concat ps) s
  unfolding recv_packets on_bytes
  recv_packets-concat [] s kept h = sym (
      drain_rest (length (kept ++ [])) (kept ++ []) s (omega (arith, length-append kept []))
      ∙ ap (λ l. (s, l)) (append-nil kept))
  recv_packets-concat (p ∷ ps) s kept h =
      let b = kept ++ p in
      recv_packets-concat ps (run (length b) b s).0 (run (length b) b s).1
        (drain_stops (length b) b s (omega arith))
      ∙ (sym (
            drain-append (length b) (length (b ++ concat ps)) b (concat ps) s (omega arith)
              (omega arith))
          ∙ ap (λ l. run (length l) l s) (append_assoc kept p (concat ps)))

  -- However the reads cut a stream of bytes, a handler that does not change the buffer handles the
  -- messages as if all bytes came at once, and what is left in the buffer is shorter than a frame.
  pub packets-order :
      (ps : List (List ℕ)) (s : S)
      → (recv_packets size decode handle ps (s, [])
          ≡ on_bytes size decode handle (concat ps) (s, []))
        × (length (recv_packets size decode handle ps (s, [])).1 < size)
  unfolding on_bytes
  packets-order ps s =
      let e = recv_packets-concat ps s [] (omega arith) in
      (e, rw e (drain_stops (length (concat ps)) (concat ps) s (omega arith)))

  drain-encoded :
      (encode : M → List ℕ)
      → ((m : M) → length (encode m) ≡ size)
      → ((m : M) → decode (encode m) ≡ m)
      → (ms : List M) (f : ℕ) (s : S) → length (concat (map encode ms)) ≤ f
      → run f (concat (map encode ms)) s ≡ (handle_all handle ms s, [])
  drain-encoded encode sized round [] f s h = drain_rest f [] s (omega arith)
  drain-encoded encode sized round (m ∷ ms) zero s h =
      absurd (omega (arith, sized m, length-append (encode m) (concat (map encode ms))))
  drain-encoded encode sized round (m ∷ ms) (suc f) s h =
      let rest = concat (map encode ms) in
      let long = length-append (encode m) rest in
      let full : size ≤ length (encode m) = omega (arith, sized m) in
      drain_more f (encode m ++ rest) s (omega (arith, long))
      ∙ rw
          (
            take-append size (encode m) rest full,
            drop-append size (encode m) rest full,
            take_whole size (encode m) (sized m),
            drop_whole size (encode m) (sized m),
            round m,
          )
          (drain-encoded encode sized round ms f (handle m s) (omega (arith, long, sized m)))

  -- A sender writes each message as the `size` bytes that `decode` reads back. Then, however the
  -- reads cut those bytes, a handler that does not change the buffer gets exactly the messages
  -- sent, in order, and nothing is left in the buffer.
  pub stream_delivers :
      (encode : M → List ℕ)
      → ((m : M) → length (encode m) ≡ size)
      → ((m : M) → decode (encode m) ≡ m)
      → (ms : List M) (ps : List (List ℕ)) (s : S) → concat ps ≡ concat (map encode ms)
      → recv_packets size decode handle ps (s, []) ≡ (handle_all handle ms s, [])
  unfolding on_bytes
  stream_delivers encode sized round ms ps s e =
      (packets-order ps s).0
      ∙ rw e (drain-encoded encode sized round ms (length (concat (map encode ms))) s (omega arith))
